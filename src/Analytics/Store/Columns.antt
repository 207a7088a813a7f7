-- ===== src/Analytics/Store/Columns.antt =====
-- The columns of the rows of analyticsstore/memory_store.go, and how a movement changes them.
use inventory_storage.Prelude.{
  ℕ, ◌+◌, ◌%◌, ◌<◌, ◌≡◌, refl, sym, ◌∙◌, true, false, inl, inr, List, [], ◌∷◌, All, arith, eq_iff,
  Bool-cases, if◌then◌else◌,
}
use inventory_storage.Shared.Int
use inventory_storage.Shared.Int.{Int64, modulus}
use inventory_storage.Analytics.Store.{
  RowKey, RowAcc, zero_acc, Row, same_key, change_row, Movement, moved, stock_received, item_stowed,
  stock_picked, stock_reserved, reservation_expired, reservation_revoked, cycle_count_completed,
  discrepancy_detected, item_unlocated,
}

-- The columns of a row.
pub data Metric : Type 0 where
  received_quantity stowed_count picked_quantity : Metric
  reservations_created reservations_expired reservations_revoked : Metric
  cycle_counts_completed discrepancies_detected unlocated_count : Metric

abbrev pub column : Metric → RowAcc → Int64
column received_quantity r = r.received_quantity
column stowed_count r = r.stowed_count
column picked_quantity r = r.picked_quantity
column reservations_created r = r.reservations_created
column reservations_expired r = r.reservations_expired
column reservations_revoked r = r.reservations_revoked
column cycle_counts_completed r = r.cycle_counts_completed
column discrepancies_detected r = r.discrepancies_detected
column unlocated_count r = r.unlocated_count

-- What the documentation of `Row` counts of a movement under a column.
abbrev pub amount : Metric → Movement → ℕ
amount received_quantity (stock_received sku qty) = qty
amount stowed_count (item_stowed sku bin_id) = 1
amount picked_quantity (stock_picked sku qty) = qty
amount reservations_created (stock_reserved sku) = 1
amount reservations_expired (reservation_expired sku) = 1
amount reservations_revoked (reservation_revoked sku) = 1
amount cycle_counts_completed (cycle_count_completed bin_id) = 1
amount discrepancies_detected (discrepancy_detected bin_id) = 1
amount unlocated_count (item_unlocated sku bin_id) = 1
amount _ _ = 0

column-moved :
    (m : Metric) (v : Movement) (r : RowAcc)
    → column m r < modulus
    → column m (moved v r) ≡ (column m r + amount m v) % modulus
unfolding moved Int.add
column-moved received_quantity (stock_received sku qty) r h = refl
column-moved stowed_count (item_stowed sku bin_id) r h = refl
column-moved picked_quantity (stock_picked sku qty) r h = refl
column-moved reservations_created (stock_reserved sku) r h = refl
column-moved reservations_expired (reservation_expired sku) r h = refl
column-moved reservations_revoked (reservation_revoked sku) r h = refl
column-moved cycle_counts_completed (cycle_count_completed bin_id) r h = refl
column-moved discrepancies_detected (discrepancy_detected bin_id) r h = refl
column-moved unlocated_count (item_unlocated sku bin_id) r h = refl
column-moved _ _ r h = omega (arith, h)

column-zero : (m : Metric) → column m zero_acc ≡ 0
column-zero received_quantity = refl
column-zero _ = refl

abbrev pub HoldsInts : Row → Type 0
HoldsInts r = (m : Metric) → column m r.acc < modulus

-- The column of the row of a key; a row that is not there has nothing in it.
abbrev pub total : Metric → RowKey → List Row → Int64
total m k [] = 0
total m k (r ∷ rows) = if same_key r.key k then column m r.acc else total m k rows

same_key_trans : (a b k : RowKey) → same_key a b ≡ true → same_key a k ≡ same_key b k
unfolding same_key
same_key_trans a b k h = ground (
  arith,
  h,
  eq_iff a.sku b.sku,
  eq_iff a.bin_id b.bin_id,
  eq_iff a.sku k.sku,
  eq_iff a.bin_id k.bin_id,
  eq_iff b.sku k.sku,
  eq_iff b.bin_id k.bin_id,
)

HoldsInts-moved :
    (v : Movement) (k : RowKey) (r : RowAcc)
    → ((m : Metric) → column m r < modulus)
    → HoldsInts (record { key = k; acc = moved v r })
HoldsInts-moved v k r h m = let e = column-moved m v r (h m) in omega (arith, e)

zero-HoldsInts : (m : Metric) → column m zero_acc < modulus
zero-HoldsInts m = let e = column-zero m in omega (arith, e)

pub change_row-HoldsInts :
    (k : RowKey) (v : Movement) (rows : List Row)
    → All HoldsInts rows
    → All HoldsInts (change_row k (moved v) rows)
unfolding change_row
change_row-HoldsInts k v [] h = (HoldsInts-moved v k zero_acc zero-HoldsInts, tt)
change_row-HoldsInts k v (r ∷ rows) h = elim (Bool-cases (same_key r.key k)) [
  | inl same ↦ rw same (HoldsInts-moved v r.key r.acc h.0, h.1)
  | inr other ↦ rw other (h.0, change_row-HoldsInts k v rows h.1)
]

same_key_comm : (a b : RowKey) → same_key a b ≡ same_key b a
unfolding same_key
same_key_comm a b = ground (
  arith,
  eq_iff a.sku b.sku,
  eq_iff a.bin_id b.bin_id,
  eq_iff b.sku a.sku,
  eq_iff b.bin_id a.bin_id,
)

pub total-lt :
    (m : Metric) (k : RowKey) (rows : List Row) → All HoldsInts rows → total m k rows < modulus
total-lt m k [] h = omega arith
total-lt m k (r ∷ rows) h =
    let first = h.0 m in let rest = total-lt m k rows h.1 in ground (arith, first, rest)

pub total-change :
    (m : Metric) (k l : RowKey) (v : Movement) (rows : List Row)
    → All HoldsInts rows
    → total m k (change_row l (moved v) rows)
      ≡ (total m k rows + (if same_key l k then amount m v else 0)) % modulus
unfolding change_row
total-change m k l v [] h =
    let e = column-moved m v zero_acc (zero-HoldsInts m) in
    let z = column-zero m in ground (arith, e, z)
total-change m k l v (r ∷ rows) h = elim (Bool-cases (same_key r.key l)) [
  | inl same ↦
      let lk : same_key l k ≡ same_key r.key k = sym (same_key_trans r.key l k same) in
      elim (Bool-cases (same_key r.key k)) [
        | inl hit ↦ rw (same, lk, hit) (column-moved m v r.acc (h.0 m))
        | inr miss ↦ let small = total-lt m k rows h.1 in rw (same, lk, miss) (omega (arith, small))
      ]
  | inr other ↦ elim (Bool-cases (same_key r.key k)) [
    | inl hit ↦
        let lk : same_key l k ≡ false =
          same_key_comm l k ∙ sym (same_key_trans r.key k l hit) ∙ other in
        let small = h.0 m in rw (other, lk, hit) (omega (arith, small))
    | inr miss ↦ rw (other, miss) (total-change m k l v rows h.1)
  ]
]
