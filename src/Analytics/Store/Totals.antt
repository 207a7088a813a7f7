-- ===== src/Analytics/Store/Totals.antt =====
-- What the read model shows: sums over the events.
use inventory_storage.Shared.Events.{Time}
use inventory_storage.Prelude.{
  ℕ, Bool, ◌&&◌, ◌==◌, str_eq, ◌+◌, ◌%◌, ◌≡◌, refl, sym, ap, ◌∙◌, String, true, false, inl, inr,
  List, [], ◌∷◌, All, arith, eq_iff, Bool-cases, leb, ltb, select, sum_by, Rearranged,
  sum_by-Rearranged, if◌then◌else◌,
}
use inventory_storage.Shared.Int.{modulus}
use inventory_storage.Analytics.Store.{
  RowKey, Row, MemoryStore, new_memory_store, hour, hour_bucket, key_at, same_key, was_seen,
  change_row, apply_first, later, ReportQuery, is_selected, query, Movement, Event, row_key, moved,
  apply, stock_received, item_stowed, stock_picked, stock_reserved, reservation_expired,
  reservation_revoked, cycle_count_completed, discrepancy_detected, item_unlocated,
}
use inventory_storage.Analytics.Store.Columns.{
  Metric, amount, HoldsInts, total, change_row-HoldsInts, total-lt, total-change,
}

-- The SKU and the bin that an event carries; the dimension that it lacks is empty.
abbrev pub sku_of : Movement → String
sku_of (stock_received sku qty) = sku
sku_of (item_stowed sku bin_id) = sku
sku_of (stock_picked sku qty) = sku
sku_of (stock_reserved sku) = sku
sku_of (reservation_expired sku) = sku
sku_of (reservation_revoked sku) = sku
sku_of (item_unlocated sku bin_id) = sku
sku_of _ = ""

abbrev pub bin_of : Movement → String
bin_of (item_stowed sku bin_id) = bin_id
bin_of (cycle_count_completed bin_id) = bin_id
bin_of (discrepancy_detected bin_id) = bin_id
bin_of (item_unlocated sku bin_id) = bin_id
bin_of _ = ""

-- The time lies in the hour that starts at the bucket.
abbrev pub is_within : Time → Time → Bool
is_within bucket at = bucket % hour == 0 && leb bucket at && ltb at (bucket + hour)

abbrev pub belongs : RowKey → Event → Bool
belongs k e =
    str_eq (sku_of e.movement) k.sku
    && str_eq (bin_of e.movement) k.bin_id
    && is_within k.hour_bucket e.at

-- What an event counts under a column of the row of a key.
abbrev pub contribution : Metric → RowKey → Event → ℕ
contribution m k e = if belongs k e then amount m e.movement else 0

hour_bucket-is_within : (bucket at : Time) → (hour_bucket at == bucket) ≡ is_within bucket at
unfolding hour_bucket
hour_bucket-is_within bucket at = ground arith

row_key-key_at : (v : Movement) (at : Time) → row_key v at ≡ key_at (sku_of v) (bin_of v) at
unfolding row_key
row_key-key_at (stock_received sku qty) at = refl
row_key-key_at _ at = refl

row_key-belongs : (k : RowKey) (e : Event) → same_key (row_key e.movement e.at) k ≡ belongs k e
unfolding same_key key_at
row_key-belongs k e =
    ap (λ l. same_key l k) (row_key-key_at e.movement e.at)
    ∙ ap (λ b. str_eq (sku_of e.movement) k.sku && str_eq (bin_of e.movement) k.bin_id && b)
        (hour_bucket-is_within k.hour_bucket e.at)

-- The events whose id is new, the first of each.
abbrev pub first_of_each : List String → List Event → List Event
first_of_each seen [] = []
first_of_each seen (e ∷ log) =
    if was_seen e.id seen then first_of_each seen log else e ∷ first_of_each (e.id ∷ seen) log

abbrev pub apply_all : List Event → MemoryStore → MemoryStore
apply_all [] s = s
apply_all (e ∷ log) s = apply_all log (apply e s)

abbrev applied : Event → MemoryStore → MemoryStore
applied e s = record {
  seen = e.id ∷ s.seen;
  rows = change_row (row_key e.movement e.at) (moved e.movement) s.rows;
  latest = later s.latest e.at;
}

apply-seen : (e : Event) (s : MemoryStore) → was_seen e.id s.seen ≡ true → apply e s ≡ s
unfolding apply apply_first
apply-seen e s h = rw h refl

apply-unseen :
    (e : Event) (s : MemoryStore) → was_seen e.id s.seen ≡ false → apply e s ≡ applied e s
unfolding apply apply_first
apply-unseen e s h = rw h refl

apply_all-total :
    (m : Metric) (k : RowKey) (log : List Event) (s : MemoryStore)
    → All HoldsInts s.rows
    → total m k (apply_all log s).rows
      ≡ (total m k s.rows + sum_by (contribution m k) (first_of_each s.seen log)) % modulus
apply_all-total m k [] s h = let small = total-lt m k s.rows h in omega (arith, small)
apply_all-total m k (e ∷ log) s h = elim (Bool-cases (was_seen e.id s.seen)) [
  | inl seen ↦ rw seen (
      ap (λ t. total m k (apply_all log t).rows) (apply-seen e s seen)
      ∙ apply_all-total m k log s h)
  | inr new ↦
      let l = row_key e.movement e.at in
      let first = total-change m k l e.movement s.rows h in
      let here = row_key-belongs k e in
      rw new (
        ap (λ t. total m k (apply_all log t).rows) (apply-unseen e s new)
        ∙ apply_all-total m k log (applied e s) (change_row-HoldsInts l e.movement s.rows h)
        ∙ ground (arith, first, here))
]

is_selected-same :
    (q : ReportQuery) (k l : RowKey) → same_key k l ≡ true → is_selected q k ≡ is_selected q l
unfolding same_key is_selected
is_selected-same q k l h = ground (
  arith,
  h,
  eq_iff k.sku l.sku,
  eq_iff k.bin_id l.bin_id,
  eq_iff k.sku q.sku,
  eq_iff l.sku q.sku,
  eq_iff k.bin_id q.bin_id,
  eq_iff l.bin_id q.bin_id,
)

total-select :
    (m : Metric) (k : RowKey) (q : ReportQuery) (rows : List Row)
    → total m k (select (λ r. is_selected q r.key) rows)
      ≡ (if is_selected q k then total m k rows else 0)
total-select m k q [] = ground arith
total-select m k q (r ∷ rows) = elim (Bool-cases (same_key r.key k)) [
  | inl same ↦
      let e = is_selected-same q r.key k same in ground (arith, same, e, total-select m k q rows)
  | inr other ↦ ground (arith, other, total-select m k q rows)
]

-- What a report shows after a log of events.
shown :
    (q : ReportQuery) (m : Metric) (k : RowKey) (log : List Event)
    → total m k (query q (apply_all log new_memory_store))
      ≡ (if is_selected q k then sum_by (contribution m k) (first_of_each [] log) % modulus else 0)
unfolding query
shown q m k log =
    let e = apply_all-total m k log new_memory_store tt in
    let whole : total m k (apply_all log new_memory_store).rows
        ≡ sum_by (contribution m k) (first_of_each [] log) % modulus =
      omega (arith, e) in
    total-select m k q (apply_all log new_memory_store).rows
    ∙ ap (λ n. if is_selected q k then n else 0) whole

-- However often and in whatever order each event is delivered to the store, a report shows under a
-- column of a key which it selects the sum, modulo 2 ^ 64, of what the events of that key and hour
-- count, each event id once, with the event that came first under it; and nothing for a key that it
-- does not select. So two logs whose first deliveries are the same events in another order give
-- reports with the same numbers.
pub query-totals :
    (q : ReportQuery) (m : Metric) (k : RowKey) (log log' : List Event)
    → (total m k (query q (apply_all log new_memory_store)) ≡ (
        if is_selected q k then sum_by (contribution m k) (first_of_each [] log) % modulus else 0))
      × (Rearranged (first_of_each [] log) (first_of_each [] log')
          → total m k (query q (apply_all log new_memory_store))
            ≡ total m k (query q (apply_all log' new_memory_store)))
query-totals q m k log log' = (
  shown q m k log,
  λ r.
      shown q m k log
      ∙ ap (λ n. if is_selected q k then n % modulus else 0)
          (sum_by-Rearranged (contribution m k) _ _ r)
      ∙ sym (shown q m k log'),
)
