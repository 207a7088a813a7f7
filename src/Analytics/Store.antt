-- ===== src/Analytics/Store.antt =====
-- internal/adapters/outbound/analyticsstore/memory_store.go, with the rows and the query of
-- internal/analytics/report/flow_accuracy.go. The map of rows is a list of them, in the order in
-- which they came.
pub mod Columns
pub mod Totals
use inventory_storage.Prelude.{
  ℕ, ◌-◌, ◌%◌, String, Bool, true, false, not, ◌||◌, ◌&&◌, Option, none, some, List, [], ◌∷◌, ltb,
  ◌==◌, str_eq, select, if◌then◌else◌,
}
use inventory_storage.Shared.Int
use inventory_storage.Shared.Int.{Int64}
use inventory_storage.Shared.Events.{Time}

-- `RowKey`
pub record RowKey : Type 0 where
  pub sku : String
  pub bin_id : String
  pub hour_bucket : Time

-- `rowAcc`
pub record RowAcc : Type 0 where
  pub received_quantity : Int64
  pub stowed_count : Int64
  pub picked_quantity : Int64
  pub reservations_created : Int64
  pub reservations_expired : Int64
  pub reservations_revoked : Int64
  pub cycle_counts_completed : Int64
  pub discrepancies_detected : Int64
  pub unlocated_count : Int64

abbrev pub zero_acc : RowAcc
zero_acc = record {
  received_quantity = 0;
  stowed_count = 0;
  picked_quantity = 0;
  reservations_created = 0;
  reservations_expired = 0;
  reservations_revoked = 0;
  cycle_counts_completed = 0;
  discrepancies_detected = 0;
  unlocated_count = 0;
}

pub record Row : Type 0 where
  pub key : RowKey
  pub acc : RowAcc

-- `latest` is `none` where it is the zero time.
pub record MemoryStore : Type 0 where
  pub seen : List String
  pub rows : List Row
  pub latest : Option Time

abbrev pub new_memory_store : MemoryStore
new_memory_store = record { seen = []; rows = []; latest = none }

-- An hour in nanoseconds.
abbrev pub hour : ℕ
hour = 3600000000000

unfoldable pub hour_bucket : Time → Time
hour_bucket t = t - t % hour

-- Keys are equal as Go structs.
unfoldable pub same_key : RowKey → RowKey → Bool
same_key k l = str_eq k.sku l.sku && str_eq k.bin_id l.bin_id && k.hour_bucket == l.hour_bucket

unfoldable pub was_seen : String → List String → Bool
was_seen id [] = false
was_seen id (s ∷ seen) = str_eq s id || was_seen id seen

unfoldable pub later : Option Time → Time → Option Time
later none at = some at
later (some t) at = if ltb t at then some at else some t

-- `s.row(k)`, and the change of the row by its caller.
unfoldable pub change_row : RowKey → (RowAcc → RowAcc) → List Row → List Row
unfolding same_key
change_row k f [] = (record { key = k; acc = f zero_acc }) ∷ []
change_row k f (r ∷ rows) =
    let rest = change_row k f rows in
    if same_key r.key k then (record r { acc = f r.acc }) ∷ rows else r ∷ rest

-- `firstApply`, and what its caller does with a first event.
unfoldable pub apply_first : String → Time → RowKey → (RowAcc → RowAcc) → MemoryStore → MemoryStore
unfolding was_seen later change_row
apply_first id at k f s =
    if was_seen id s.seen
    then s
    else record { seen = id ∷ s.seen; rows = change_row k f s.rows; latest = later s.latest at }

-- The key of a row, with the hour of an event.
unfoldable pub key_at : String → String → Time → RowKey
unfolding hour_bucket
key_at sku bin_id at = record { sku = sku; bin_id = bin_id; hour_bucket = hour_bucket at }

-- A call of a method of `ProjectionStore`, after the event id and before the time.
pub data Movement : Type 0 where
  stock_received : String → Int64 → Movement
  item_stowed : String → String → Movement
  stock_picked : String → Int64 → Movement
  stock_reserved : String → Movement
  reservation_expired : String → Movement
  reservation_revoked : String → Movement
  cycle_count_completed : String → Movement
  discrepancy_detected : String → Movement
  item_unlocated : String → String → Movement

pub record Event : Type 0 where
  pub id : String
  pub at : Time
  pub movement : Movement

-- The key of the row that a movement counts on: an unused dimension is empty.
unfoldable pub row_key : Movement → Time → RowKey
unfolding key_at
row_key (stock_received sku qty) at = key_at sku "" at
row_key (item_stowed sku bin_id) at = key_at sku bin_id at
row_key (stock_picked sku qty) at = key_at sku "" at
row_key (stock_reserved sku) at = key_at sku "" at
row_key (reservation_expired sku) at = key_at sku "" at
row_key (reservation_revoked sku) at = key_at sku "" at
row_key (cycle_count_completed bin_id) at = key_at "" bin_id at
row_key (discrepancy_detected bin_id) at = key_at "" bin_id at
row_key (item_unlocated sku bin_id) at = key_at sku bin_id at

-- What a movement adds to its row.
unfoldable pub moved : Movement → RowAcc → RowAcc
moved (stock_received sku qty) r = record r { received_quantity = Int.add r.received_quantity qty }
moved (item_stowed sku bin_id) r = record r { stowed_count = Int.add r.stowed_count 1 }
moved (stock_picked sku qty) r = record r { picked_quantity = Int.add r.picked_quantity qty }
moved (stock_reserved sku) r = record r { reservations_created = Int.add r.reservations_created 1 }
moved (reservation_expired sku) r = record r {
  reservations_expired = Int.add r.reservations_expired 1;
}
moved (reservation_revoked sku) r = record r {
  reservations_revoked = Int.add r.reservations_revoked 1;
}
moved (cycle_count_completed bin_id) r = record r {
  cycle_counts_completed = Int.add r.cycle_counts_completed 1;
}
moved (discrepancy_detected bin_id) r = record r {
  discrepancies_detected = Int.add r.discrepancies_detected 1;
}
moved (item_unlocated sku bin_id) r = record r { unlocated_count = Int.add r.unlocated_count 1 }

-- `ApplyStockReceived` and the eight others.
unfoldable pub apply : Event → MemoryStore → MemoryStore
unfolding apply_first row_key moved
apply e s = apply_first e.id e.at (row_key e.movement e.at) (moved e.movement) s

-- `ReportQuery`
pub record ReportQuery : Type 0 where
  pub start : Time
  pub end_time : Time
  pub sku : String
  pub bin_id : String

unfoldable pub is_selected : ReportQuery → RowKey → Bool
is_selected q k =
    if ltb k.hour_bucket q.start || not (ltb k.hour_bucket q.end_time)
    then false
    else if not (str_eq q.sku "") && not (str_eq k.sku q.sku)
    then false
    else if not (str_eq q.bin_id "") && not (str_eq k.bin_id q.bin_id)
    then false
    else true

-- `Query`
unfoldable pub query : ReportQuery → MemoryStore → List Row
unfolding is_selected
query q s = select (λ r. is_selected q r.key) s.rows

-- `FreshnessLag`
unfoldable pub freshness_lag : Time → MemoryStore → Time
freshness_lag now s = elim s.latest [ none ↦ 0 | some t ↦ if ltb now t then 0 else now - t ]
