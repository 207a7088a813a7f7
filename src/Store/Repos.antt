-- ===== src/Store/Repos.antt =====
-- internal/adapters/outbound/postgres: the repositories, and the publisher that appends to the
-- outbox. A row is the aggregate that it is read back as: the CHECK constraints of
-- migrations/0001_init.up.sql keep the quantities from being negative, so the constructors that
-- the scanners call accept them. An INTEGER column holds less than 2 ^ 31.
use Prim.Native.String.{◌++◌ as append}
use mathlib.Core.Option
use inventory_storage.Prelude.{
  ℕ, suc, String, Bool, ◌&&◌, Option, none, some, List, [], ◌∷◌, ◌++◌, Result, ok, err,
  infrastructure, concurrent_modification, select, ltb, ◌==◌, str_eq, if◌then◌else◌,
}
use inventory_storage.Shared.Events.{DomainEvent}
use inventory_storage.Stock.{StockUnit}
use inventory_storage.Location.{Bin}
use inventory_storage.Reservation.{Allocation, Reservation}
use inventory_storage.Product.Classification.{ProductClassification, rehydrate, handling_tags}
use inventory_storage.Store.Table.{find, upsert}
use inventory_storage.Store.World.{Env, Exec, pure, lift, gets, ◌>>=◌, ◌>>◌, modify, call, new_uuid}

abbrev pub max_integer : ℕ
max_integer = 2147483648

abbrev pub unit_key : StockUnit → String
unit_key u = u.id

abbrev pub bin_key : Bin → String
bin_key b = b.id

abbrev pub reservation_key : Reservation → String
reservation_key r = r.id

abbrev pub classification_key : ProductClassification → String
classification_key c = c.sku

-- A value that the columns refuse makes the statement fail.
unfoldable pub check_columns : Bool → Exec (Unit {0})
check_columns b w = (if b then ok tt else err infrastructure, w)

-- ON CONFLICT (id) DO UPDATE … WHERE version = $n affects no row of another version. The result is
-- the version that the row is written with.
unfoldable pub guarded_version : Option ℕ → ℕ → Result ℕ
guarded_version none mine = ok mine
guarded_version (some stored) mine =
    if stored == mine then ok (suc stored) else err concurrent_modification

abbrev pub stored_version : {A : Type 0} → (A → ℕ) → Option A → Option ℕ
stored_version f none = none
stored_version f (some a) = some (f a)

-- INSERT INTO reservation_allocations … ON CONFLICT: a known bin is not overwritten by none.
unfoldable pub upsert_allocation : Allocation → List Allocation → List Allocation
upsert_allocation a [] = a ∷ []
upsert_allocation a (b ∷ rows) =
    let rest = upsert_allocation a rows in
    if str_eq b.stock_unit_id a.stock_unit_id
    then (record a { bin_id = if str_eq a.bin_id "" then b.bin_id else a.bin_id }) ∷ rows
    else b ∷ rest

unfoldable pub upsert_allocations : List Allocation → List Allocation → List Allocation
unfolding upsert_allocation
upsert_allocations [] rows = rows
upsert_allocations (a ∷ rest) rows = upsert_allocations rest (upsert_allocation a rows)

-- The conflict clause of `reservations` updates the status and the version alone.
unfoldable pub written_reservation : Option Reservation → Reservation → ℕ → Reservation
unfolding upsert_allocations
written_reservation none r v = record r {
  version = v;
  allocations = upsert_allocations r.allocations [];
}
written_reservation (some old) r v = record old {
  status = r.status;
  version = v;
  allocations = upsert_allocations r.allocations old.allocations;
}

-- ORDER BY created_at ASC; rows of one instant come in the order of insertion.
unfoldable pub insert_by_time : Reservation → List Reservation → List Reservation
insert_by_time r [] = r ∷ []
insert_by_time r (s ∷ rows) =
    let rest = insert_by_time r rows in
    if ltb s.created_at r.created_at then s ∷ rest else r ∷ s ∷ rows

unfoldable pub by_created_at : List Reservation → List Reservation
unfolding insert_by_time
by_created_at [] = []
by_created_at (r ∷ rows) = insert_by_time r (by_created_at rows)

module _ (env : Env) where
  -- StockRepo
  unfoldable pub save_unit : StockUnit → Exec (Unit {0})
  unfolding call guarded_version
  save_unit u = do
    call env
    check_columns (ltb u.quantity max_integer && ltb u.reserved max_integer)
    old ← gets (λ w. find unit_key u.id w.db.units)
    v ← lift (guarded_version (stored_version (λ o. o.version) old) u.version)
    modify (λ db. record db { units = upsert unit_key (record u { version = v }) db.units })

  unfoldable pub find_unit : String → Exec (Option StockUnit)
  unfolding call
  find_unit id = do call env; gets (λ w. find unit_key id w.db.units)

  -- FindBySKU and FindByBin have no ORDER BY; here their rows come in the order of insertion.
  unfoldable pub find_units_by_sku : String → Exec (List StockUnit)
  unfolding call
  find_units_by_sku sku = do call env; gets (λ w. select (λ u. str_eq u.sku sku) w.db.units)

  unfoldable pub find_units_by_bin : String → Exec (List StockUnit)
  unfolding call
  find_units_by_bin bin = do call env; gets (λ w. select (λ u. str_eq u.bin_id bin) w.db.units)

  unfoldable pub next_unit_id : Exec String
  unfolding new_uuid
  next_unit_id = do id ← new_uuid env; pure (append "su-" id)

  -- LocationRepo
  unfoldable pub save_bin : Bin → Exec (Unit {0})
  unfolding call guarded_version
  save_bin b = do
    call env
    check_columns (ltb b.capacity max_integer && ltb b.occupied max_integer && ltb 0 b.capacity)
    old ← gets (λ w. find bin_key b.id w.db.bins)
    v ← lift (guarded_version (stored_version (λ o. o.version) old) b.version)
    modify (λ db. record db { bins = upsert bin_key (record b { version = v }) db.bins })

  unfoldable pub find_bin : String → Exec (Option Bin)
  unfolding call
  find_bin id = do call env; gets (λ w. find bin_key id w.db.bins)

  -- ReservationRepo. `beginOrJoin` begins and commits only where no transaction is bound to the
  -- context; the rows change when the last statement has succeeded, since a transaction in which a
  -- statement failed cannot commit.
  unfoldable pub begin_or_join : Exec (Unit {0})
  unfolding call
  begin_or_join w = if w.in_tx then (ok tt, w) else call env w

  unfoldable pub statements : List Allocation → Exec (Unit {0})
  unfolding call
  statements [] = pure tt
  statements (a ∷ rest) = do call env; check_columns (ltb a.quantity max_integer); statements rest

  unfoldable pub save_reservation : Reservation → Exec (Unit {0})
  unfolding begin_or_join call statements guarded_version written_reservation
  save_reservation r = do
    begin_or_join
    call env
    check_columns (ltb r.quantity max_integer)
    old ← gets (λ w. find reservation_key r.id w.db.reservations)
    v ← lift (guarded_version (stored_version (λ o. o.version) old) r.version)
    statements r.allocations
    begin_or_join
    modify (λ db. record db {
      reservations = upsert reservation_key (written_reservation old r v) db.reservations;
    })

  -- The allocations come in the order of their stock unit ids, by a statement of its own.
  abbrev pub loaded : Reservation → Reservation
  loaded r = record r { allocations = env.in_order r.allocations }

  unfoldable pub load_reservation : Option Reservation → Exec (Option Reservation)
  unfolding call
  load_reservation none = pure none
  load_reservation (some r) = do call env; pure (some (loaded r))

  unfoldable pub find_reservation : String → Exec (Option Reservation)
  unfolding call load_reservation
  find_reservation id = do
    call env
    row ← gets (λ w. find reservation_key id w.db.reservations)
    load_reservation row

  unfoldable pub load_reservations : List Reservation → Exec (List Reservation)
  unfolding call
  load_reservations [] = pure []
  load_reservations (r ∷ rest) = do call env; l ← load_reservations rest; pure (loaded r ∷ l)

  -- FindByDemandRef
  unfoldable pub find_by_demand_ref : String → Exec (List Reservation)
  unfolding call load_reservations by_created_at
  find_by_demand_ref demand_ref = do
    call env
    rows ← gets (λ w. select (λ r. str_eq r.demand_ref demand_ref) w.db.reservations)
    load_reservations (by_created_at rows)

  unfoldable pub next_reservation_id : Exec String
  unfolding new_uuid
  next_reservation_id = do id ← new_uuid env; pure (append "res-" id)

  -- ProductClassificationRepo
  unfoldable pub save_classification : ProductClassification → Exec (Unit {0})
  unfolding call handling_tags
  save_classification c = do
    call env
    modify (λ db. record db {
      classifications =
          upsert classification_key (record c { handling_tags = handling_tags c })
            db.classifications;
    })

  unfoldable pub find_classification : String → Exec (Option ProductClassification)
  unfolding call rehydrate
  find_classification sku = do
    call env
    row ← gets (λ w. find classification_key sku w.db.classifications)
    pure (
        Option.map (λ c. rehydrate c.sku c.handling_tags c.temperature_class c.dot_hazard_class)
          row)

  -- OutboxPublisher
  unfoldable pub publish : DomainEvent → Exec (Unit {0})
  unfolding call
  publish e = do call env; modify (λ db. record db { events = db.events ++ e ∷ [] })
