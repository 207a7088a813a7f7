-- ===== src/Tests/Requests.antt =====
-- Runs of the use cases that reserve, count and register, of the queries, and of the relay.
use inventory_storage.Prelude.{
  ℕ, ◌≡◌, ◌⊎◌, ◌<◌, ◌≤◌, ◌==◌, ◌++◌, ◌||◌, refl, true, false, List, [], ◌∷◌, infrastructure, sum_by,
  arith,
}
use inventory_storage.Shared.Int
use inventory_storage.Shared.Quantity
use inventory_storage.Shared.Quantity.{greater_than, is_not_positive}
use inventory_storage.Stock
use inventory_storage.Stock.{StockUnit, usable, release_reservation, released_state}
use inventory_storage.Stock.Stage.{is_unlocated_or_removed, is_reserved}
use inventory_storage.Location.{release}
use inventory_storage.Reservation
use inventory_storage.Reservation.{Reservation, is_active, is_expired, revoke, confirm, expire}
use inventory_storage.Store.Table.{find, upsert, IsKeyed}
use inventory_storage.Store.World.{
  Env, World, pure, fail, lift, gets, modify, call, now, new_uuid, ◌>>=◌,
}
use inventory_storage.Store.Repos.{
  unit_key, check_columns, guarded_version, find_reservation, load_reservation, find_unit, find_bin,
  find_units_by_sku, find_units_by_bin, find_by_demand_ref, load_reservations, by_created_at,
  find_classification, next_reservation_id, next_unit_id, save_unit, save_bin, save_reservation,
  publish, begin_or_join, statements, written_reservation,
}
use inventory_storage.Store.Relay.{OutboxRow, Outside, claim_batch, relay_once}
use inventory_storage.Store.Relay.Order.{numbers, has_published, among, relay_once-in_order}
use inventory_storage.Store.UnitOfWork.{atomically}
use inventory_storage.UseCases.Expiry.{expire_if_due, expire_all_if_due}
use inventory_storage.UseCases.Reserve
use inventory_storage.UseCases.Reserve.{save_all, record_reservation, reserve_new}
use inventory_storage.UseCases.Reserve.Results.{IsClaim, reserve-IsClaim}
use inventory_storage.UseCases.Reserve.Failures.{
  draw_and_save, reserve_failure-leaves_stock_reserved,
}
use inventory_storage.UseCases.Conservation.{reserved_in_all, stock_in_all}
use inventory_storage.UseCases.Allocate.{allocate}
use inventory_storage.UseCases.CycleCount.{mark_shortfall_unlocated}
use inventory_storage.UseCases.CycleCount.Shortfall.{declared_lost, mark_shortfall_conserves}
use inventory_storage.UseCases.RegisterBin
use inventory_storage.UseCases.RegisterBin.{bin_created, bin_unchanged}
use inventory_storage.UseCases.RegisterBin.Convergence.{HasCapacity, register-idempotent}
use inventory_storage.UseCases.Settled.Due.{Expires, expire_if_due-Expires}
use inventory_storage.Store.Keeps.{IsWellformed}
use inventory_storage.Tests.Data.{
  env, env_failing_at, bolts, shelf, order, warehouse, start, bolts-IsValid, warehouse-IsWellformed,
  after,
}

-- The order, with a timeout that has passed.
abbrev late_order : Reservation
late_order = record order { expires_at = 90 }

abbrev late : World
late = record start { db = record warehouse { reservations = late_order ∷ [] } }

abbrev expired_order : Reservation
expired_order = record late_order { status = Reservation.expired }

late-IsWellformed : IsWellformed late.db
late-IsWellformed = record {
  units = warehouse-IsWellformed.units;
  bins = warehouse-IsWellformed.bins;
  reservations = ((omega arith, tt), tt);
}

expire_if_due-Expires_example :
    let end = after (expire_if_due env late_order) late in
    ((late_order.status ≡ Reservation.active)
      × (90 < 100)
      × (expired_order ≡ expired_order)
      × Expires env 100 late_order late.db end.db)
    ⊎ (((is_active late_order.status ≡ false) ⊎ (100 ≤ 90))
        × (expired_order ≡ late_order)
        × (end.db ≡ late.db))
unfolding expire_if_due ◌>>=◌ pure lift gets modify call now new_uuid check_columns guarded_version
    fail find_reservation load_reservation find_unit find_bin find_units_by_sku find_units_by_bin
    find_by_demand_ref load_reservations by_created_at find_classification next_reservation_id
    next_unit_id save_unit save_bin save_reservation publish begin_or_join statements
    written_reservation find upsert release_reservation Stock.pick Stock.reserve released_state
    is_reserved usable is_unlocated_or_removed greater_than is_not_positive revoke confirm expire
    is_active is_expired release atomically Quantity.add Quantity.sub Int.add Int.sub Int.less
    Int.less_eq
expire_if_due-Expires_example =
    expire_if_due-Expires env late_order expired_order late
      (after (expire_if_due env late_order) late) (omega arith, tt) late-IsWellformed refl

reserve-IsClaim_example : IsClaim "BOLT" 4 order × (is_not_positive 4 ≡ false)
unfolding Reserve.execute expire_all_if_due ◌>>=◌ pure lift gets modify call now new_uuid
    check_columns guarded_version fail find_reservation load_reservation find_unit find_bin
    find_units_by_sku find_units_by_bin find_by_demand_ref load_reservations by_created_at
    find_classification next_reservation_id next_unit_id save_unit save_bin save_reservation publish
    begin_or_join statements written_reservation find upsert release_reservation Stock.pick
    Stock.reserve released_state is_reserved usable is_unlocated_or_removed greater_than
    is_not_positive revoke confirm expire is_active is_expired release atomically Quantity.add
    Quantity.sub Int.add Int.sub Int.less Int.less_eq
reserve-IsClaim_example =
    reserve-IsClaim env "BOLT" 4 "order-1" order start
      (after (Reserve.execute env "BOLT" 4 "order-1") start) refl

-- A server that refuses the BEGIN of the reservation's transaction.
abbrev failing : Env
failing = env_failing_at 4

abbrev reserved_bolts : World
reserved_bolts = after (draw_and_save failing "BOLT" 3) start

abbrev refused : World
refused = after (reserve_new failing "BOLT" 3 "order-2") start

warehouse-IsKeyed : IsKeyed unit_key warehouse.units
warehouse-IsKeyed = ((refl, tt), (tt, tt))

reserve_failure-leaves_stock_reserved_example :
    (reserved_in_all refused.db ≡ 7)
    × (stock_in_all refused.db ≡ 15)
    × (refused.db.bins ≡ shelf ∷ [])
    × (refused.db.reservations ≡ order ∷ [])
unfolding reserve_new save_all record_reservation allocate Reservation.new ◌>>=◌ pure lift gets
    modify call now new_uuid check_columns guarded_version fail find_reservation load_reservation
    find_unit find_bin find_units_by_sku find_units_by_bin find_by_demand_ref load_reservations
    by_created_at find_classification next_reservation_id next_unit_id save_unit save_bin
    save_reservation publish begin_or_join statements written_reservation find upsert
    release_reservation Stock.pick Stock.reserve released_state is_reserved usable
    is_unlocated_or_removed greater_than is_not_positive revoke confirm expire is_active is_expired
    release atomically Quantity.add Quantity.sub Int.add Int.sub Int.less Int.less_eq
reserve_failure-leaves_stock_reserved_example =
    reserve_failure-leaves_stock_reserved failing "BOLT" 3 "order-2" start reserved_bolts refused
      {x = infrastructure} refl refl warehouse-IsWellformed warehouse-IsKeyed (omega arith)
      (omega arith) refl refl

mark_shortfall_conserves_example :
    sum_by declared_lost
      (after (mark_shortfall_unlocated env "A-1" (bolts ∷ []) 3 100) start).db.events
    ≡ 3
unfolding mark_shortfall_unlocated ◌>>=◌ pure lift gets modify call now new_uuid check_columns
    guarded_version fail find_reservation load_reservation find_unit find_bin find_units_by_sku
    find_units_by_bin find_by_demand_ref load_reservations by_created_at find_classification
    next_reservation_id next_unit_id save_unit save_bin save_reservation publish begin_or_join
    statements written_reservation find upsert release_reservation Stock.pick Stock.reserve
    released_state is_reserved usable is_unlocated_or_removed greater_than is_not_positive revoke
    confirm expire is_active is_expired release atomically Quantity.add Quantity.sub Int.add Int.sub
    Int.less Int.less_eq
mark_shortfall_conserves_example =
    mark_shortfall_conserves env "A-1" (bolts ∷ []) 3 100 start
      (after (mark_shortfall_unlocated env "A-1" (bolts ∷ []) 3 100) start) (bolts-IsValid, tt)
      (omega arith) (omega arith) refl

abbrev registered : World
registered = after (RegisterBin.execute env "A-1" 20) start

register-idempotent_example :
    HasCapacity registered "A-1" 20
    × (HasCapacity start "A-1" 20 → (bin_unchanged ≡ bin_unchanged) × (registered.db ≡ warehouse))
unfolding RegisterBin.execute ◌>>=◌ pure lift gets modify call now new_uuid check_columns
    guarded_version fail find_reservation load_reservation find_unit find_bin find_units_by_sku
    find_units_by_bin find_by_demand_ref load_reservations by_created_at find_classification
    next_reservation_id next_unit_id save_unit save_bin save_reservation publish begin_or_join
    statements written_reservation find upsert release_reservation Stock.pick Stock.reserve
    released_state is_reserved usable is_unlocated_or_removed greater_than is_not_positive revoke
    confirm expire is_active is_expired release atomically Quantity.add Quantity.sub Int.add Int.sub
    Int.less Int.less_eq
register-idempotent_example =
    register-idempotent env "A-1" 20 start registered {b = shelf} {o = bin_unchanged} refl

-- An outbox of three rows, of which the sink takes the first alone.
abbrev outbox : List OutboxRow
outbox =
    (record { id = 1; published = false; attempts = 0 })
    ∷ (record { id = 2; published = false; attempts = 1 })
    ∷ (record { id = 3; published = false; attempts = 0 })
    ∷ []

abbrev flaky : Outside
flaky = record {
  accepts = λ n. n == 1;
  refuses_update = λ n. false;
  refuses_begin = false;
  refuses_query = false;
  refuses_commit = false;
}

relay_once-in_order_example :
    ((rest : List ℕ) × (numbers (claim_batch 10 0 outbox)
        ≡ (relay_once flaky 10 0 outbox).sent ++ rest))
    × ((n : ℕ)
        → has_published n (relay_once flaky 10 0 outbox).rows ≡ true
        → (has_published n outbox || among n (relay_once flaky 10 0 outbox).sent) ≡ true)
relay_once-in_order_example = relay_once-in_order flaky 10 0 outbox
