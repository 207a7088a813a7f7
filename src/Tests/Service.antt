-- ===== src/Tests/Service.antt =====
-- Runs of the store, and of the use cases that release or pick.
use inventory_storage.Prelude.{
  ◌+◌, ◌≡◌, ◌≢◌, ◌⊎◌, refl, true, false, List, [], ◌∷◌, All, ok, err, Error, infrastructure, sum_by,
  arith, str_eq,
}
use inventory_storage.Shared.Int
use inventory_storage.Shared.Events.{stock_received}
use inventory_storage.Shared.Quantity
use inventory_storage.Shared.Quantity.{greater_than, is_not_positive}
use inventory_storage.Stock
use inventory_storage.Stock.{StockUnit, usable, release_reservation, released_state}
use inventory_storage.Stock.Stage.{is_unlocated_or_removed, is_reserved}
use inventory_storage.Location.{release}
use inventory_storage.Reservation
use inventory_storage.Reservation.{Reservation, is_active, is_expired, revoke, confirm, expire}
use inventory_storage.Store.Table.{find, upsert}
use inventory_storage.Store.World.{
  World, Exec, pure, fail, lift, gets, modify, call, now, new_uuid, ◌>>=◌, ◌>>◌,
}
use inventory_storage.Store.Repos.{
  check_columns, guarded_version, find_reservation, load_reservation, find_unit, find_bin,
  find_units_by_sku, find_units_by_bin, find_by_demand_ref, load_reservations, by_created_at,
  find_classification, next_reservation_id, next_unit_id, save_unit, save_bin, save_reservation,
  publish, begin_or_join, statements, written_reservation,
}
use inventory_storage.Store.Keeps.{IsWellformed}
use inventory_storage.Store.UnitOfWork.{atomically, atomically-all_or_nothing}
use inventory_storage.Store.Versions.{save_unit-refuses_stale, save_reservation-refuses_stale}
use inventory_storage.UseCases.Expiry.{release_allocations, expire_if_due}
use inventory_storage.UseCases.Allocate.Draws.{allocated}
use inventory_storage.UseCases.Revoke
use inventory_storage.UseCases.ConfirmPick
use inventory_storage.UseCases.ConfirmPick.{pick_all}
use inventory_storage.Product.Classification
use inventory_storage.Product.Segregation.{incompatible}
use inventory_storage.UseCases.Stow.{check_occupants}
use inventory_storage.UseCases.Stow.Segregation.{IsApart, check_occupants-IsApart}
use inventory_storage.UseCases.Conservation.{
  reserved_in_all, stock_in_all, occupied_in_all, release_allocations_conserves, pick_all_conserves,
}
use inventory_storage.UseCases.Resolving.{Resolvable, revoke-gives_back}
use inventory_storage.UseCases.Picking.{confirm-picks, revoke_error-changes_nothing}
use inventory_storage.UseCases.Wellformed.{serve_all, IsAdmissible, serve_all-IsWellformed}
use inventory_storage.UseCases.Wellformed
use inventory_storage.Tests.Data.{
  env, env_failing_at, bolts, acid, shelf, claim, order, warehouse, start, after,
  warehouse-IsWellformed, env-IsOrdering,
}

abbrev requests : List Wellformed.Request
requests =
    Wellformed.reserve "BOLT" 3 "order-2"
    ∷ Wellformed.revoke "res-1"
    ∷ Wellformed.stow "BOLT" 4 "A-1"
    ∷ []

serve_all-IsWellformed_example : IsWellformed (serve_all env requests start).db
unfolding IsAdmissible
serve_all-IsWellformed_example =
    serve_all-IsWellformed env (env-IsOrdering 1000) requests start
      (omega arith, (tt, (omega arith, tt))) warehouse-IsWellformed

abbrev revoked : World
revoked = after (Revoke.execute env "res-1") start

abbrev confirmed : World
confirmed = after (ConfirmPick.execute env "res-1") start

revoke-gives_back_example :
    (res : Reservation) × Resolvable env "res-1" start res
    × (reserved_in_all revoked.db + sum_by allocated res.allocations ≡ 4)
    × (stock_in_all revoked.db ≡ 15)
    × (revoked.db.bins ≡ shelf ∷ [])
unfolding Revoke.execute expire_if_due ◌>>=◌ pure lift gets modify call now new_uuid check_columns
    guarded_version fail find_reservation load_reservation find_unit find_bin find_units_by_sku
    find_units_by_bin find_by_demand_ref load_reservations by_created_at find_classification
    next_reservation_id next_unit_id save_unit save_bin save_reservation publish begin_or_join
    statements written_reservation find upsert release_reservation Stock.pick Stock.reserve
    released_state is_reserved usable is_unlocated_or_removed greater_than is_not_positive revoke
    confirm expire is_active is_expired release atomically Quantity.add Quantity.sub Int.add Int.sub
    Int.less Int.less_eq
revoke-gives_back_example =
    revoke-gives_back env "res-1" start revoked (env-IsOrdering 1000) warehouse-IsWellformed refl

confirm-picks_example :
    (res : Reservation) × Resolvable env "res-1" start res
    × (reserved_in_all confirmed.db + sum_by allocated res.allocations ≡ 4)
    × (stock_in_all confirmed.db + sum_by allocated res.allocations ≡ 15)
    × (occupied_in_all confirmed.db + sum_by allocated res.allocations ≡ 10)
unfolding ConfirmPick.execute expire_if_due ◌>>=◌ pure lift gets modify call now new_uuid
    check_columns guarded_version fail find_reservation load_reservation find_unit find_bin
    find_units_by_sku find_units_by_bin find_by_demand_ref load_reservations by_created_at
    find_classification next_reservation_id next_unit_id save_unit save_bin save_reservation publish
    begin_or_join statements written_reservation find upsert release_reservation Stock.pick
    Stock.reserve released_state is_reserved usable is_unlocated_or_removed greater_than
    is_not_positive revoke confirm expire is_active is_expired release atomically Quantity.add
    Quantity.sub Int.add Int.sub Int.less Int.less_eq
confirm-picks_example =
    confirm-picks env "res-1" start confirmed (env-IsOrdering 1000) warehouse-IsWellformed refl

release_allocations_conserves_example :
    let w = after (release_allocations env (claim ∷ [])) start in
    (reserved_in_all w.db + 4 ≡ 4) × (stock_in_all w.db ≡ 15) × (w.db.bins ≡ shelf ∷ [])
unfolding release_allocations ◌>>=◌ pure lift gets modify call now new_uuid check_columns
    guarded_version fail find_reservation load_reservation find_unit find_bin find_units_by_sku
    find_units_by_bin find_by_demand_ref load_reservations by_created_at find_classification
    next_reservation_id next_unit_id save_unit save_bin save_reservation publish begin_or_join
    statements written_reservation find upsert release_reservation Stock.pick Stock.reserve
    released_state is_reserved usable is_unlocated_or_removed greater_than is_not_positive revoke
    confirm expire is_active is_expired release atomically Quantity.add Quantity.sub Int.add Int.sub
    Int.less Int.less_eq
release_allocations_conserves_example =
    release_allocations_conserves env (claim ∷ []) start
      (after (release_allocations env (claim ∷ [])) start) (omega arith, tt) warehouse-IsWellformed
      refl

pick_all_conserves_example :
    let w = after (pick_all env (claim ∷ [])) start in
    (reserved_in_all w.db + 4 ≡ 4) × (stock_in_all w.db + 4 ≡ 15) × (occupied_in_all w.db + 4 ≡ 10)
unfolding pick_all ◌>>=◌ pure lift gets modify call now new_uuid check_columns guarded_version fail
    find_reservation load_reservation find_unit find_bin find_units_by_sku find_units_by_bin
    find_by_demand_ref load_reservations by_created_at find_classification next_reservation_id
    next_unit_id save_unit save_bin save_reservation publish begin_or_join statements
    written_reservation find upsert release_reservation Stock.pick Stock.reserve released_state
    is_reserved usable is_unlocated_or_removed greater_than is_not_positive revoke confirm expire
    is_active is_expired release atomically Quantity.add Quantity.sub Int.add Int.sub Int.less
    Int.less_eq
pick_all_conserves_example =
    pick_all_conserves env (claim ∷ []) start (after (pick_all env (claim ∷ [])) start)
      (omega arith, tt) warehouse-IsWellformed refl

-- Two users who both read the order and the unit before either wrote.
abbrev picked_order : Reservation
picked_order = record order { status = Reservation.confirmed }

abbrev revoked_order : Reservation
revoked_order = record order { status = Reservation.revoked }

abbrev order_saved : World
order_saved = after (save_reservation env picked_order) start

save_reservation-refuses_stale_example :
    save_reservation env revoked_order order_saved ≢ (ok tt, start)
unfolding ◌>>=◌ pure lift gets modify call now new_uuid check_columns guarded_version fail
    find_reservation load_reservation find_unit find_bin find_units_by_sku find_units_by_bin
    find_by_demand_ref load_reservations by_created_at find_classification next_reservation_id
    next_unit_id save_unit save_bin save_reservation publish begin_or_join statements
    written_reservation find upsert release_reservation Stock.pick Stock.reserve released_state
    is_reserved usable is_unlocated_or_removed greater_than is_not_positive revoke confirm expire
    is_active is_expired release atomically Quantity.add Quantity.sub Int.add Int.sub Int.less
    Int.less_eq
save_reservation-refuses_stale_example =
    save_reservation-refuses_stale env picked_order revoked_order start order_saved order_saved
      start refl refl refl refl refl

save_unit-refuses_stale_example :
    save_unit env bolts (after (save_unit env bolts) start) ≢ (ok tt, start)
unfolding ◌>>=◌ pure lift gets modify call now new_uuid check_columns guarded_version fail
    find_reservation load_reservation find_unit find_bin find_units_by_sku find_units_by_bin
    find_by_demand_ref load_reservations by_created_at find_classification next_reservation_id
    next_unit_id save_unit save_bin save_reservation publish begin_or_join statements
    written_reservation find upsert release_reservation Stock.pick Stock.reserve released_state
    is_reserved usable is_unlocated_or_removed greater_than is_not_positive revoke confirm expire
    is_active is_expired release atomically Quantity.add Quantity.sub Int.add Int.sub Int.less
    Int.less_eq
save_unit-refuses_stale_example =
    save_unit-refuses_stale env bolts bolts start (after (save_unit env bolts) start)
      (after (save_unit env bolts) start) start refl refl refl refl refl

check_occupants-IsApart_example :
    All (λ u. (str_eq u.sku "FUEL" ≡ true) ⊎ IsApart warehouse 3 u.sku) (acid ∷ [])
    × ((after (check_occupants env "FUEL" 3 [] (acid ∷ [])) start).db ≡ warehouse)
unfolding check_occupants Classification.rehydrate incompatible ◌>>=◌ pure lift gets modify call now
    new_uuid check_columns guarded_version fail find_reservation load_reservation find_unit find_bin
    find_units_by_sku find_units_by_bin find_by_demand_ref load_reservations by_created_at
    find_classification next_reservation_id next_unit_id save_unit save_bin save_reservation publish
    begin_or_join statements written_reservation find upsert release_reservation Stock.pick
    Stock.reserve released_state is_reserved usable is_unlocated_or_removed greater_than
    is_not_positive revoke confirm expire is_active is_expired release atomically Quantity.add
    Quantity.sub Int.add Int.sub Int.less Int.less_eq
check_occupants-IsApart_example =
    check_occupants-IsApart env "FUEL" 3 [] (acid ∷ []) start
      (after (check_occupants env "FUEL" 3 [] (acid ∷ [])) start) tt refl

abbrev give_twice : Exec (Unit {0})
give_twice =
    publish (env_failing_at 2) (stock_received 1 "BOLT" 5)
    >> publish (env_failing_at 2) (stock_received 2 "BOLT" 5)

atomically-all_or_nothing_example :
    let r = atomically (env_failing_at 2) give_twice start in
    let body = give_twice (record start { in_tx = true; calls = 1 }) in
    (r.1.in_tx ≡ false)
    × ((e : Error) → r.0 ≡ err e → r.1.db ≡ warehouse)
    × ((a : Unit {0}) → r.0 ≡ ok a → (body.0 ≡ ok a) × (r.1.db ≡ body.1.db))
atomically-all_or_nothing_example =
    atomically-all_or_nothing (env_failing_at 2) give_twice start refl refl

revoke_error-changes_nothing_example :
    (after (Revoke.execute (env_failing_at 4) "res-1") start).db ≡ warehouse
unfolding Revoke.execute expire_if_due ◌>>=◌ pure lift gets modify call now new_uuid check_columns
    guarded_version fail find_reservation load_reservation find_unit find_bin find_units_by_sku
    find_units_by_bin find_by_demand_ref load_reservations by_created_at find_classification
    next_reservation_id next_unit_id save_unit save_bin save_reservation publish begin_or_join
    statements written_reservation find upsert release_reservation Stock.pick Stock.reserve
    released_state is_reserved usable is_unlocated_or_removed greater_than is_not_positive revoke
    confirm expire is_active is_expired release atomically Quantity.add Quantity.sub Int.add Int.sub
    Int.less Int.less_eq
revoke_error-changes_nothing_example =
    revoke_error-changes_nothing (env_failing_at 4) "res-1" start
      (after (Revoke.execute (env_failing_at 4) "res-1") start) {x = infrastructure} refl refl refl
      (λ h. cc)
