-- ===== src/UseCases/Reserve.antt =====
-- internal/application/usecases/reserve_stock.go. The metrics counter is left out: it changes no
-- state that the service reads.
pub mod Saved
pub mod Results
pub mod Failures
use inventory_storage.Prelude.{
  String, Bool, ◌&&◌, Option, none, some, List, [], ◌∷◌, zero_quantity, str_eq, ◌==◌, if◌then◌else◌,
}
use inventory_storage.Shared.Events.{Time, stock_reserved}
use inventory_storage.Shared.Quantity.{Quantity, is_not_positive}
use inventory_storage.Stock.{StockUnit}
use inventory_storage.Reservation
use inventory_storage.Reservation.{Reservation, is_active}
use inventory_storage.Store.World.{Env, Exec, pure, fail, lift, ◌>>=◌, ◌>>◌, now}
use inventory_storage.Store.Repos.{
  find_units_by_sku, save_unit, find_by_demand_ref, next_reservation_id, save_reservation, publish,
}
use inventory_storage.Store.UnitOfWork.{atomically}
use inventory_storage.UseCases.Expiry.{expire_all_if_due}
use inventory_storage.UseCases.Allocate.{Drawn, allocate}

-- `isReplayOf`
unfoldable pub is_replay_of : Reservation → String → Quantity → Bool
is_replay_of res sku qty = str_eq res.sku sku && res.quantity == qty

-- The loop of `activeReservationFor`.
unfoldable pub first_replay : String → Quantity → List Reservation → Option Reservation
unfolding is_replay_of is_active
first_replay sku qty [] = none
first_replay sku qty (res ∷ rest) =
    let later = first_replay sku qty rest in
    if is_active res.status && is_replay_of res sku qty then some res else later

module _ (env : Env) where
  unfoldable pub active_reservation_for : String → String → Quantity → Exec (Option Reservation)
  unfolding first_replay
  active_reservation_for demand_ref sku qty = do
    found ← find_by_demand_ref env demand_ref
    existing ← expire_all_if_due env found
    pure (first_replay sku qty existing)

  -- The loop that saves the touched units; it stands outside the transaction.
  unfoldable pub save_all : List StockUnit → Exec (Unit {0})
  save_all [] = pure tt
  save_all (unit ∷ units) = do save_unit env unit; save_all units

  -- What stands inside it.
  unfoldable pub record_reservation : Time → Reservation → Exec Reservation
  record_reservation t res = do
    save_reservation env res
    publish env (stock_reserved t res.id res.sku res.quantity res.demand_ref)
    pure res

  unfoldable pub reserve_new : String → Quantity → String → Exec Reservation
  unfolding save_all record_reservation
  reserve_new sku qty demand_ref = do
    units ← find_units_by_sku env sku
    drawn ← lift (allocate units qty)
    save_all drawn.touched
    id ← next_reservation_id env
    t ← now env
    res ← lift (Reservation.new id sku qty demand_ref drawn.allocations t env.timeout)
    atomically env (record_reservation t res)

  unfoldable pub replay_or_new : String → Quantity → String → Option Reservation → Exec Reservation
  unfolding reserve_new
  replay_or_new sku qty demand_ref (some res) = pure res
  replay_or_new sku qty demand_ref none = reserve_new sku qty demand_ref

  -- `Execute`; its default for a timeout that is not positive is in `env.timeout`.
  unfoldable pub execute : String → Quantity → String → Exec Reservation
  unfolding active_reservation_for replay_or_new
  execute sku qty demand_ref = if is_not_positive qty then fail zero_quantity else (do
    found ← active_reservation_for demand_ref sku qty
    replay_or_new sku qty demand_ref found)
