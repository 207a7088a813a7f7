-- ===== src/UseCases/ConfirmPick.antt =====
-- internal/application/usecases/confirm_pick.go.
use inventory_storage.Prelude.{
  String, Option, none, some, List, [], ◌∷◌, reservation_not_found, stock_unit_not_found,
  bin_not_found,
}
use inventory_storage.Shared.Events.{Time, stock_picked}
use inventory_storage.Shared.Quantity.{Quantity}
use inventory_storage.Stock.{StockUnit, pick}
use inventory_storage.Location.{Bin, release}
use inventory_storage.Reservation.{Allocation, Reservation, confirm}
use inventory_storage.Store.World.{Env, Exec, pure, fail, lift, ◌>>=◌, ◌>>◌, now}
use inventory_storage.Store.Repos.{
  find_unit, save_unit, find_bin, save_bin, find_reservation, save_reservation, publish,
}
use inventory_storage.Store.UnitOfWork.{atomically}
use inventory_storage.UseCases.Expiry.{expire_if_due}

module _ (env : Env) where
  unfoldable pub release_bin : Quantity → Option Bin → Exec (Unit {0})
  release_bin qty none = fail bin_not_found
  release_bin qty (some bin) = do b ← lift (release bin qty); save_bin env b

  unfoldable pub pick_unit : Quantity → Option StockUnit → Exec (Unit {0})
  unfolding release_bin
  pick_unit qty none = fail stock_unit_not_found
  pick_unit qty (some unit) = do
    u ← lift (pick unit qty)
    save_unit env u
    bin ← find_bin env unit.bin_id
    release_bin qty bin

  unfoldable pub pick_from_bin : String → Quantity → Exec (Unit {0})
  unfolding pick_unit
  pick_from_bin stock_unit_id qty = do unit ← find_unit env stock_unit_id; pick_unit qty unit

  unfoldable pub pick_all : List Allocation → Exec (Unit {0})
  unfolding pick_from_bin
  pick_all [] = pure tt
  pick_all (alloc ∷ rest) = do pick_from_bin alloc.stock_unit_id alloc.quantity; pick_all rest

  -- The transaction, on the reservation as it was confirmed in memory.
  unfoldable pub carry_out : Time → Reservation → Exec (Unit {0})
  unfolding pick_all
  carry_out t res = do
    pick_all res.allocations
    save_reservation env res
    publish env (stock_picked t res.id res.sku res.quantity)

  unfoldable pub confirm_found : Option Reservation → Exec (Unit {0})
  unfolding carry_out
  confirm_found none = fail reservation_not_found
  confirm_found (some found) = do
    res ← expire_if_due env found
    t ← now env
    res' ← lift (confirm res t)
    atomically env (carry_out t res')

  -- `Execute`
  unfoldable pub execute : String → Exec (Unit {0})
  unfolding confirm_found
  execute id = do found ← find_reservation env id; confirm_found found
