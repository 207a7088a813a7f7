-- ===== src/UseCases/Expiry.antt =====
-- internal/application/usecases/reservation_expiry.go: a timed-out reservation is resolved when it
-- is next read.
use inventory_storage.Prelude.{
  ℕ, Option, none, some, List, [], ◌∷◌, stock_unit_not_found, if◌then◌else◌,
}
use inventory_storage.Shared.Events.{reservation_expired}
use inventory_storage.Shared.Quantity.{Quantity}
use inventory_storage.Stock.{StockUnit, release_reservation}
use inventory_storage.Reservation.{Allocation, Reservation, is_active, is_expired, expire}
use inventory_storage.Store.World.{Env, Exec, pure, fail, lift, ◌>>=◌, ◌>>◌, now}
use inventory_storage.Store.Repos.{find_unit, save_unit, save_reservation, publish}
use inventory_storage.Store.UnitOfWork.{atomically}

module _ (env : Env) where
  unfoldable pub release_from : Quantity → Option StockUnit → Exec (Unit {0})
  release_from qty none = fail stock_unit_not_found
  release_from qty (some unit) = do u ← lift (release_reservation unit qty); save_unit env u

  unfoldable pub release_allocations : List Allocation → Exec (Unit {0})
  unfolding release_from
  release_allocations [] = pure tt
  release_allocations (alloc ∷ rest) = do
    unit ← find_unit env alloc.stock_unit_id
    release_from alloc.quantity unit
    release_allocations rest

  -- The body of the transaction in `expireIfDue`, at the time of the reading that found it due.
  unfoldable pub expire_at : ℕ → Reservation → Exec Reservation
  unfolding release_allocations
  expire_at t res = do
    release_allocations res.allocations
    r ← lift (expire res)
    save_reservation env r
    publish env (reservation_expired t r.id)
    pure r

  unfoldable pub expire_if_due : Reservation → Exec Reservation
  unfolding expire_at
  expire_if_due res =
      if is_active res.status
      then (do t ← now env; if is_expired res t then atomically env (expire_at t res) else pure res)
      else pure res

  unfoldable pub expire_all_if_due : List Reservation → Exec (List Reservation)
  unfolding expire_if_due
  expire_all_if_due [] = pure []
  expire_all_if_due (res ∷ rest) = do
    r ← expire_if_due res
    l ← expire_all_if_due rest
    pure (r ∷ l)
