-- ===== src/UseCases/Revoke.antt =====
-- internal/application/usecases/revoke_reservation.go. The metrics counter is left out.
use inventory_storage.Prelude.{String, Option, none, some, reservation_not_found}
use inventory_storage.Shared.Events.{reservation_revoked}
use inventory_storage.Reservation.{Reservation, revoke}
use inventory_storage.Store.World.{Env, Exec, fail, lift, ◌>>=◌, ◌>>◌, now}
use inventory_storage.Store.Repos.{find_reservation, save_reservation, publish}
use inventory_storage.Store.UnitOfWork.{atomically}
use inventory_storage.UseCases.Expiry.{expire_if_due, release_allocations}

module _ (env : Env) where
  -- The transaction, on the reservation as it was revoked in memory.
  unfoldable pub give_back : Reservation → Exec (Unit {0})
  give_back res = do
    release_allocations env res.allocations
    save_reservation env res
    t ← now env
    publish env (reservation_revoked t res.id)

  unfoldable pub revoke_found : Option Reservation → Exec (Unit {0})
  unfolding give_back
  revoke_found none = fail reservation_not_found
  revoke_found (some found) = do
    res ← expire_if_due env found
    res' ← lift (revoke res)
    atomically env (give_back res')

  -- `Execute`
  unfoldable pub execute : String → Exec (Unit {0})
  unfolding revoke_found
  execute id = do found ← find_reservation env id; revoke_found found
