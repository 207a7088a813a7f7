-- ===== src/UseCases/Picking.antt =====
-- What confirming a pick does to the stock (confirm_pick.go), and what a resolution that fails
-- leaves behind (confirm_pick.go and revoke_reservation.go).
use mathlib.Core.Path.{subst}
use inventory_storage.Prelude.{
  ◌+◌, ◌≡◌, ◌≢◌, ap, sym, ◌∙◌, true, false, inl, inr, String, All, sum_by, sum_by-Rearranged, ok,
  err, Error, already_resolved, arith, Option-cases, Bool-cases,
}
use inventory_storage.Shared.Events.{Time}
use inventory_storage.Reservation.{Reservation, is_active, is_expired, revoke, confirm}
use inventory_storage.Store.Table.{All-find}
use inventory_storage.Store.World.{Env, World, pure, fail, lift, now, tick, ◌>>=◌}
use inventory_storage.Store.Repos.{reservation_key, loaded, find_reservation, save_reservation}
use inventory_storage.Store.Keeps.{IsWellformed, IsOrdering, IsDrawable}
use inventory_storage.Store.Keeps.{IsCounted}
use inventory_storage.Store.Keeps.Rows.{loaded-IsDrawable}
use inventory_storage.Store.UnitOfWork.{atomically}
use inventory_storage.Store.Runs.{
  run-bind, run-bind_err, run-lift, run-find_reservation, run-save_reservation, run-publish,
  run-atomically, run-atomically_err,
}
use inventory_storage.UseCases.Expiry.{expire_if_due, expire_at}
use inventory_storage.UseCases.Revoke
use inventory_storage.UseCases.ConfirmPick
use inventory_storage.UseCases.ConfirmPick.{pick_all}
use inventory_storage.UseCases.Allocate.Draws.{allocated}
use inventory_storage.UseCases.Settled.{expire_if_due-live}
use inventory_storage.UseCases.Resolving.{Resolvable, run-now, found-lem}
use inventory_storage.UseCases.Conservation.{
  reserved_in_all, stock_in_all, occupied_in_all, pick_all_conserves,
}

revoke_err :
    (s : Reservation) (w w' : World) {x : Error}
    → lift (revoke s) w ≡ (err x, w')
    → x ≡ already_resolved
unfolding revoke lift
revoke_err s w w' h = ground arith

module _ (env : Env) where
  carry_out-lem :
      (t : Time) (res : Reservation) (w w' : World)
      → IsDrawable res
      → IsWellformed w.db
      → ConfirmPick.carry_out env t res w ≡ (ok tt, w')
      → (reserved_in_all w'.db + sum_by allocated res.allocations ≡ reserved_in_all w.db)
        × (stock_in_all w'.db + sum_by allocated res.allocations ≡ stock_in_all w.db)
        × (occupied_in_all w'.db + sum_by allocated res.allocations ≡ occupied_in_all w.db)
  unfolding ConfirmPick.carry_out
  carry_out-lem t res w w' d v h =
      let (_, w1, e1, k1) = run-bind (pick_all env res.allocations) _ w h in
      let (r, s, b) = pick_all_conserves env res.allocations w w1 d v e1 in
      let (_, w2, e2, k2) = run-bind (save_reservation env res) _ w1 k1 in
      let (n, g, saved) = run-save_reservation env res w1 e2 in
      let (u3, b3, r3) = run-publish env _ w2 k2 in
      let us : w'.db.units ≡ w1.db.units = u3 ∙ ap (λ d. d.units) saved in
      let bs : w'.db.bins ≡ w1.db.bins = b3 ∙ ap (λ d. d.bins) saved in
      (
        omega (arith, r, ap (sum_by λ u. u.reserved) us),
        omega (arith, s, ap (sum_by λ u. u.quantity) us),
        omega (arith, b, ap (sum_by λ b. b.occupied) bs),
      )

  -- Confirming a pick, when it succeeds in a well-formed database whose order of rows is an order:
  -- the reservation was there, active and not past its timeout, and exactly the quantities of its
  -- allocations have left what is reserved, the quantity at hand, and the bins.
  pub confirm-picks :
      (id : String) (w w' : World)
      → IsOrdering env
      → IsWellformed w.db
      → ConfirmPick.execute env id w ≡ (ok tt, w')
      → (res : Reservation) × Resolvable env id w res
        × (reserved_in_all w'.db + sum_by allocated res.allocations ≡ reserved_in_all w.db)
        × (stock_in_all w'.db + sum_by allocated res.allocations ≡ stock_in_all w.db)
        × (occupied_in_all w'.db + sum_by allocated res.allocations ≡ occupied_in_all w.db)
  unfolding ConfirmPick.execute ConfirmPick.confirm_found fail confirm
  confirm-picks id w w' ordering v h =
      let (o, w1, e1, k1) = run-bind (find_reservation env id) _ w h in
      elim (Option-cases o) [
        | inl missing ↦
            let k1' = subst (λ o. ConfirmPick.confirm_found env o w1 ≡ (ok tt, w')) missing k1 in cc
        | inr (found, is_some) ↦
            let k1' = subst (λ o. ConfirmPick.confirm_found env o w1 ≡ (ok tt, w')) is_some k1 in
            let (s, w2, e2, k2) = run-bind (expire_if_due env found) _ w1 k1' in
            let (t, w3, e3, k3) = run-bind (now env) _ w2 k2 in
            let (r, w4, e4, k4) = run-bind (lift (confirm s t)) _ w3 k3 in
            let (done, here) = run-lift (confirm s t) w3 e4 in
            let live : is_active s.status ≡ true = ground (arith, done) in
            let (res, resolvable, same, from) = found-lem env id w e1 found s w2 is_some e2 live in
            let d : IsDrawable (loaded env res) = loaded-IsDrawable env ordering res (
              All-find reservation_key IsDrawable id w.db.reservations v.reservations
                resolvable.0) in
            let allocs : r.allocations ≡ (loaded env res).allocations =
              ground (arith, done) ∙ ap (λ r. r.allocations) same in
            let (b, b', e5, start, end) =
              run-atomically env (ConfirmPick.carry_out env t r) w4 k4 in
            let db : b.db ≡ w.db = start ∙ ap (λ x. x.db) here ∙ (run-now env w2 e3).1 ∙ from in
            let (x, y, z) =
              carry_out-lem t r b b' (subst (All IsCounted) (sym allocs) d)
                (subst IsWellformed (sym db) v) e5 in
            let total : sum_by allocated r.allocations ≡ sum_by allocated res.allocations =
              ap (sum_by allocated) allocs
              ∙ sum_by-Rearranged allocated (env.in_order res.allocations) res.allocations
                  (ordering res.allocations) in
            (
              res,
              resolvable,
              omega (arith, x, total, ap reserved_in_all db, ap reserved_in_all end),
              omega (arith, y, total, ap stock_in_all db, ap stock_in_all end),
              omega (arith, z, total, ap occupied_in_all db, ap occupied_in_all end),
            )
      ]

  -- `expireIfDue` that fails has committed nothing.
  expire_if_due_err :
      (res : Reservation) (w w' : World) {x : Error}
      → env.transactional ≡ true
      → w.in_tx ≡ false
      → expire_if_due env res w ≡ (err x, w')
      → w'.db ≡ w.db
  unfolding expire_if_due now pure ◌>>=◌
  expire_if_due_err res w w' {x} wired top h = elim (Bool-cases (is_active res.status)) [
    | inr resolved ↦ ground (arith, resolved)
    | inl live ↦ elim (Bool-cases (is_expired res (env.clock w.calls))) [
      | inr early ↦ ground (arith, live, early)
      | inl due ↦
          let t = env.clock w.calls in
          let run : atomically env (expire_at env t res) (tick w) ≡ (err x, w') =
            ground (arith, live, due) in
          run-atomically_err env (expire_at env t res) (tick w) wired top run
    ]
  ]

  -- With a unit of work and outside a transaction, a revocation that fails has left every table as
  -- it was, unless it fails because the reservation is already resolved (as it is once the timeout
  -- that it finds has been recorded).
  pub revoke_error-changes_nothing :
      (id : String) (w w' : World) {x : Error}
      → env.transactional ≡ true
      → w.in_tx ≡ false
      → Revoke.execute env id w ≡ (err x, w')
      → x ≢ already_resolved
      → w'.db ≡ w.db
  unfolding Revoke.execute Revoke.revoke_found revoke fail
  revoke_error-changes_nothing id w w' {x} wired top h other =
      elim (run-bind_err (find_reservation env id) _ w h) [
        | inl e ↦ (run-find_reservation env id w e).0
        | inr (o, w1, e1, k1) ↦
            let (here, tx0, what) = run-find_reservation env id w e1 in
            let top1 : w1.in_tx ≡ false = tx0 ∙ top in
            elim (Option-cases o) [
              | inl missing ↦
                  let k1' = subst (λ o. Revoke.revoke_found env o w1 ≡ (err x, w')) missing k1 in
                  ap (λ p. p.1.db) (sym k1') ∙ here
              | inr (found, is_some) ↦
                  let k1' = subst (λ o. Revoke.revoke_found env o w1 ≡ (err x, w')) is_some k1 in
                  elim (run-bind_err (expire_if_due env found) _ w1 k1') [
                    | inl e2 ↦ expire_if_due_err found w1 w' wired top1 e2 ∙ here
                    | inr (s, w2, e2, k2) ↦ elim (run-bind_err (lift (revoke s)) _ w2 k2) [
                      | inl bad ↦ elim (other (revoke_err s w2 w' bad)) [ ]
                      | inr (r, w3, e3, k3) ↦
                          let (done, now_here) = run-lift (revoke s) w2 e3 in
                          let (same, active, fresh, there, tx) =
                            expire_if_due-live env found s w1 w2 e2 (ground (arith, done)) in
                          let top3 : w3.in_tx ≡ false = ap (λ x. x.in_tx) now_here ∙ tx ∙ top1 in
                          run-atomically_err env (Revoke.give_back env r) w3 wired top3 k3
                          ∙ ap (λ x. x.db) now_here
                          ∙ there
                          ∙ here
                    ]
                  ]
            ]
      ]
