-- ===== src/UseCases/Resolving.antt =====
-- What revoking and confirming a reservation do to the stock: revoke_reservation.go and
-- confirm_pick.go.
use mathlib.Core.Path.{subst}
use mathlib.Core.Option
use inventory_storage.Prelude.{
  ◌+◌, ◌≡◌, refl, ap, sym, ◌∙◌, true, false, inl, inr, String, Option, none, some, All, sum_by,
  sum_by-Rearranged, ok, arith, Option-cases,
}
use inventory_storage.Shared.Events.{Time}
use inventory_storage.Reservation.{Reservation, is_active, is_expired, revoke}
use inventory_storage.Store.Table.{find, All-find}
use inventory_storage.Store.World.{Env, World, fail, lift, now}
use inventory_storage.Store.Repos.{reservation_key, loaded, find_reservation, save_reservation}
use inventory_storage.Store.Keeps.{IsWellformed, IsOrdering, IsDrawable}
use inventory_storage.Store.Keeps.{IsCounted}
use inventory_storage.Store.Keeps.Rows.{loaded-IsDrawable}
use inventory_storage.Store.Runs.{
  run-bind, run-lift, run-find_reservation, run-save_reservation, run-publish, run-atomically,
}
use inventory_storage.UseCases.Expiry.{release_allocations, expire_if_due}
use inventory_storage.UseCases.Revoke
use inventory_storage.UseCases.Allocate.Draws.{allocated}
use inventory_storage.UseCases.Settled.{expire_if_due-live}
use inventory_storage.UseCases.Conservation.{
  reserved_in_all, stock_in_all, release_allocations_conserves,
}

module _ (env : Env) where
  pub run-now :
      (w : World) {t : Time} {w' : World}
      → now env w ≡ (ok t, w')
      → (t ≡ env.clock w.calls) × (w'.db ≡ w.db) × (w'.in_tx ≡ w.in_tx)
  unfolding now
  run-now w h = (ground arith, ground arith, ground arith)

  give_back-lem :
      (res : Reservation) (w w' : World)
      → IsDrawable res
      → IsWellformed w.db
      → Revoke.give_back env res w ≡ (ok tt, w')
      → (reserved_in_all w'.db + sum_by allocated res.allocations ≡ reserved_in_all w.db)
        × (stock_in_all w'.db ≡ stock_in_all w.db)
        × (w'.db.bins ≡ w.db.bins)
  unfolding Revoke.give_back
  give_back-lem res w w' d v h =
      let (_, w1, e1, k1) = run-bind (release_allocations env res.allocations) _ w h in
      let (r, s, b) = release_allocations_conserves env res.allocations w w1 d v e1 in
      let (_, w2, e2, k2) = run-bind (save_reservation env res) _ w1 k1 in
      let (n, g, saved) = run-save_reservation env res w1 e2 in
      let (t, w3, e3, k3) = run-bind (now env) _ w2 k2 in
      let (read, same, tx) = run-now w2 e3 in
      let (u4, b4, r4) = run-publish env _ w3 k3 in
      let us : w'.db.units ≡ w1.db.units = u4 ∙ ap (λ d. d.units) same ∙ ap (λ d. d.units) saved in
      let bs : w'.db.bins ≡ w1.db.bins = b4 ∙ ap (λ d. d.bins) same ∙ ap (λ d. d.bins) saved in
      (omega (arith, r, ap (sum_by λ u. u.reserved) us), ap (sum_by λ u. u.quantity) us ∙ s, bs ∙ b)

  -- A reservation that can be resolved was active, and not past its timeout by the clock as it was
  -- read next after the reservation.
  abbrev pub Resolvable : String → World → Reservation → Type 0
  Resolvable id w res =
      (find reservation_key id w.db.reservations ≡ some res)
      × (is_active res.status ≡ true)
      × (is_expired res (env.clock (find_reservation env id w).1.calls) ≡ false)

  -- The world in which the reservation's transaction starts, where a resolution succeeds.
  pub found-lem :
      (id : String) (w : World) {o : Option Reservation} {w1 : World}
      → find_reservation env id w ≡ (ok o, w1)
      → (found s : Reservation) (w2 : World) → o ≡ some found
      → expire_if_due env found w1 ≡ (ok s, w2)
      → is_active s.status ≡ true
      → (res : Reservation) × Resolvable id w res × (s ≡ loaded env res) × (w2.db ≡ w.db)
  unfolding is_expired
  found-lem id w {o} {w1} e found s w2 is_some k live =
      let (here, tx0, what) = run-find_reservation env id w e in
      let (same, active, fresh, there, tx) = expire_if_due-live env found s w1 w2 k live in
      elim (Option-cases (find reservation_key id w.db.reservations)) [
        | inl none_there ↦
            let no : o ≡ none = what o refl ∙ ap (Option.map (loaded env)) none_there in cc
        | inr (res, row) ↦
            let f : some (loaded env res) ≡ some found =
              sym (what o refl ∙ ap (Option.map (loaded env)) row) ∙ is_some in
            let f' : loaded env res ≡ found = cc in
            (
              res,
              (
                row,
                ap (λ r. is_active r.status) f' ∙ active,
                ap (λ p. is_expired (loaded env res) (env.clock p.1.calls)) e
                    ∙ ap (λ r. is_expired r (env.clock w1.calls)) f'
                    ∙ fresh,
              ),
              same ∙ sym f',
              there ∙ here,
            )
      ]

  -- Revoking, when it succeeds in a well-formed database whose order of rows is an order: the
  -- reservation was there, active and not past its timeout, exactly the quantities of its
  -- allocations are no longer reserved, and the quantity at hand and the bins are as they were.
  pub revoke-gives_back :
      (id : String) (w w' : World)
      → IsOrdering env
      → IsWellformed w.db
      → Revoke.execute env id w ≡ (ok tt, w')
      → (res : Reservation) × Resolvable id w res
        × (reserved_in_all w'.db + sum_by allocated res.allocations ≡ reserved_in_all w.db)
        × (stock_in_all w'.db ≡ stock_in_all w.db)
        × (w'.db.bins ≡ w.db.bins)
  unfolding Revoke.execute Revoke.revoke_found fail revoke
  revoke-gives_back id w w' ordering v h =
      let (o, w1, e1, k1) = run-bind (find_reservation env id) _ w h in
      elim (Option-cases o) [
        | inl missing ↦
            let k1' = subst (λ o. Revoke.revoke_found env o w1 ≡ (ok tt, w')) missing k1 in cc
        | inr (found, is_some) ↦
            let k1' = subst (λ o. Revoke.revoke_found env o w1 ≡ (ok tt, w')) is_some k1 in
            let (s, w2, e2, k2) = run-bind (expire_if_due env found) _ w1 k1' in
            let (r, w3, e3, k3) = run-bind (lift (revoke s)) _ w2 k2 in
            let (done, here) = run-lift (revoke s) w2 e3 in
            let live : is_active s.status ≡ true = ground (arith, done) in
            let (res, resolvable, same, from) = found-lem id w e1 found s w2 is_some e2 live in
            let d : IsDrawable (loaded env res) = loaded-IsDrawable env ordering res (
              All-find reservation_key IsDrawable id w.db.reservations v.reservations
                resolvable.0) in
            let allocs : r.allocations ≡ (loaded env res).allocations =
              ground (arith, done) ∙ ap (λ r. r.allocations) same in
            let (b, b', e4, start, end) = run-atomically env (Revoke.give_back env r) w3 k3 in
            let db : b.db ≡ w.db = start ∙ ap (λ x. x.db) here ∙ from in
            let (x, y, z) =
              give_back-lem r b b' (subst (All IsCounted) (sym allocs) d)
                (subst IsWellformed (sym db) v) e4 in
            let total : sum_by allocated r.allocations ≡ sum_by allocated res.allocations =
              ap (sum_by allocated) allocs
              ∙ sum_by-Rearranged allocated (env.in_order res.allocations) res.allocations
                  (ordering res.allocations) in
            (
              res,
              resolvable,
              omega (arith, x, total, ap reserved_in_all db, ap reserved_in_all end),
              ap stock_in_all end ∙ y ∙ ap stock_in_all db,
              ap (λ d. d.bins) end ∙ z ∙ ap (λ d. d.bins) db,
            )
      ]
