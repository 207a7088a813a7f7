-- ===== src/UseCases/Settled/Due.antt =====
-- What `expireIfDue` of reservation_expiry.go does to the tables, with a reservation that is due and
-- with one that is not.
use mathlib.Core.Path.{subst}
use inventory_storage.Prelude.{
  ℕ, ◌+◌, ◌≤◌, ◌<◌, ◌≡◌, ◌⊎◌, refl, ap, sym, ◌∙◌, false, inl, inr, Option, none, some, List, [],
  ◌∷◌, ◌++◌, All, sum_by, ok, or_zero, arith, eq_refl, Bool-cases,
}
use inventory_storage.Shared.Events.{Time, DomainEvent, reservation_expired}
use inventory_storage.Shared.Quantity.{Quantity}
use inventory_storage.Stock.{StockUnit, release_reservation}
use inventory_storage.Reservation
use inventory_storage.Reservation.{Allocation, Reservation, is_active, is_expired, expire}
use inventory_storage.Store.Table.{find, upsert, find-upsert, key-find}
use inventory_storage.Store.World.{Db, Env, World, pure, fail, lift, now, tick, call, modify, ◌>>=◌}
use inventory_storage.Store.Repos.{
  reservation_key, written_reservation, find_unit, save_reservation, publish,
}
use inventory_storage.Store.Keeps.{IsWellformed, IsCounted}
use inventory_storage.Store.UnitOfWork.{atomically}
use inventory_storage.Store.Runs.{
  run-bind, run-lift, run-find_unit, run-save_unit, run-save_reservation, run-publish,
  run-atomically,
}
use inventory_storage.UseCases.Expiry.{release_from, release_allocations, expire_at, expire_if_due}
use inventory_storage.UseCases.Allocate.Draws.{allocated}
use inventory_storage.UseCases.Conservation.{
  reserved_in_all, stock_in_all, release_allocations_conserves,
}

module _ (env : Env) where
  -- The row of the reservation has the status.
  abbrev pub HasStatus : Reservation.Status → Reservation → Db → Type 0
  HasStatus s res db =
      (row : Reservation) × (find reservation_key res.id db.reservations ≡ some row)
      × (row.status ≡ s)

  -- The reservation is expired at a time: its stock is given back, its row says so, and so does the
  -- one event.
  abbrev pub Expires : Time → Reservation → Db → Db → Type 0
  Expires t res before after =
      (reserved_in_all after + sum_by allocated res.allocations ≡ reserved_in_all before)
      × (stock_in_all after ≡ stock_in_all before)
      × (after.bins ≡ before.bins)
      × HasStatus Reservation.expired res after
      × (after.events ≡ before.events ++ reservation_expired t res.id ∷ [])

  events-release_from :
      (q : Quantity) (o : Option StockUnit) (w w' : World)
      → release_from env q o w ≡ (ok tt, w')
      → w'.db.events ≡ w.db.events
  unfolding release_from fail
  events-release_from q none w w' h = cc
  events-release_from q (some u) w w' h =
      let (u', w1, e, rest) = run-bind (lift _) _ w h in
      let (done, here) = run-lift (release_reservation u q) w e in
      let (n, g, saved) = run-save_unit env u' w1 rest in
      ap (λ d. d.events) saved ∙ ap (λ x. x.db.events) here

  events-release_allocations :
      (l : List Allocation) (w w' : World)
      → release_allocations env l w ≡ (ok tt, w')
      → w'.db.events ≡ w.db.events
  unfolding release_allocations pure
  events-release_allocations [] w w' h = sym (ap (λ p. p.1.db.events) h)
  events-release_allocations (a ∷ l) w w' h =
      let (o, w1, e1, k1) = run-bind (find_unit env a.stock_unit_id) _ w h in
      let (found, here) = run-find_unit env a.stock_unit_id w e1 in
      let (_, w2, e2, k2) = run-bind (release_from env a.quantity o) _ w1 k1 in
      events-release_allocations l w2 w' k2
      ∙ events-release_from a.quantity o w1 w2 e2
      ∙ ap (λ d. d.events) here

  -- A saved reservation has its status in its row.
  HasStatus-written :
      (r : Reservation) (n : ℕ) (rows : List Reservation) (o : Option Reservation)
      → find reservation_key r.id rows ≡ o
      → (row : Reservation) × (find reservation_key r.id
            (upsert reservation_key (written_reservation o r n) rows)
          ≡ some row)
        × (row.status ≡ r.status)
  unfolding written_reservation
  HasStatus-written r n rows none e =
      let new : Reservation = written_reservation none r n in
      (new, find-upsert reservation_key r.id new rows ∙ rw (eq_refl r.id) refl, refl)
  HasStatus-written r n rows (some old) e =
      let new : Reservation = written_reservation (some old) r n in
      let key : old.id ≡ r.id = key-find reservation_key r.id rows e in
      (new, find-upsert reservation_key r.id new rows ∙ rw (key, eq_refl r.id) refl, refl)

  events-publish :
      (e : DomainEvent) (w w' : World)
      → publish env e w ≡ (ok tt, w')
      → w'.db.events ≡ w.db.events ++ e ∷ []
  unfolding publish call ◌>>=◌ modify
  events-publish e w w' h = ground arith

  -- What the transaction writes after the stock is given back.
  record_expired :
      (t : Time) (res r : Reservation) (w w1 w2 : World)
      → r ≡ record res { status = Reservation.expired }
      → save_reservation env r w ≡ (ok tt, w1)
      → publish env (reservation_expired t r.id) w1 ≡ (ok tt, w2)
      → (w2.db.units ≡ w.db.units)
        × (w2.db.bins ≡ w.db.bins)
        × HasStatus Reservation.expired res w2.db
        × (w2.db.events ≡ w.db.events ++ reservation_expired t res.id ∷ [])
  record_expired t res r w w1 w2 e h k =
      let (n, g, saved) = run-save_reservation env r w h in
      let (us, bs, rs) = run-publish env _ w1 k in
      let id : r.id ≡ res.id = ap (λ r. r.id) e in
      let (row, there, status) = HasStatus-written r n w.db.reservations _ refl in
      let new : Reservation =
        written_reservation (find reservation_key r.id w.db.reservations) r n in
      let rows : w2.db.reservations ≡ upsert reservation_key new w.db.reservations =
        rs ∙ ap (λ d. d.reservations) saved in
      (
        us ∙ ap (λ d. d.units) saved,
        bs ∙ ap (λ d. d.bins) saved,
        (
          row,
          ap (find reservation_key res.id) rows
              ∙ ap (λ i. find reservation_key i (upsert reservation_key new w.db.reservations))
                  (sym id)
              ∙ there,
          status ∙ ap (λ r. r.status) e,
        ),
        events-publish _ w1 w2 k
            ∙ ap (λ l. l ++ reservation_expired t r.id ∷ []) (ap (λ d. d.events) saved)
            ∙ ap (λ i. w.db.events ++ reservation_expired t i ∷ []) id,
      )

  given_back :
      (t : Time) (res : Reservation) (w w1 w2 : World)
      → All IsCounted res.allocations
      → IsWellformed w.db
      → release_allocations env res.allocations w ≡ (ok tt, w1)
      → (w2.db.units ≡ w1.db.units)
        × (w2.db.bins ≡ w1.db.bins)
        × HasStatus Reservation.expired res w2.db
        × (w2.db.events ≡ w1.db.events ++ reservation_expired t res.id ∷ [])
      → Expires t res w.db w2.db
  given_back t res w w1 w2 c v h (us, bs, row, events) =
      let (reserved, stock, bins) = release_allocations_conserves env res.allocations w w1 c v h in
      (
        omega (arith, reserved, ap (sum_by λ u. u.reserved) us),
        ap (sum_by λ u. u.quantity) us ∙ stock,
        bs ∙ bins,
        row,
        events
            ∙ ap (λ l. l ++ reservation_expired t res.id ∷ [])
                (events-release_allocations res.allocations w w1 h),
      )

  expire-lem :
      (res r : Reservation) → expire res ≡ ok r → r ≡ record res { status = Reservation.expired }
  unfolding expire
  expire-lem res r h = ground arith

  expire_at-Expires :
      (t : Time) (res r : Reservation) (w w' : World)
      → All IsCounted res.allocations
      → IsWellformed w.db
      → expire_at env t res w ≡ (ok r, w')
      → (r ≡ record res { status = Reservation.expired }) × Expires t res w.db w'.db
  unfolding expire_at pure
  expire_at-Expires t res r w w' c v h =
      let (_, w1, e1, k1) = run-bind (release_allocations env res.allocations) _ w h in
      let (r', w2, e2, k2) = run-bind (lift (expire res)) _ w1 k1 in
      let (done, here) = run-lift (expire res) w1 e2 in
      let (_, w3, e3, k3) = run-bind (save_reservation env r') _ w2 k2 in
      let (_, w4, e4, k4) = run-bind (publish env _) _ w3 k3 in
      let made : r' ≡ record res { status = Reservation.expired } = expire-lem res r' done in
      let start : save_reservation env r' w1 ≡ (ok tt, w3) =
        ap (save_reservation env r') (sym here) ∙ e3 in
      let back : Expires t res w.db w4.db =
        given_back t res w w1 w4 c v e1 (record_expired t res r' w1 w3 w4 made start e4) in
      (
        sym (ap (λ p. or_zero res p.0) k4) ∙ made,
        subst (Expires t res w.db) (ap (λ p. p.1.db) k4) back,
      )

  -- A successful `expireIfDue` of a reservation, in a well-formed database and with allocations that
  -- are not negative. Either the reservation was active and past its timeout by the clock that it
  -- read: then it comes back expired, exactly its allocations are no longer reserved, the stock and
  -- the bins are as they were, its row is expired, and one event, of its expiry at that time, was
  -- added. Or it was resolved, or not past its timeout: then it comes back as it is, and no table
  -- has changed.
  pub expire_if_due-Expires :
      (res r : Reservation) (w w' : World)
      → All IsCounted res.allocations
      → IsWellformed w.db
      → expire_if_due env res w ≡ (ok r, w')
      → let t = env.clock w.calls in
        ((res.status ≡ Reservation.active)
          × (res.expires_at < t)
          × (r ≡ record res { status = Reservation.expired })
          × Expires t res w.db w'.db)
        ⊎ (((is_active res.status ≡ false) ⊎ (t ≤ res.expires_at)) × (r ≡ res) × (w'.db ≡ w.db))
  unfolding expire_if_due now pure ◌>>=◌
  expire_if_due-Expires res r w w' c v h =
      let t = env.clock w.calls in
      elim (Bool-cases (is_active res.status)) [
        | inr resolved ↦ inr (inl resolved, ground (arith, resolved), ground (arith, resolved))
        | inl still ↦ elim (Bool-cases (is_expired res t)) [
          | inr fresh ↦ inr (
            inr (unfold is_expired in ground (arith, fresh)),
            ground (arith, still, fresh),
            ground (arith, still, fresh),
          )
          | inl due ↦
              let run : atomically env (expire_at env t res) (tick w) ≡ (ok r, w') =
                ground (arith, still, due) in
              let (s, s', e, from, to) = run-atomically env (expire_at env t res) (tick w) run in
              let (made, back) =
                expire_at-Expires t res r s s' c (subst IsWellformed (sym from) v) e in
              inl (
                unfold is_active in ground (arith, still),
                unfold is_expired in ground (arith, due),
                made,
                subst (λ d. Expires t res w.db d) (sym to)
                    (subst (λ d. Expires t res d s'.db) from back),
              )
        ]
      ]
