-- ===== src/UseCases/Settled.antt =====
-- A reservation that a use case goes on with is not past its timeout: expireIfDue and
-- expireAllIfDue of reservation_expiry.go, and what stands on them.
pub mod Due
use inventory_storage.Prelude.{
  ℕ, suc, ◌≤◌, ◌≡◌, ap, sym, ◌∙◌, true, false, inl, inr, List, [], ◌∷◌, All, ok, arith, Bool-cases,
}
use inventory_storage.Shared.Events.{Time}
use inventory_storage.Shared.Quantity.{Quantity}
use inventory_storage.Reservation
use inventory_storage.Reservation.{Reservation, is_active, is_expired, expire, revoke, confirm}
use inventory_storage.Store.World.{Env, World, pure, lift, now, tick, ◌>>=◌}
use inventory_storage.Store.Repos.{save_reservation, publish}
use inventory_storage.Store.UnitOfWork.{atomically}
use inventory_storage.Store.Runs.{run-bind, run-lift, run-atomically}
use inventory_storage.UseCases.Expiry.{release_allocations, expire_at, expire_if_due}

module _ (env : Env) where
  -- The calls made for the reservations of a list, one after the other, have the numbers from the
  -- first up to the second. For an active one a single call was made, a reading of the clock, which
  -- was not past its timeout.
  abbrev pub IsSettled : ℕ → ℕ → List Reservation → Type 0
  IsSettled from to [] = from ≤ to
  IsSettled from to (r ∷ l) =
      (next : ℕ) × (from ≤ next)
      × (is_active r.status ≡ true → (next ≡ suc from) × (env.clock from ≤ r.expires_at))
      × IsSettled next to l

  expire_at-expired :
      (t : Time) (res r : Reservation) (w w' : World)
      → expire_at env t res w ≡ (ok r, w')
      → r.status ≡ Reservation.expired
  unfolding expire_at expire pure
  expire_at-expired t res r w w' h =
      let (_, w1, e1, k1) = run-bind (release_allocations env res.allocations) _ w h in
      let (r', w2, e2, k2) = run-bind (lift (expire res)) _ w1 k1 in
      let (done, here) = run-lift (expire res) w1 e2 in
      let (_, w3, e3, k3) = run-bind (save_reservation env r') _ w2 k2 in
      let (_, w4, e4, k4) = run-bind (publish env _) _ w3 k3 in
      let same : r' ≡ r = ground arith in ap (λ r. r.status) (sym same) ∙ ground (arith, done)

  -- What `expireIfDue` returns. A reservation that is resolved comes back as it is; an active one
  -- comes back as it is where the clock, read once, is not past its timeout, and expired where it is.
  pub expire_if_due-cases :
      (res r : Reservation) (w w' : World)
      → expire_if_due env res w ≡ (ok r, w')
      → let due = is_expired res (env.clock w.calls) in
        (is_active res.status ≡ false → r ≡ res)
        × (is_active res.status ≡ true → due ≡ false → r ≡ res)
        × (is_active res.status ≡ true → due ≡ true → r.status ≡ Reservation.expired)
  unfolding expire_if_due now pure ◌>>=◌
  expire_if_due-cases res r w w' h = (
    λ resolved. ground (arith, resolved),
    λ live early. ground (arith, live, early),
    λ live late.
        let t = env.clock w.calls in
        let run : atomically env (expire_at env t res) (tick w) ≡ (ok r, w') =
          ground (arith, live, late) in
        let (s, s', e, from, to) = run-atomically env (expire_at env t res) (tick w) run in
        expire_at-expired t res r s s' e,
  )

  -- What it leaves active it returns as it was, not past its timeout, with no table changed.
  pub expire_if_due-live :
      (res r : Reservation) (w w' : World)
      → expire_if_due env res w ≡ (ok r, w')
      → is_active r.status ≡ true
      → (r ≡ res)
        × (is_active res.status ≡ true)
        × (is_expired res (env.clock w.calls) ≡ false)
        × (w'.db ≡ w.db)
        × (w'.in_tx ≡ w.in_tx)
  unfolding expire_if_due now pure ◌>>=◌ is_active
  expire_if_due-live res r w w' h live =
      let (resolved, early, late) = expire_if_due-cases res r w w' h in
      elim (Bool-cases (is_active res.status)) [
        | inr no_more ↦ ground (arith, resolved no_more, no_more)
        | inl still ↦ elim (Bool-cases (is_expired res (env.clock w.calls))) [
          | inl due ↦ ground (arith, late still due)
          | inr fresh ↦ (
            early still fresh,
            still,
            fresh,
            ground (arith, still, fresh),
            ground (arith, still, fresh),
          )
        ]
      ]
