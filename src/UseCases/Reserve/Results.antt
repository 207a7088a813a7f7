-- ===== src/UseCases/Reserve/Results.antt =====
-- What `Execute` of reserve_stock.go returns, and what a reservation that cannot be recorded
-- leaves behind.
use mathlib.Core.Path.{subst}
use inventory_storage.Prelude.{
  ◌≡◌, ap, ◌∙◌, true, false, inl, inr, String, ◌&&◌, Option, none, some, List, [], ◌∷◌, Result, ok,
  err, arith, str_eq, eq_refl, ◌==◌, Bool-cases, Option-cases,
}
use inventory_storage.Shared.Events.{Time}
use inventory_storage.Shared.Quantity.{Quantity, is_not_positive}
use inventory_storage.Reservation
use inventory_storage.Reservation.{Reservation, is_active}
use inventory_storage.Store.World.{Env, World, pure, lift, fail, now}
use inventory_storage.Store.Repos.{
  find_units_by_sku, next_reservation_id, save_reservation, publish, find_by_demand_ref,
}
use inventory_storage.Store.Runs.{run-bind, run-lift, run-atomically}
use inventory_storage.UseCases.Allocate.{allocate}
use inventory_storage.UseCases.Expiry.{expire_all_if_due}
use inventory_storage.UseCases.Reserve.{
  is_replay_of, first_replay, active_reservation_for, save_all, record_reservation, reserve_new,
  replay_or_new, execute,
}

-- An active claim for the quantity of the SKU.
abbrev pub IsClaim : String → Quantity → Reservation → Type 0
IsClaim sku qty r =
    (is_active r.status ≡ true) × (str_eq r.sku sku ≡ true) × (r.quantity == qty ≡ true)

first_replay-IsClaim :
    (sku : String) (qty : Quantity) (l : List Reservation) {r : Reservation}
    → first_replay sku qty l ≡ some r
    → IsClaim sku qty r
unfolding first_replay is_replay_of
first_replay-IsClaim sku qty [] h = cc
first_replay-IsClaim sku qty (s ∷ l) {r} h =
    elim (Bool-cases (is_active s.status && is_replay_of s sku qty)) [
      | inl found ↦
          let e : s ≡ r = ground (arith, found) in
          rw⁻¹ e (ground (arith, found), ground (arith, found), ground (arith, found))
      | inr other ↦ first_replay-IsClaim sku qty l (rw other at h)
    ]

abbrev or_none : Result (Option Reservation) → Option Reservation
or_none (ok o) = o
or_none (err e) = none

module _ (env : Env) where
  record_reservation-returns :
      (t : Time) (res r : Reservation) (w w' : World)
      → record_reservation env t res w ≡ (ok r, w')
      → r ≡ res
  unfolding record_reservation pure
  record_reservation-returns t res r w w' h =
      let (_, w1, e1, k1) = run-bind (save_reservation env res) _ w h in
      let (_, w2, e2, k2) = run-bind (publish env _) _ w1 k1 in ground arith

  reserve_new-IsClaim :
      (sku : String) (qty : Quantity) (ref : String) (r : Reservation) (w w' : World)
      → reserve_new env sku qty ref w ≡ (ok r, w')
      → IsClaim sku qty r
  unfolding reserve_new Reservation.new is_active
  reserve_new-IsClaim sku qty ref r w w' h =
      let (us, w1, e1, k1) = run-bind (find_units_by_sku env sku) _ w h in
      let (d, w2, e2, k2) = run-bind (lift (allocate us qty)) _ w1 k1 in
      let (_, w3, e3, k3) = run-bind (save_all env d.touched) _ w2 k2 in
      let (id, w4, e4, k4) = run-bind (next_reservation_id env) _ w3 k3 in
      let (t, w5, e5, k5) = run-bind (now env) _ w4 k4 in
      let (res, w6, e6, k6) = run-bind (lift _) _ w5 k5 in
      let (made, here) =
        run-lift (Reservation.new id sku qty ref d.allocations t env.timeout) w5 e6 in
      let (s, s', e7, from, to) = run-atomically env (record_reservation env t res) w6 k6 in
      let same : r ≡ res = record_reservation-returns t res r s s' e7 in
      let live : is_active res.status ≡ true = ground (arith, made) in
      let of_sku : res.sku ≡ sku = ground (arith, made) in
      let of_qty : res.quantity ≡ qty = ground (arith, made) in
      (
        ap (λ r. is_active r.status) same ∙ live,
        ap (λ r. str_eq r.sku sku) same ∙ ap (λ x. str_eq x sku) of_sku ∙ eq_refl sku,
        ap (λ r. r.quantity == qty) same ∙ ap (λ x. x == qty) of_qty ∙ ground arith,
      )

  -- Whatever `Reserve` returns, a replay or a new reservation, is active and is for exactly the SKU
  -- and the quantity that were asked for; and the quantity was positive.
  pub reserve-IsClaim :
      (sku : String) (qty : Quantity) (ref : String) (r : Reservation) (w w' : World)
      → execute env sku qty ref w ≡ (ok r, w')
      → IsClaim sku qty r × (is_not_positive qty ≡ false)
  unfolding execute active_reservation_for fail
  reserve-IsClaim sku qty ref r w w' h = elim (Bool-cases (is_not_positive qty)) [
    | inl bad ↦ ground (arith, bad)
    | inr good ↦
        let k = rw good at h in
        let (o, w1, e1, k1) = run-bind (active_reservation_for env ref sku qty) _ w k in
        (
          unfold pure replay_or_new in
              elim (Option-cases o) [
                | inl none_found ↦
                    let k2 =
                      subst (λ o. replay_or_new env sku qty ref o w1 ≡ (ok r, w')) none_found k1 in
                    reserve_new-IsClaim sku qty ref r w1 w' k2
                | inr (res, found) ↦
                    let k2 =
                      subst (λ o. replay_or_new env sku qty ref o w1 ≡ (ok r, w')) found k1 in
                    let (l, w2, e2, k3) = run-bind (find_by_demand_ref env ref) _ w e1 in
                    let (m, w3, e3, k4) = run-bind (expire_all_if_due env l) _ w2 k3 in
                    let first : first_replay sku qty m ≡ some res =
                      ap or_none (ap (λ p. p.0) k4) ∙ found in
                    let same : res ≡ r = ground (arith, k2) in
                    subst (IsClaim sku qty) same (first_replay-IsClaim sku qty m first)
              ],
          good,
        )
  ]
