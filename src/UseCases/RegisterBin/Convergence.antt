-- ===== src/UseCases/RegisterBin/Convergence.antt =====
-- Registering a bin is idempotent: register_bin.go.
use mathlib.Core.Path.{subst}
use inventory_storage.Prelude.{
  ◌≡◌, ap, sym, ◌∙◌, true, inl, inr, String, Option, none, some, ok, arith, str_eq, eq_refl, ◌==◌,
  Bool-cases, if◌then◌else◌,
}
use inventory_storage.Shared.Quantity.{Quantity, is_not_positive}
use inventory_storage.Location
use inventory_storage.Location.{Bin, resize}
use inventory_storage.Store.Table.{find, find-upsert, key-find}
use inventory_storage.Store.World.{Env, World, pure, fail, lift}
use inventory_storage.Store.Repos.{bin_key, find_bin, save_bin}
use inventory_storage.Store.Runs.{run-bind, run-lift, run-find_bin, run-save_bin, run-atomically}
use inventory_storage.UseCases.RegisterBin.{Outcome, bin_unchanged, converge, execute}

-- The table has the bin with this capacity.
abbrev pub HasCapacity : World → String → Quantity → Type 0
HasCapacity w id capacity =
    (b : Bin) × (find bin_key id w.db.bins ≡ some b) × (b.capacity ≡ capacity)

module _ (env : Env) where
  saved-HasCapacity :
      (b : Bin) (id : String) (capacity : Quantity) (w w' : World)
      → b.id ≡ id
      → b.capacity ≡ capacity
      → save_bin env b w ≡ (ok tt, w')
      → HasCapacity w' id capacity
  saved-HasCapacity b id capacity w w' same cap h =
      let (n, g, e, small) = run-save_bin env b w h in
      let new : Bin = record b { version = n } in
      (
        new,
        ap (λ d. find bin_key id d.bins) e
            ∙ find-upsert bin_key id new w.db.bins
            ∙ ap (λ i. if str_eq i id then some new else find bin_key id w.db.bins) same
            ∙ ap (λ b. if b then some new else find bin_key id w.db.bins) (eq_refl id),
        cap,
      )

  converge-HasCapacity :
      (id : String) (capacity : Quantity) (o : Option Bin) (w w' : World) {r : Bin × Outcome}
      → o ≡ find bin_key id w.db.bins
      → converge env id capacity o w ≡ (ok r, w')
      → HasCapacity w' id capacity
  unfolding converge pure Location.new resize
  converge-HasCapacity id capacity none w w' found h =
      let (b, w1, e1, k1) = run-bind (lift _) _ w h in
      let (made, here) = run-lift (Location.new id capacity) w e1 in
      let (_, w2, e2, k2) = run-bind (save_bin env b) _ w1 k1 in
      let (c, at, cap) =
        saved-HasCapacity b id capacity w1 w2 (ground (arith, made)) (ground (arith, made)) e2 in
      let end : w'.db ≡ w2.db = ap (λ p. p.1.db) (sym k2) in
      (c, ap (λ d. find bin_key id d.bins) end ∙ at, cap)
  converge-HasCapacity id capacity (some b) w w' found h =
      elim (Bool-cases (b.capacity == capacity)) [
        | inl same ↦
            let k = rw same at h in
            let end : w'.db ≡ w.db = ap (λ p. p.1.db) (sym k) in
            (b, ap (λ d. find bin_key id d.bins) end ∙ sym found, ground (arith, same))
        | inr other ↦
            let k = rw other at h in
            let (c, w1, e1, k1) = run-bind (lift _) _ w k in
            let (made, here) = run-lift (resize b capacity) w e1 in
            let (_, w2, e2, k2) = run-bind (save_bin env c) _ w1 k1 in
            let same : c.id ≡ id =
              ground (arith, made) ∙ key-find bin_key id w.db.bins (sym found) in
            let (c', at, cap) =
              saved-HasCapacity c id capacity w1 w2 same (ground (arith, made)) e2 in
            let end : w'.db ≡ w2.db = ap (λ p. p.1.db) (sym k2) in
            (c', ap (λ d. find bin_key id d.bins) end ∙ at, cap)
      ]

  -- The steps of a registration that succeeds.
  run-register :
      (id : String) (capacity : Quantity) (w w' : World) {r : Bin × Outcome}
      → execute env id capacity w ≡ (ok r, w')
      → (o : Option Bin) × (s : World) × (s' : World) × (o ≡ find bin_key id w.db.bins)
        × (s.db ≡ w.db)
        × (converge env id capacity o s ≡ (ok r, s'))
        × (w'.db ≡ s'.db)
  unfolding execute fail
  run-register id capacity w w' h = elim (Bool-cases (str_eq id "")) [
    | inl nameless ↦ ground (arith, nameless)
    | inr named ↦ elim (Bool-cases (is_not_positive capacity)) [
      | inl bad ↦ ground (arith, named, bad)
      | inr good ↦
          let k = rw (named, good) at h in
          let (s, s', e, from, to) = run-atomically env _ w k in
          let (o, s1, e1, k1) = run-bind (find_bin env id) _ s e in
          let (found, here) = run-find_bin env id s e1 in
          (o, s1, s', found ∙ ap (λ d. find bin_key id d.bins) from, here ∙ from, k1, to)
    ]
  ]

  -- After a registration that succeeds, the table has the bin with the capacity that was asked for;
  -- and whenever it has, registering it again with that capacity, if that succeeds, answers that
  -- the bin is unchanged, and changes no table.
  pub register-idempotent :
      (id : String) (capacity : Quantity) (w w' : World) {b : Bin} {o : Outcome}
      → execute env id capacity w ≡ (ok (b, o), w')
      → HasCapacity w' id capacity
        × (HasCapacity w id capacity → (o ≡ bin_unchanged) × (w'.db ≡ w.db))
  register-idempotent id capacity w w' {b} {o} h =
      let (found, s, s', is_found, from, run, to) = run-register id capacity w w' h in
      let (c, at, cap) =
        converge-HasCapacity id capacity found s s'
          (is_found ∙ ap (λ d. find bin_key id d.bins) (sym from)) run in
      (
        (c, ap (λ d. find bin_key id d.bins) to ∙ at, cap),
        λ (e, there, has).
            let run' : converge env id capacity (some e) s ≡ (ok (b, o), s') =
              subst (λ f. converge env id capacity f s ≡ (ok (b, o), s')) (is_found ∙ there) run in
            let same : e.capacity == capacity ≡ true = ground (arith, has) in
            unfold converge pure in
            (ground (arith, run', same), to ∙ ap (λ p. p.1.db) (sym (rw same at run')) ∙ from),
      )
