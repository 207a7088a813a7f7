-- ===== src/UseCases/CycleCount/Shortfall.antt =====
-- What `markShortfallUnlocated` of run_cycle_count.go declares lost.
use mathlib.Core.Path.{subst}
use inventory_storage.Prelude.{
  ℕ, ◌+◌, ◌-◌, ◌≤◌, ◌≡◌, refl, ap, sym, ◌∙◌, inl, inr, String, List, [], ◌∷◌, ◌++◌, All, sum_by,
  sum_by-append, ok, arith, ltb, ◌==◌, or_zero, Bool-cases, if◌then◌else◌,
}
use inventory_storage.Shared.Int.{IsNonneg}
use inventory_storage.Shared.Events.{Time, DomainEvent, item_unlocated}
use inventory_storage.Shared.Quantity
use inventory_storage.Shared.Quantity.{Quantity, greater_than, greater_than-nonneg, sub-nonneg}
use inventory_storage.Stock.{StockUnit, mark_unlocated}
use inventory_storage.Stock.Invariant.{IsValid}
use inventory_storage.Store.World.{Env, World, pure, modify, call, ◌>>=◌}
use inventory_storage.Store.Repos.{save_unit, publish}
use inventory_storage.Store.Runs.{run-bind, run-save_unit}
use inventory_storage.UseCases.CycleCount.{lost_part, mark_shortfall_unlocated}

-- The quantity that an event declares lost.
unfoldable pub declared_lost : DomainEvent → ℕ
declared_lost (item_unlocated t unit sku bin q) = q
declared_lost _ = 0

lost_part-lem :
    (s : Quantity) (u : StockUnit)
    → IsNonneg s
    → IsValid u
    → let k = lost_part s u in
      (k ≡ (if ltb u.quantity s then u.quantity else s))
      × (k ≤ s)
      × (or_zero 0 (Quantity.sub s k) ≡ s - k)
unfolding lost_part
lost_part-lem s u hs v =
    let test = greater_than-nonneg s u.quantity hs v.in_range in
    let k = lost_part s u in
    let e : k ≡ (if ltb u.quantity s then u.quantity else s) = ground (arith, test) in
    let below : k ≤ s = ground (arith, e) in
    (e, below, ground (arith, sub-nonneg s k hs (omega (arith, below, hs)), below))

module _ (env : Env) where
  run-publish_events :
      (e : DomainEvent) (w w' : World)
      → publish env e w ≡ (ok tt, w')
      → w'.db.events ≡ w.db.events ++ e ∷ []
  unfolding publish call ◌>>=◌ modify
  run-publish_events e w w' h = ground arith

  -- When the loop succeeds on valid units that hold at least the shortfall, the `ItemUnlocated`
  -- events that it publishes declare exactly the shortfall lost.
  pub mark_shortfall_conserves :
      (bin : String) (l : List StockUnit) (s : Quantity) (t : Time) (w w' : World)
      → All IsValid l
      → IsNonneg s
      → s ≤ sum_by (λ u. u.quantity) l
      → mark_shortfall_unlocated env bin l s t w ≡ (ok tt, w')
      → sum_by declared_lost w'.db.events ≡ sum_by declared_lost w.db.events + s
  unfolding mark_shortfall_unlocated pure
  mark_shortfall_conserves bin [] s t w w' v hs enough h =
      let e : w'.db.events ≡ w.db.events = ap (λ p. p.1.db.events) (sym h) in
      omega (arith, enough, ap (sum_by declared_lost) e)
  mark_shortfall_conserves bin (u ∷ l) s t w w' v hs enough h = elim (Bool-cases (s == 0)) [
    | inl none_left ↦
        let k = rw none_left at h in
        let e : w'.db.events ≡ w.db.events = ap (λ p. p.1.db.events) (sym k) in
        let zero : s ≡ 0 = ground (arith, none_left) in
        omega (arith, zero, ap (sum_by declared_lost) e)
    | inr some_left ↦
        let k = rw some_left at h in
        let (part, below, left) = lost_part-lem s u hs v.0 in
        let (_, w1, e1, k1) = run-bind (save_unit env (mark_unlocated u)) _ w k in
        let (n, g, saved) = run-save_unit env (mark_unlocated u) w e1 in
        let (_, w2, e2, k2) = run-bind (publish env _) _ w1 k1 in
        let added = run-publish_events _ w1 w2 e2 in
        let rest : mark_shortfall_unlocated env bin l (s - lost_part s u) t w2 ≡ (ok tt, w') =
          subst (λ r. mark_shortfall_unlocated env bin l r t w2 ≡ (ok tt, w')) left k2 in
        let later =
          mark_shortfall_conserves bin l (s - lost_part s u) t w2 w' v.1 (omega (arith, hs))
            (ground (arith, part, enough)) rest in
        let events =
          added
          ∙ ap (λ d. d.events ++ item_unlocated t u.id u.sku bin (lost_part s u) ∷ []) saved in
        let total =
          ap (sum_by declared_lost) events
          ∙ sum_by-append declared_lost w.db.events
              (item_unlocated t u.id u.sku bin (lost_part s u) ∷ []) in
        let one : declared_lost (item_unlocated t u.id u.sku bin (lost_part s u)) ≡ lost_part s u =
          unfold declared_lost in refl in
        omega (arith, later, total, one, below)
  ]
