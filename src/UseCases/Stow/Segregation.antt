-- ===== src/UseCases/Stow/Segregation.antt =====
-- What the checks of stow_stock.go guarantee when they pass: `checkSegregation` and
-- `checkPlacement`.
use mathlib.Core.Path.{subst}
use inventory_storage.Prelude.{
  ◌≡◌, ◌⊎◌, refl, ap, sym, ◌∙◌, true, false, inl, inr, String, Option, some, List, [], ◌∷◌, All, ok,
  arith, str_eq, eq_iff, Bool-cases,
}
use inventory_storage.Stock.{StockUnit}
use inventory_storage.Product.Classification.{
  ProductClassification, DotHazardClass, rehydrate, contains,
}
use inventory_storage.Product.Segregation.{incompatible}
use inventory_storage.Store.Table.{find}
use inventory_storage.Store.World.{Db, Env, World, pure, lift, gets, call, ◌>>=◌}
use inventory_storage.Store.Repos.{classification_key, find_classification}
use inventory_storage.Store.Runs.{run-bind, run-lift}
use inventory_storage.UseCases.Stow.{against, check_occupants}

-- The classification that a SKU has in a database.
abbrev pub classified : Db → String → Option ProductClassification
classified db sku = find classification_key sku db.classifications

-- No classification of the SKU is of a class incompatible with the incoming one.
abbrev pub IsApart : Db → DotHazardClass → String → Type 0
IsApart db incoming sku =
    (c : ProductClassification)
    → classified db sku ≡ some c
    → incompatible incoming c.dot_hazard_class ≡ false

-- A SKU among those already seen.
contains-IsApart :
    (db : Db) (incoming : DotHazardClass) (x : String) (seen : List String)
    → All (IsApart db incoming) seen
    → contains x seen ≡ true
    → IsApart db incoming x
unfolding contains
contains-IsApart db incoming x [] v h = ground (arith, h)
contains-IsApart db incoming x (y ∷ seen) v h = elim (Bool-cases (str_eq y x)) [
  | inl same ↦ let e : y ≡ x = ground (arith, same, eq_iff y x) in subst (IsApart db incoming) e v.0
  | inr other ↦ contains-IsApart db incoming x seen v.1 (rw other at h)
]

module _ (env : Env) where
  run-find_classification :
      (sku : String) (w : World) {o : Option ProductClassification} {w' : World}
      → find_classification env sku w ≡ (ok o, w')
      → (w'.db ≡ w.db)
        × ((c : ProductClassification)
            → classified w.db sku ≡ some c
            → (c' : ProductClassification) × (o ≡ some c')
              × (c'.dot_hazard_class ≡ c.dot_hazard_class))
  unfolding find_classification call pure gets ◌>>=◌ rehydrate
  run-find_classification sku w h = (
    ground arith,
    λ c e. (
      rehydrate c.sku c.handling_tags c.temperature_class c.dot_hazard_class,
      ground (arith, e),
      refl,
    ),
  )

  -- When the loop of `checkSegregation` passes, having seen only SKUs that are apart from the
  -- incoming class, then every occupant of the bin that is of another SKU than the incoming one is
  -- of no class incompatible with the incoming class, and no table has changed.
  pub check_occupants-IsApart :
      (sku : String) (incoming : DotHazardClass) (seen : List String) (l : List StockUnit)
      (w w' : World)
      → All (IsApart w.db incoming) seen
      → check_occupants env sku incoming seen l w ≡ (ok tt, w')
      → All (λ u. (str_eq u.sku sku ≡ true) ⊎ IsApart w.db incoming u.sku) l × (w'.db ≡ w.db)
  unfolding check_occupants pure against
  check_occupants-IsApart sku incoming seen [] w w' v h = (tt, ap (λ p. p.1.db) (sym h))
  check_occupants-IsApart sku incoming seen (u ∷ l) w w' v h =
      elim (Bool-cases (str_eq u.sku sku)) [
        | inl same ↦
            let k : check_occupants env sku incoming seen l w ≡ (ok tt, w') = rw same at h in
            let (rest, db) = check_occupants-IsApart sku incoming seen l w w' v k in
            ((inl same, rest), db)
        | inr other ↦ elim (Bool-cases (contains u.sku seen)) [
          | inl known ↦
              let k : check_occupants env sku incoming seen l w ≡ (ok tt, w') =
                rw (other, known) at h in
              let (rest, db) = check_occupants-IsApart sku incoming seen l w w' v k in
              ((inr (contains-IsApart w.db incoming u.sku seen v known), rest), db)
          | inr fresh ↦
              let k = rw (other, fresh) at h in
              let (o, w1, e1, k1) = run-bind (find_classification env u.sku) _ w k in
              let (_, w2, e2, k2) = run-bind (lift (against env incoming o)) _ w1 k1 in
              let (passed, here) = run-lift (against env incoming o) w1 e2 in
              let (there, what) = run-find_classification u.sku w e1 in
              let db : w2.db ≡ w.db = ap (λ x. x.db) here ∙ there in
              let apart : IsApart w.db incoming u.sku = λ c e.
                let (c', is_some, class) = what c e in ground (arith, is_some, passed, class) in
              let v2 : All (IsApart w2.db incoming) (u.sku ∷ seen) =
                subst (λ d. All (IsApart d incoming) (u.sku ∷ seen)) (sym db) (apart, v) in
              let (rest, db') = check_occupants-IsApart sku incoming (u.sku ∷ seen) l w2 w' v2 k2 in
              (
                (
                  inr apart,
                  subst (λ d. All (λ u. (str_eq u.sku sku ≡ true) ⊎ IsApart d incoming u.sku) l) db
                      rest,
                ),
                db' ∙ db,
              )
        ]
      ]
