-- ===== src/Prelude/Results.antt =====
-- A Go function that returns `(T, error)`: the value, or one of the program's sentinel errors.
-- A parameter stands for each error of a library, which the program only passes on.
use mathlib.Core.Path.{◌≡◌, refl}
use mathlib.Core.Logic.{◌⊎◌, inl, inr}

-- Every `errors.New` variable of internal/domain and internal/application, one constructor each.
-- `infrastructure` is any other error: of the database, the driver or the broker.
pub data Error : Type 0 where
  empty_sku empty_bin_id negative_quantity zero_quantity : Error
  stow_requires_item_and_location unit_insufficient_usable : Error
  insufficient_reserved unit_unlocated : Error
  bin_full invalid_capacity release_exceeds_occupancy capacity_below_occupancy : Error
  already_resolved reservation_expired no_allocations : Error
  unknown_handling_tag unknown_temperature_class no_handling_tags : Error
  temperature_class_required temperature_class_not_applicable duplicate_handling_tag : Error
  invalid_dot_hazard_class dot_hazard_class_not_applicable : Error
  stock_unit_not_found bin_not_found reservation_not_found insufficient_usable : Error
  product_classification_not_found hazmat_zone_required temperature_class_mismatch : Error
  location_classification_unavailable hazmat_class_incompatible : Error
  concurrent_modification infrastructure : Error

pub data Result {ℓ} (A : Type ℓ) : Type ℓ where
  ok : A → Result A
  err : Error → Result A

-- `value, _ := f()`: what Go leaves in `value` when the error is ignored is the zero value.
abbrev pub or_zero {ℓ} : {A : Type ℓ} → A → Result A → A
or_zero z (ok a) = a
or_zero z (err e) = z

-- The next step after a call that returned no error.
abbrev pub and_then {ℓ κ} : {A : Type ℓ} {B : Type κ} → Result A → (A → Result B) → Result B
and_then (ok a) f = f a
and_then (err e) f = err e

module _ {ℓ κ} {B : Type ℓ} {A : Type κ} (f : A → Result B) where
  -- A sequence that succeeds is a first step that succeeds, and a second one on its value.
  pub and_then-eq-ok :
      {b : B} (first : Result A) → and_then first f ≡ ok b → (a : A) × (first ≡ ok a) × (f a ≡ ok b)
  and_then-eq-ok (err e) h = cc
  and_then-eq-ok (ok a) h = (a, refl, h)

module _ {ℓ} {A : Type ℓ} where
  pub Result-cases : (x : Result A) → ((e : Error) × (x ≡ err e)) ⊎ ((a : A) × (x ≡ ok a))
  Result-cases (err e) = inl (e, refl)
  Result-cases (ok a) = inr (a, refl)
