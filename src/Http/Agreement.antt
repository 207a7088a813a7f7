-- ===== src/Http/Agreement.antt =====
-- The status and the problem of a response agree.
use inventory_storage.Prelude.{
  ◌≡◌, refl, Bool, Error, ◌==◌, str_eq, stock_unit_not_found, bin_not_found, reservation_not_found,
  product_classification_not_found, empty_sku, empty_bin_id, stow_requires_item_and_location,
  unknown_handling_tag, unknown_temperature_class, no_handling_tags, temperature_class_required,
  temperature_class_not_applicable, duplicate_handling_tag, invalid_dot_hazard_class,
  dot_hazard_class_not_applicable, negative_quantity, zero_quantity, invalid_capacity, bin_full,
  capacity_below_occupancy, release_exceeds_occupancy, insufficient_usable,
  unit_insufficient_usable, insufficient_reserved, unit_unlocated, already_resolved,
  reservation_expired, no_allocations, hazmat_zone_required, temperature_class_mismatch,
  location_classification_unavailable, hazmat_class_incompatible, concurrent_modification,
  infrastructure,
}
use inventory_storage.Http.Errors.{status_for, problem_for, ProblemInfo, internal_server_error}

-- The body speaks of an internal error.
abbrev pub is_internal : ProblemInfo → Bool
is_internal p = str_eq p.slug "internal-error"

-- Every error of the domain and of the use cases is answered as an internal error in the body
-- exactly when its status is 500: the table of problems covers the errors that the statuses cover.
pub internal_problem_iff :
    (e : Error) → is_internal (problem_for e) ≡ (status_for e == internal_server_error)
unfolding problem_for status_for
internal_problem_iff stock_unit_not_found = refl
internal_problem_iff bin_not_found = refl
internal_problem_iff reservation_not_found = refl
internal_problem_iff product_classification_not_found = refl
internal_problem_iff empty_sku = refl
internal_problem_iff empty_bin_id = refl
internal_problem_iff stow_requires_item_and_location = refl
internal_problem_iff unknown_handling_tag = refl
internal_problem_iff unknown_temperature_class = refl
internal_problem_iff no_handling_tags = refl
internal_problem_iff temperature_class_required = refl
internal_problem_iff temperature_class_not_applicable = refl
internal_problem_iff duplicate_handling_tag = refl
internal_problem_iff invalid_dot_hazard_class = refl
internal_problem_iff dot_hazard_class_not_applicable = refl
internal_problem_iff negative_quantity = refl
internal_problem_iff zero_quantity = refl
internal_problem_iff invalid_capacity = refl
internal_problem_iff bin_full = refl
internal_problem_iff capacity_below_occupancy = refl
internal_problem_iff release_exceeds_occupancy = refl
internal_problem_iff insufficient_usable = refl
internal_problem_iff unit_insufficient_usable = refl
internal_problem_iff insufficient_reserved = refl
internal_problem_iff unit_unlocated = refl
internal_problem_iff already_resolved = refl
internal_problem_iff reservation_expired = refl
internal_problem_iff no_allocations = refl
internal_problem_iff hazmat_zone_required = refl
internal_problem_iff temperature_class_mismatch = refl
internal_problem_iff location_classification_unavailable = refl
internal_problem_iff hazmat_class_incompatible = refl
internal_problem_iff concurrent_modification = refl
internal_problem_iff infrastructure = refl
