-- ===== src/Http/Errors.antt =====
-- internal/adapters/inbound/http/errors.go: what an error becomes in a response. `errors.Is` is the
-- identity of the sentinel errors: an error that wraps one stands for that one.
use inventory_storage.Prelude.{
  ℕ, String, Bool, List, [], ◌∷◌, Error, stock_unit_not_found, bin_not_found, reservation_not_found,
  product_classification_not_found, empty_sku, empty_bin_id, stow_requires_item_and_location,
  unknown_handling_tag, unknown_temperature_class, no_handling_tags, temperature_class_required,
  temperature_class_not_applicable, duplicate_handling_tag, invalid_dot_hazard_class,
  dot_hazard_class_not_applicable, negative_quantity, zero_quantity, invalid_capacity, bin_full,
  capacity_below_occupancy, release_exceeds_occupancy, insufficient_usable,
  unit_insufficient_usable, insufficient_reserved, unit_unlocated, already_resolved,
  reservation_expired, no_allocations, hazmat_zone_required, temperature_class_mismatch,
  location_classification_unavailable, hazmat_class_incompatible, concurrent_modification,
  infrastructure, ◌==◌, if◌then◌else◌,
}

-- The status codes of net/http that are used.
abbrev pub not_found : ℕ
not_found = 404

abbrev pub bad_request : ℕ
bad_request = 400

abbrev pub unprocessable_entity : ℕ
unprocessable_entity = 422

abbrev pub conflict : ℕ
conflict = 409

abbrev pub internal_server_error : ℕ
internal_server_error = 500

-- `statusFor`
unfoldable pub status_for : Error → ℕ
status_for stock_unit_not_found = not_found
status_for bin_not_found = not_found
status_for reservation_not_found = not_found
status_for product_classification_not_found = not_found
status_for empty_sku = bad_request
status_for empty_bin_id = bad_request
status_for stow_requires_item_and_location = bad_request
status_for unknown_handling_tag = bad_request
status_for unknown_temperature_class = bad_request
status_for no_handling_tags = bad_request
status_for temperature_class_required = bad_request
status_for temperature_class_not_applicable = bad_request
status_for duplicate_handling_tag = bad_request
status_for invalid_dot_hazard_class = bad_request
status_for dot_hazard_class_not_applicable = bad_request
status_for negative_quantity = unprocessable_entity
status_for zero_quantity = unprocessable_entity
status_for invalid_capacity = unprocessable_entity
status_for bin_full = conflict
status_for capacity_below_occupancy = conflict
status_for release_exceeds_occupancy = conflict
status_for insufficient_usable = conflict
status_for unit_insufficient_usable = conflict
status_for insufficient_reserved = conflict
status_for unit_unlocated = conflict
status_for already_resolved = conflict
status_for reservation_expired = conflict
status_for no_allocations = conflict
status_for hazmat_zone_required = conflict
status_for temperature_class_mismatch = conflict
status_for location_classification_unavailable = conflict
status_for hazmat_class_incompatible = conflict
status_for concurrent_modification = conflict
status_for _ = internal_server_error

-- The sentinel errors, told apart by a number.
abbrev number_of : Error → ℕ
number_of stock_unit_not_found = 1
number_of bin_not_found = 2
number_of reservation_not_found = 3
number_of product_classification_not_found = 4
number_of empty_sku = 5
number_of empty_bin_id = 6
number_of stow_requires_item_and_location = 7
number_of unknown_handling_tag = 8
number_of unknown_temperature_class = 9
number_of no_handling_tags = 10
number_of temperature_class_required = 11
number_of temperature_class_not_applicable = 12
number_of duplicate_handling_tag = 13
number_of invalid_dot_hazard_class = 14
number_of dot_hazard_class_not_applicable = 15
number_of negative_quantity = 16
number_of zero_quantity = 17
number_of invalid_capacity = 18
number_of bin_full = 19
number_of capacity_below_occupancy = 20
number_of release_exceeds_occupancy = 21
number_of insufficient_usable = 22
number_of unit_insufficient_usable = 23
number_of insufficient_reserved = 24
number_of unit_unlocated = 25
number_of already_resolved = 26
number_of reservation_expired = 27
number_of no_allocations = 28
number_of hazmat_zone_required = 29
number_of temperature_class_mismatch = 30
number_of location_classification_unavailable = 31
number_of hazmat_class_incompatible = 32
number_of concurrent_modification = 33
number_of infrastructure = 0

-- `errors.Is`
unfoldable pub is_error : Error → Error → Bool
is_error e target = number_of e == number_of target

pub record ProblemInfo : Type 0 where
  pub slug : String
  pub title : String

-- One row of `problemCatalog`.
abbrev entry : Error → String → String → Error × ProblemInfo
entry e slug title = (e, record { slug = slug; title = title })

abbrev pub problem_catalog : List (Error × ProblemInfo)
problem_catalog =
    entry stock_unit_not_found "stock-unit-not-found" "Stock unit not found"
    ∷ entry bin_not_found "bin-not-found" "Bin not found"
    ∷ entry reservation_not_found "reservation-not-found" "Reservation not found"
    ∷ entry product_classification_not_found "product-classification-not-found"
        "Product classification not found"
    ∷ entry empty_sku "empty-sku" "SKU must not be empty"
    ∷ entry empty_bin_id "empty-bin-id" "Bin ID must not be empty"
    ∷ entry stow_requires_item_and_location "stow-requires-item-and-location"
        "Stow requires both an item scan and a location scan"
    ∷ entry unknown_handling_tag "unknown-handling-tag" "Unknown handling tag"
    ∷ entry unknown_temperature_class "unknown-temperature-class" "Unknown temperature class"
    ∷ entry no_handling_tags "no-handling-tags" "Classification requires at least one handling tag"
    ∷ entry temperature_class_required "temperature-class-required"
        "Temperature-sensitive classification requires a temperature class"
    ∷ entry temperature_class_not_applicable "temperature-class-not-applicable"
        "Temperature class is only meaningful when the temperature-sensitive tag is present"
    ∷ entry duplicate_handling_tag "duplicate-handling-tag" "Duplicate handling tag"
    ∷ entry invalid_dot_hazard_class "invalid-dot-hazard-class"
        "DOT hazard class must be between 1 and 9"
    ∷ entry dot_hazard_class_not_applicable "dot-hazard-class-not-applicable"
        "DOT hazard class is only meaningful when the hazmat tag is present"
    ∷ entry negative_quantity "negative-quantity" "Quantity must not be negative"
    ∷ entry zero_quantity "zero-quantity" "Quantity must be greater than zero"
    ∷ entry invalid_capacity "invalid-bin-capacity" "Bin capacity must be greater than zero"
    ∷ entry bin_full "bin-full" "Bin is full: capacity exceeded"
    ∷ entry capacity_below_occupancy "capacity-below-occupancy"
        "Bin capacity cannot be set below current occupancy"
    ∷ entry release_exceeds_occupancy "release-exceeds-occupancy" "Release exceeds bin occupancy"
    ∷ entry insufficient_usable "insufficient-usable" "Requested quantity exceeds usable inventory"
    ∷ entry unit_insufficient_usable "insufficient-usable"
        "Requested quantity exceeds usable inventory"
    ∷ entry insufficient_reserved "insufficient-reserved" "Pick quantity exceeds reserved quantity"
    ∷ entry unit_unlocated "unit-unlocated" "Stock unit is unlocated"
    ∷ entry already_resolved "reservation-already-resolved" "Reservation is already resolved"
    ∷ entry reservation_expired "reservation-expired" "Reservation has expired"
    ∷ entry no_allocations "reservation-no-allocations"
        "Reservation requires at least one allocation"
    ∷ entry hazmat_zone_required "hazmat-zone-required" "Hazmat SKU requires a hazmat-rated zone"
    ∷ entry temperature_class_mismatch "temperature-class-mismatch"
        "Bin temperature class does not match the SKU's required temperature class"
    ∷ entry location_classification_unavailable "location-classification-unavailable"
        "Location classification lookup unavailable"
    ∷ entry hazmat_class_incompatible "hazmat-class-incompatible"
        "DOT hazard class incompatible with another SKU already stowed in this bin"
    ∷ entry concurrent_modification "concurrent-modification"
        "The resource was modified by another request; re-fetch the latest version and retry"
    ∷ []

abbrev pub internal_error : ProblemInfo
internal_error = record { slug = "internal-error"; title = "An unexpected internal error occurred" }

-- The walk of `problemFor`.
unfoldable pub first_problem : Error → List (Error × ProblemInfo) → ProblemInfo
unfolding is_error
first_problem e [] = internal_error
first_problem e ((target, info) ∷ rest) =
    let later = first_problem e rest in if is_error e target then info else later

unfoldable pub problem_for : Error → ProblemInfo
unfolding first_problem
problem_for e = first_problem e problem_catalog
