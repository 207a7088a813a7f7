-- ===== src/UseCases/Stow.antt =====
-- internal/application/usecases/stow_stock.go.
pub mod Segregation
use inventory_storage.Prelude.{
  ℕ, String, Bool, true, false, not, ◌&&◌, ◌||◌, Option, none, some, List, [], ◌∷◌, bin_not_found,
  hazmat_zone_required, temperature_class_mismatch, location_classification_unavailable,
  hazmat_class_incompatible, Result, ok, err, str_eq, ◌==◌, if◌then◌else◌,
}
use inventory_storage.Shared.Events.{Time, item_stowed, location_recorded}
use inventory_storage.Shared.Quantity.{Quantity}
use inventory_storage.Stock
use inventory_storage.Stock.{StockUnit}
use inventory_storage.Location.{Bin, occupy}
use inventory_storage.Product.Classification.{
  ProductClassification, SlotAttributes, is_hazmat, is_temperature_sensitive, unspecified,
  DotHazardClass, contains,
}
use inventory_storage.Product.Segregation.{incompatible}
use inventory_storage.Store.World.{Env, World, Exec, pure, fail, lift, ◌>>=◌, ◌>>◌, now, tick}
use inventory_storage.Store.Repos.{
  find_bin, save_bin, find_units_by_bin, next_unit_id, save_unit, find_classification, publish,
}
use inventory_storage.Store.UnitOfWork.{atomically}

-- What `checkPlacement` makes of the slot that facility-layout knows.
unfoldable pub placement : ProductClassification → Option SlotAttributes → Result (Unit {0})
placement c none = err location_classification_unavailable
placement c (some attrs) =
    if not attrs.known
    then ok tt
    else if is_hazmat c && not attrs.hazmat_rated
    then err hazmat_zone_required
    else if is_temperature_sensitive c && not (str_eq attrs.temperature_class c.temperature_class)
    then err temperature_class_mismatch
    else ok tt

module _ (env : Env) where
  -- `LocationLookup.GetSlotAttributes`
  unfoldable pub get_slot_attributes : String → Exec (Option SlotAttributes)
  get_slot_attributes bin w = (ok (env.slot w.calls bin), tick w)

  unfoldable pub check_classified : String → Option ProductClassification → Exec (Unit {0})
  unfolding get_slot_attributes
  check_classified bin none = pure tt
  check_classified bin (some c) =
      if not (is_hazmat c) && not (is_temperature_sensitive c)
      then pure tt
      else (do attrs ← get_slot_attributes bin; lift (placement c attrs))

  unfoldable pub check_placement : String → String → Exec (Unit {0})
  unfolding check_classified
  check_placement sku bin =
      if not env.classifying || not env.locating
      then pure tt
      else (do c ← find_classification env sku; check_classified bin c)

  -- The verdict on one occupant's classification.
  unfoldable pub against : DotHazardClass → Option ProductClassification → Result (Unit {0})
  against incoming none = ok tt
  against incoming (some c) =
      if incompatible incoming c.dot_hazard_class then err hazmat_class_incompatible else ok tt

  -- The loop over the occupants, with the SKUs seen so far.
  unfoldable pub check_occupants :
      String → DotHazardClass → List String → List StockUnit → Exec (Unit {0})
  unfolding against contains
  check_occupants sku incoming seen [] = pure tt
  check_occupants sku incoming seen (occupant ∷ rest) =
      let skipped = check_occupants sku incoming seen rest in
      let checked = check_occupants sku incoming (occupant.sku ∷ seen) rest in
      if str_eq occupant.sku sku
      then skipped
      else if contains occupant.sku seen
      then skipped
      else (do c ← find_classification env occupant.sku; lift (against incoming c); checked)

  unfoldable pub check_incoming : String → String → Option ProductClassification → Exec (Unit {0})
  unfolding check_occupants
  check_incoming sku bin none = pure tt
  check_incoming sku bin (some c) = if c.dot_hazard_class == unspecified then pure tt else (do
    occupants ← find_units_by_bin env bin
    check_occupants sku c.dot_hazard_class [] occupants)

  unfoldable pub check_segregation : String → String → Exec (Unit {0})
  unfolding check_incoming
  check_segregation sku bin =
      if not env.classifying
      then pure tt
      else (do c ← find_classification env sku; check_incoming sku bin c)

  -- The transaction.
  unfoldable pub record_stow : Time → Bin → StockUnit → Quantity → Exec (Unit {0})
  record_stow t bin unit qty = do
    save_bin env bin
    save_unit env unit
    publish env (item_stowed t unit.sku unit.bin_id qty)
    publish env (location_recorded t unit.id unit.bin_id)

  unfoldable pub stow_into : String → Quantity → String → Option Bin → Exec StockUnit
  unfolding record_stow
  stow_into sku qty bin_id none = fail bin_not_found
  stow_into sku qty bin_id (some bin) = do
    check_placement sku bin_id
    check_segregation sku bin_id
    id ← next_unit_id env
    unit ← lift (Stock.new id sku bin_id qty)
    bin' ← lift (occupy bin qty)
    t ← now env
    atomically env (record_stow t bin' unit qty)
    pure unit

  -- `Execute`
  unfoldable pub execute : String → Quantity → String → Exec StockUnit
  unfolding stow_into
  execute sku qty bin_id = do bin ← find_bin env bin_id; stow_into sku qty bin_id bin
