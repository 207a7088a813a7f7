-- ===== src/UseCases/CycleCount.antt =====
-- internal/application/usecases/run_cycle_count.go.
pub mod Shortfall
use inventory_storage.Prelude.{
  String, Bool, true, false, not, List, [], ◌∷◌, select, or_zero, ◌==◌, if◌then◌else◌,
}
use inventory_storage.Shared.Events.{
  Time, item_unlocated, cycle_count_completed, discrepancy_detected,
}
use inventory_storage.Shared.Quantity
use inventory_storage.Shared.Quantity.{Quantity, greater_than}
use inventory_storage.Stock.{StockUnit, mark_unlocated}
use inventory_storage.Stock.Stage.{is_unlocated_or_removed}
use inventory_storage.Store.World.{Env, Exec, pure, ◌>>=◌, ◌>>◌, now}
use inventory_storage.Store.Repos.{find_units_by_bin, save_unit, publish}
use inventory_storage.Store.UnitOfWork.{atomically}

pub record CycleCountResult : Type 0 where
  pub bin_id : String
  pub counted_qty : Quantity
  pub system_qty : Quantity
  pub discrepancy : Bool

-- `locatableUnits`: the sum so far, and the units.
unfoldable pub system_quantity : Quantity → List StockUnit → Quantity
system_quantity acc [] = acc
system_quantity acc (unit ∷ units) =
    system_quantity
      (if is_unlocated_or_removed unit.state then acc else Quantity.add acc unit.quantity) units

unfoldable pub locatable : List StockUnit → List StockUnit
locatable units = select (λ u. not (is_unlocated_or_removed u.state)) units

-- What one unit contributes to the shortfall.
unfoldable pub lost_part : Quantity → StockUnit → Quantity
lost_part shortfall unit =
    if not (greater_than shortfall unit.quantity) then shortfall else unit.quantity

module _ (env : Env) where
  unfoldable pub mark_shortfall_unlocated :
      String → List StockUnit → Quantity → Time → Exec (Unit {0})
  unfolding lost_part mark_unlocated
  mark_shortfall_unlocated bin_id [] shortfall t = pure tt
  mark_shortfall_unlocated bin_id (unit ∷ units) shortfall t =
      let take = lost_part shortfall unit in
      let rest =
        mark_shortfall_unlocated bin_id units (or_zero 0 (Quantity.sub shortfall take)) t in
      if shortfall == 0 then pure tt else (do
        save_unit env (mark_unlocated unit)
        publish env (item_unlocated t unit.id unit.sku bin_id take)
        rest)

  unfoldable pub complete : Time → String → Quantity → Quantity → Bool → Exec CycleCountResult
  complete t bin_id counted system discrepancy = do
    publish env (cycle_count_completed t bin_id counted system discrepancy)
    pure (record {
      bin_id = bin_id;
      counted_qty = counted;
      system_qty = system;
      discrepancy = discrepancy;
    })

  -- The transaction.
  unfoldable pub reconcile :
      Time → String → Quantity → Quantity → List StockUnit → Exec CycleCountResult
  unfolding mark_shortfall_unlocated complete
  reconcile t bin_id counted system units =
      if counted == system then complete t bin_id counted system false else (do
        publish env (discrepancy_detected t bin_id counted system)
        if greater_than counted system then complete t bin_id counted system true else (do
          mark_shortfall_unlocated bin_id units (or_zero 0 (Quantity.sub system counted)) t
          complete t bin_id counted system true))

  -- `Execute`
  unfoldable pub execute : String → Quantity → Exec CycleCountResult
  unfolding system_quantity locatable reconcile
  execute bin_id counted = do
    units ← find_units_by_bin env bin_id
    t ← now env
    atomically env (reconcile t bin_id counted (system_quantity 0 units) (locatable units))
