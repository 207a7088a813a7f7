-- ===== src/Mcp/Occupancy.antt =====
-- The occupancy of a bin in mapping.go, against the count of what the use cases may draw.
use inventory_storage.Prelude.{◌≡◌, refl, String, List, [], ◌∷◌}
use inventory_storage.Shared.Quantity
use inventory_storage.Stock.{StockUnit}
use inventory_storage.UseCases.Allocate.{total_usable}
use inventory_storage.Mcp.Tools.{BinOccupancy, add_unit, add_units, to_bin_occupancy}

usable-add_units :
    (units : List StockUnit) (occ : BinOccupancy)
    → (add_units occ units).usable ≡ total_usable occ.usable units
unfolding add_units add_unit total_usable Quantity.add
usable-add_units [] occ = refl
usable-add_units (u ∷ units) occ = usable-add_units units (add_unit occ u)

-- The usable quantity that the tool shows of a bin's units is what an allocation from them can draw.
usable-to_bin_occupancy :
    (id : String) (units : List StockUnit)
    → (to_bin_occupancy id units).usable ≡ total_usable 0 units
unfolding to_bin_occupancy
usable-to_bin_occupancy id units = usable-add_units units _
