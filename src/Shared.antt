-- ===== src/Shared.antt =====
-- internal/domain/shared: the value objects and the domain events.
pub mod Int
pub mod Quantity
pub mod Events
use inventory_storage.Prelude.{
  String, Result, ok, err, empty_sku, empty_bin_id, str_eq, if◌then◌else◌,
}

abbrev pub Sku : Type 0
Sku = String

abbrev pub BinId : Type 0
BinId = String

-- `NewSKU`
unfoldable pub new_sku : String → Result Sku
new_sku value = if str_eq value "" then err empty_sku else ok value

-- `NewBinId`
unfoldable pub new_bin_id : String → Result BinId
new_bin_id value = if str_eq value "" then err empty_bin_id else ok value
