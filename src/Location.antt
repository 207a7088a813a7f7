-- ===== src/Location.antt =====
-- internal/domain/location/bin.go: the Bin aggregate, a coded slot with a capacity.
pub mod Capacity
use inventory_storage.Prelude.{
  ℕ, String, Bool, Result, ok, err, empty_bin_id, invalid_capacity, zero_quantity, bin_full,
  release_exceeds_occupancy, capacity_below_occupancy, str_eq, ◌||◌, or_zero, ◌==◌, if◌then◌else◌,
}
use inventory_storage.Shared.Quantity
use inventory_storage.Shared.Quantity.{Quantity, is_not_positive, greater_than}

pub record Bin : Type 0 where
  pub id : String
  pub capacity : Quantity
  pub occupied : Quantity
  pub version : ℕ

-- `NewBin`
unfoldable pub new : String → Quantity → Result Bin
new id capacity =
    if str_eq id ""
    then err empty_bin_id
    else if is_not_positive capacity
    then err invalid_capacity
    else ok (record { id = id; capacity = capacity; occupied = 0; version = 1 })

unfoldable pub available : Bin → Quantity
available b = or_zero 0 (Quantity.sub b.capacity b.occupied)

unfoldable pub is_full : Bin → Bool
is_full b = greater_than b.occupied b.capacity || b.occupied == b.capacity

unfoldable pub occupy : Bin → Quantity → Result Bin
occupy b qty =
    if is_not_positive qty
    then err zero_quantity
    else if greater_than (Quantity.add b.occupied qty) b.capacity
    then err bin_full
    else ok (record b { occupied = Quantity.add b.occupied qty })

freed : Bin → Result Quantity → Result Bin
freed b (err e) = err release_exceeds_occupancy
freed b (ok remaining) = ok (record b { occupied = remaining })

unfoldable pub release : Bin → Quantity → Result Bin
unfolding freed
release b qty =
    if is_not_positive qty then err zero_quantity else freed b (Quantity.sub b.occupied qty)

unfoldable pub resize : Bin → Quantity → Result Bin
resize b capacity =
    if is_not_positive capacity
    then err invalid_capacity
    else if greater_than b.occupied capacity
    then err capacity_below_occupancy
    else ok (record b { capacity = capacity })
