-- ===== src/Stock/Invariant.antt =====
-- What holds of a stock unit between two operations, and each operation of
-- internal/domain/stock/stock_unit.go on a unit of which that holds, in plain arithmetic.
use inventory_storage.Prelude.{
  ◌+◌, ◌-◌, ◌≤◌, ◌≡◌, ok, err, unit_insufficient_usable, insufficient_reserved, unit_unlocated,
  arith, ltb, ◌==◌, if◌then◌else◌,
}
use inventory_storage.Shared.Int.{IsNonneg}
use inventory_storage.Shared.Quantity
use inventory_storage.Shared.Quantity.{Quantity}
use inventory_storage.Stock.{StockUnit, usable, reserve, released_state, release_reservation, pick}
use inventory_storage.Stock.Stage.{State, is_unlocated_or_removed}

-- The reserved part is within the quantity, which is a Go `int`; a unit is removed when nothing is
-- left, and an available unit has nothing reserved.
pub record IsValid (u : StockUnit) : Type 0 where
  pub in_range : IsNonneg u.quantity
  pub within : u.reserved ≤ u.quantity
  pub removed_empty : u.state ≡ State.removed → u.quantity ≡ 0
  pub available_free : u.state ≡ State.available → u.reserved ≡ 0

module _ (u : StockUnit) (v : IsValid u) where
  pub usable-lem :
      usable u ≡ (if is_unlocated_or_removed u.state then 0 else u.quantity - u.reserved)
  unfolding usable is_unlocated_or_removed
  usable-lem = ground (arith, Quantity.sub-nonneg u.quantity u.reserved v.in_range)

  pub usable-le : usable u ≤ u.quantity - u.reserved
  unfolding is_unlocated_or_removed
  usable-le = ground (arith, usable-lem)

  module _ (q : Quantity) (hq : IsNonneg q) where
    pub reserve-lem : reserve u q ≡ (
        if is_unlocated_or_removed u.state
        then err unit_unlocated
        else if ltb (u.quantity - u.reserved) q
        then err unit_insufficient_usable
        else ok (record u { reserved = u.reserved + q; state = State.reserved }))
    unfolding reserve is_unlocated_or_removed
    reserve-lem = ground (
      arith,
      usable-lem,
      Quantity.greater_than-nonneg q (u.quantity - u.reserved),
      Quantity.sub-nonneg u.quantity u.reserved,
      Quantity.add-nonneg u.reserved q,
    )

    pub release-lem : release_reservation u q ≡ (
        if ltb u.reserved q
        then err insufficient_reserved
        else ok (record u {
          reserved = u.reserved - q;
          state = released_state (u.reserved - q) u.state;
        }))
    unfolding release_reservation
    release-lem = ground (arith, Quantity.sub-nonneg u.reserved q)

    pub pick-lem : pick u q ≡ (
        if ltb u.reserved q
        then err insufficient_reserved
        else ok (record u {
          reserved = u.reserved - q;
          quantity = u.quantity - q;
          state = if (u.quantity - q) == 0 then State.removed else State.picked;
        }))
    unfolding pick
    pick-lem = ground (arith, Quantity.sub-nonneg u.reserved q, Quantity.sub-nonneg u.quantity q)
