-- ===== src/UseCases/Allocate.antt =====
-- `allocate` of internal/application/usecases/reserve_stock.go: a quantity is drawn greedily from
-- the usable quantities of the units of a SKU.
pub mod Draws
use inventory_storage.Prelude.{
  List, [], ◌∷◌, Result, ok, err, insufficient_usable, and_then, or_zero, ◌==◌, ltb, if◌then◌else◌,
}
use inventory_storage.Shared.Int.{less}
use inventory_storage.Shared.Quantity
use inventory_storage.Shared.Quantity.{Quantity, greater_than}
use inventory_storage.Stock.{StockUnit, usable, reserve}
use inventory_storage.Reservation.{Allocation}

-- The first loop, with the sum so far. `GetUsable` has the same loop.
unfoldable pub total_usable : Quantity → List StockUnit → Quantity
total_usable total [] = total
total_usable total (unit ∷ units) = total_usable (Quantity.add total (usable unit)) units

unfoldable pub take_from : Quantity → StockUnit → Quantity
take_from remaining unit = if greater_than remaining (usable unit) then usable unit else remaining

-- What a call has drawn: the allocations, the units touched, and what is still to be drawn.
pub record Drawn : Type 0 where
  pub allocations : List Allocation
  pub touched : List StockUnit
  pub remaining : Quantity

abbrev pub nothing_more : Quantity → Drawn
nothing_more remaining = record { allocations = []; touched = []; remaining = remaining }

abbrev pub also_drawn : StockUnit → Quantity → Drawn → Drawn
also_drawn u take d = record d {
  allocations =
      (record { stock_unit_id = u.id; bin_id = u.bin_id; quantity = take }) ∷ d.allocations;
  touched = u ∷ d.touched;
}

-- The second loop.
unfoldable pub draw : Quantity → List StockUnit → Result Drawn
unfolding take_from
draw remaining [] = ok (nothing_more remaining)
draw remaining (unit ∷ units) =
    let later = draw remaining units in
    let take = take_from remaining unit in
    let rest = draw (or_zero 0 (Quantity.sub remaining take)) units in
    if remaining == 0
    then ok (nothing_more remaining)
    else if usable unit == 0
    then later
    else and_then (reserve unit take) λ u. and_then rest λ d. ok (also_drawn u take d)

unfoldable pub enough : Drawn → Result Drawn
enough d = if less 0 d.remaining then err insufficient_usable else ok d

unfoldable pub allocate : List StockUnit → Quantity → Result Drawn
unfolding total_usable draw enough
allocate units qty =
    if greater_than qty (total_usable 0 units)
    then err insufficient_usable
    else and_then (draw qty units) enough
