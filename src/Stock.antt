-- ===== src/Stock.antt =====
-- internal/domain/stock: the StockUnit aggregate. A method with a pointer receiver returns the new
-- unit; where it returns an error it has changed nothing. `version` is the optimistic-concurrency
-- number, which only the repository reads.
pub mod Stage
pub mod Invariant
pub mod Lifecycle
use inventory_storage.Prelude.{
  ℕ, String, Bool, Result, ok, err, zero_quantity, stow_requires_item_and_location,
  unit_insufficient_usable, insufficient_reserved, unit_unlocated, str_eq, ◌||◌, or_zero, ◌==◌,
  ◌&&◌, if◌then◌else◌,
}
use inventory_storage.Shared.Quantity
use inventory_storage.Shared.Quantity.{Quantity, is_not_positive, greater_than}
use Stage.{State, is_unlocated_or_removed, is_reserved}

pub record StockUnit : Type 0 where
  pub id : String
  pub sku : String
  pub bin_id : String
  pub quantity : Quantity
  pub reserved : Quantity
  pub state : State
  pub version : ℕ

-- `NewStockUnit`
unfoldable pub new : String → String → String → Quantity → Result StockUnit
new id sku bin_id qty =
    if str_eq sku "" || str_eq bin_id ""
    then err stow_requires_item_and_location
    else if is_not_positive qty
    then err zero_quantity
    else ok (record {
      id = id;
      sku = sku;
      bin_id = bin_id;
      quantity = qty;
      reserved = 0;
      state = State.available;
      version = 1;
    })

unfoldable pub usable : StockUnit → Quantity
usable u =
    if is_unlocated_or_removed u.state then 0 else or_zero 0 (Quantity.sub u.quantity u.reserved)

unfoldable pub reserve : StockUnit → Quantity → Result StockUnit
unfolding usable
reserve u qty =
    if is_unlocated_or_removed u.state
    then err unit_unlocated
    else if greater_than qty (usable u)
    then err unit_insufficient_usable
    else ok (record u { reserved = Quantity.add u.reserved qty; state = State.reserved })

-- The state after a release that leaves `remaining` reserved.
unfoldable pub released_state : Quantity → State → State
released_state remaining s = if remaining == 0 && is_reserved s then State.available else s

released : StockUnit → Result Quantity → Result StockUnit
released u (err e) = err insufficient_reserved
released u (ok remaining) =
    ok (record u { reserved = remaining; state = released_state remaining u.state })

-- `ReleaseReservation`
unfoldable pub release_reservation : StockUnit → Quantity → Result StockUnit
unfolding released released_state
release_reservation u qty = released u (Quantity.sub u.reserved qty)

picked : StockUnit → Result Quantity → Result Quantity → Result StockUnit
picked u (err e) remaining_qty = err insufficient_reserved
picked u (ok remaining_reserved) (err e) = err insufficient_reserved
picked u (ok remaining_reserved) (ok remaining_qty) = ok (record u {
  reserved = remaining_reserved;
  quantity = remaining_qty;
  state = if remaining_qty == 0 then State.removed else State.picked;
})

unfoldable pub pick : StockUnit → Quantity → Result StockUnit
unfolding picked
pick u qty = picked u (Quantity.sub u.reserved qty) (Quantity.sub u.quantity qty)

unfoldable pub mark_unlocated : StockUnit → StockUnit
mark_unlocated u = record u { state = State.unlocated }
