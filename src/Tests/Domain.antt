-- ===== src/Tests/Domain.antt =====
-- Runs of the operations of internal/domain on stock units, bins and reservations.
use inventory_storage.Prelude.{
  ◌+◌, ◌≤◌, ◌<◌, ◌≡◌, refl, true, [], ◌∷◌, ok, err, sum_by, insufficient_usable, bin_full, ◌==◌,
  arith, ◌↔◌,
}
use inventory_storage.Shared.Int
use inventory_storage.Shared.Int.{IsNonneg}
use inventory_storage.Shared.Quantity
use inventory_storage.Shared.Quantity.{greater_than, is_not_positive}
use inventory_storage.Stock
use inventory_storage.Stock.{StockUnit, usable, reserve, release_reservation, pick}
use inventory_storage.Stock.Stage.{State, is_unlocated_or_removed}
use inventory_storage.Stock.Invariant
use inventory_storage.Stock.Lifecycle
use inventory_storage.Location
use inventory_storage.Location.{Bin, available, occupy, release}
use inventory_storage.Location.Capacity
use inventory_storage.Reservation.Lifecycle.{
  revoking, confirming, expiring, Outcome, run, resolved_once,
}
use inventory_storage.Product.Classification
use inventory_storage.Product.Classification.{hazmat, has_tag, rehydrate, handling_tags}
use inventory_storage.Product.Classification.Laws.{
  IsAcceptable, new-IsAcceptable, has_tag-rehydrate,
}
use inventory_storage.Product.Segregation.{incompatible}
use inventory_storage.Product.Segregation.Matrix.{
  table, cell, incompatible-table, incompatible_comm,
}
use inventory_storage.UseCases.Allocate.{Drawn, allocate}
use inventory_storage.UseCases.Allocate.Draws.{Draws, allocated, allocate-Draws}
use inventory_storage.UseCases.Allocate.Draws.Sound.{allocate-IsDrawn}
use inventory_storage.Http.Errors.{status_for, problem_for}
use inventory_storage.Http.Agreement.{is_internal, internal_problem_iff}
use inventory_storage.Tests.Data.{
  bolts, acid, shelf, order, corrosive, bolts-IsValid, acid-IsValid, shelf-IsValid,
}

abbrev bolts_more : StockUnit
bolts_more = record bolts { reserved = 7 }

abbrev lost_bolts : StockUnit
lost_bolts = record bolts { state = State.unlocated }

lost_bolts-IsValid : Invariant.IsValid lost_bolts
lost_bolts-IsValid = record {
  in_range = omega arith;
  within = omega arith;
  removed_empty = λ h. cc;
  available_free = λ h. cc;
}

abbrev new_bolts : StockUnit
new_bolts = record {
  id = "su-2";
  sku = "BOLT";
  bin_id = "A-1";
  quantity = 6;
  reserved = 0;
  state = State.available;
  version = 1;
}

Reach-IsValid_example : Invariant.IsValid new_bolts
unfolding Stock.new is_not_positive Int.less_eq
Reach-IsValid_example =
    Lifecycle.Reach-IsValid new_bolts
      (Lifecycle.stowed "su-2" "BOLT" "A-1" 6 new_bolts (omega arith) refl)

abbrev new_shelf : Bin
new_shelf = record { id = "A-3"; capacity = 6; occupied = 0; version = 1 }

Registered-IsValid_example : Capacity.IsValid new_shelf
unfolding Location.new is_not_positive Int.less_eq
Registered-IsValid_example =
    Capacity.Registered-IsValid new_shelf (Capacity.registered "A-3" 6 new_shelf (omega arith) refl)

release-reserve_example :
    (u : StockUnit) × (release_reservation bolts_more 3 ≡ ok u)
    × (u.reserved ≡ 4)
    × (u.quantity ≡ 10)
    × (usable u ≡ usable bolts)
unfolding reserve usable is_unlocated_or_removed greater_than Quantity.add Quantity.sub Int.add
    Int.sub Int.less Int.less_eq Int.is_negative
release-reserve_example =
    Lifecycle.release-reserve bolts bolts_more 3 bolts-IsValid (omega arith) refl

abbrev picked_bolts : StockUnit
picked_bolts = record bolts { quantity = 6; reserved = 0; state = State.picked }

pick_conserves_example :
    (picked_bolts.quantity + 4 ≡ bolts.quantity)
    × (picked_bolts.reserved + 4 ≡ bolts.reserved)
    × (usable picked_bolts ≡ usable bolts)
unfolding pick is_unlocated_or_removed greater_than Quantity.add Quantity.sub Int.add Int.sub
    Int.less Int.less_eq Int.is_negative
pick_conserves_example =
    Lifecycle.pick_conserves bolts picked_bolts 4 bolts-IsValid (omega arith) refl refl

pick_revives_unlocated_example :
    (usable lost_bolts ≡ 0) × ((u : StockUnit) × (pick lost_bolts 4 ≡ ok u) × (usable u ≡ 6))
pick_revives_unlocated_example =
    Lifecycle.pick_revives_unlocated lost_bolts lost_bolts 4 lost_bolts-IsValid (omega arith) refl
      (omega arith) (omega arith)

release-occupy_example :
    (3 ≤ available shelf → (b : Bin) × (occupy shelf 3 ≡ ok b) × (release b 3 ≡ ok shelf))
    × (available shelf < 3 → occupy shelf 3 ≡ err bin_full)
release-occupy_example = Capacity.release-occupy shelf 3 shelf-IsValid (omega arith) (omega arith)

occupy_overflows_example :
    (b : Bin) × (occupy shelf 9223372036854775800 ≡ ok b) × (Int.is_negative b.occupied ≡ true)
occupy_overflows_example =
    Capacity.occupy_overflows shelf 9223372036854775800 shelf-IsValid (omega arith) (omega arith)

resolved_once_example : Outcome order (run order (confirming 2000 ∷ revoking ∷ expiring ∷ []))
resolved_once_example = resolved_once (confirming 2000 ∷ revoking ∷ expiring ∷ []) order

incompatible-table_example : incompatible 3 8 ≡ cell table 3 8
incompatible-table_example = incompatible-table 3 8 (omega arith) (omega arith)

incompatible_comm_example :
    (incompatible 5 8 ≡ incompatible 8 5) × (1 ≤ 5 → 5 ≤ 9 → incompatible 1 5 ≡ true)
incompatible_comm_example = incompatible_comm 5 8 (omega arith) (omega arith)

new-IsAcceptable_example :
    (Classification.new "ACID" (hazmat ∷ []) "" 8 ≡ ok corrosive)
    ↔ (IsAcceptable "ACID" (hazmat ∷ []) "" 8 × (corrosive ≡ corrosive))
new-IsAcceptable_example = new-IsAcceptable "ACID" (hazmat ∷ []) "" 8 corrosive (omega arith)

has_tag-rehydrate_example :
    has_tag (rehydrate "ACID" (handling_tags corrosive) "" 8) hazmat ≡ has_tag corrosive hazmat
unfolding Classification.is_handling_tag
has_tag-rehydrate_example = has_tag-rehydrate corrosive hazmat (refl, tt)

allocate-Draws_example :
    (8 ≤ 11
      → (d : Drawn) × (allocate (bolts ∷ acid ∷ []) 8 ≡ ok d)
        × Draws (bolts ∷ acid ∷ []) d.allocations d.touched
        × (sum_by allocated d.allocations ≡ 8))
    × (11 < 8 → allocate (bolts ∷ acid ∷ []) 8 ≡ err insufficient_usable)
unfolding usable is_unlocated_or_removed Quantity.add Quantity.sub Int.add Int.sub Int.less
    Int.less_eq Int.is_negative
allocate-Draws_example =
    allocate-Draws (bolts ∷ acid ∷ []) 8 (bolts-IsValid, (acid-IsValid, tt)) (omega arith)
      (omega arith)

abbrev drawn_bolts : Drawn
drawn_bolts = record {
  allocations = (record { stock_unit_id = "su-bolts"; bin_id = "A-1"; quantity = 3 }) ∷ [];
  touched = bolts_more ∷ [];
  remaining = 0;
}

allocate-IsDrawn_example : Draws (bolts ∷ []) drawn_bolts.allocations drawn_bolts.touched
unfolding allocate reserve usable is_unlocated_or_removed greater_than Quantity.add Quantity.sub
    Int.add Int.sub Int.less Int.less_eq Int.is_negative
allocate-IsDrawn_example =
    allocate-IsDrawn (bolts ∷ []) 3 drawn_bolts (bolts-IsValid, tt) (omega arith) refl

internal_problem_iff_example : is_internal (problem_for bin_full) ≡ (status_for bin_full == 500)
internal_problem_iff_example = internal_problem_iff bin_full
