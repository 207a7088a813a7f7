-- ===== src/Shared/Quantity.antt =====
-- internal/domain/shared/quantity.go. `Quantity` is a Go `int`; a value that `new` accepted is not
-- negative.
use inventory_storage.Prelude.{
  ◌+◌, ◌-◌, ◌≡◌, Bool, Result, ok, err, negative_quantity, zero_quantity, arith, ltb, leb,
  if◌then◌else◌,
}
use inventory_storage.Shared.Int.{Int64, IsNonneg, less, less_eq, less-nonneg, less_eq-nonneg}
use inventory_storage.Shared.Int

abbrev pub Quantity : Type 0
Quantity = Int64

-- `NewQuantity`
unfoldable pub new : Int64 → Result Quantity
new value = if less value 0 then err negative_quantity else ok value

-- `NewPositiveQuantity`
unfoldable pub new_positive : Int64 → Result Quantity
new_positive value = if less_eq value 0 then err zero_quantity else ok value

unfoldable pub add : Quantity → Quantity → Quantity
add q other = Int.add q other

unfoldable pub sub : Quantity → Quantity → Result Quantity
sub q other =
    let result = Int.sub q other in if less result 0 then err negative_quantity else ok result

unfoldable pub greater_than : Quantity → Quantity → Bool
greater_than q other = less other q

module _ (q other : Quantity) (hq : IsNonneg q) (ho : IsNonneg other) where
  -- Subtraction of quantities is that of numbers, or the error.
  pub sub-nonneg : sub q other ≡ (if ltb q other then err negative_quantity else ok (q - other))
  unfolding sub less Int.sub
  sub-nonneg = ground arith

  pub greater_than-nonneg : greater_than q other ≡ ltb other q
  unfolding greater_than
  greater_than-nonneg = less-nonneg other q ho hq

  pub add-nonneg : IsNonneg (q + other) → add q other ≡ q + other
  unfolding add
  add-nonneg h = Int.add-nonneg q other hq ho h

-- `qty.Int() <= 0`
unfoldable pub is_not_positive : Quantity → Bool
is_not_positive q = less_eq q 0

pub is_not_positive-nonneg : (q : Quantity) → IsNonneg q → is_not_positive q ≡ leb q 0
unfolding is_not_positive
is_not_positive-nonneg q h = less_eq-nonneg q 0 h (omega arith)
