-- ===== src/Stock/Lifecycle.antt =====
-- The lifecycle of a stock unit: every operation keeps it valid, a release undoes a reserve, and a
-- pick takes the same quantity from the reserved part and from the stock at hand.
use inventory_storage.Prelude.{String, ◌+◌, ◌-◌, ◌≤◌, ◌<◌, ◌≡◌, refl, false, ok, arith}
use inventory_storage.Shared.Int.{IsNonneg}
use inventory_storage.Shared.Quantity.{Quantity, is_not_positive-nonneg}
use inventory_storage.Stock.{
  StockUnit, new, usable, reserve, released_state, release_reservation, pick, mark_unlocated,
}
use inventory_storage.Stock.Stage.{State, is_unlocated_or_removed, is_reserved}
use inventory_storage.Stock.Invariant.{IsValid, usable-lem, reserve-lem, release-lem, pick-lem}

-- A successful operation on a stock unit.
pub data Step (u : StockUnit) (u' : StockUnit) : Type 0 where
  reserving : (q : Quantity) → IsNonneg q → reserve u q ≡ ok u' → Step u u'
  releasing : (q : Quantity) → IsNonneg q → release_reservation u q ≡ ok u' → Step u u'
  picking : (q : Quantity) → IsNonneg q → pick u q ≡ ok u' → Step u u'
  losing : mark_unlocated u ≡ u' → Step u u'

-- A unit that a successful stow and any operations after it lead to.
pub data Reach : StockUnit → Type 0 where
  stowed :
      (id sku bin : String) (q : Quantity) (u : StockUnit)
      → IsNonneg q
      → new id sku bin q ≡ ok u
      → Reach u
  next : (t u : StockUnit) → Reach t → Step t u → Reach u

pub new-IsValid :
    (id sku bin : String) (q : Quantity) (u : StockUnit)
    → IsNonneg q
    → new id sku bin q ≡ ok u
    → IsValid u
unfolding new
new-IsValid id sku bin q u hq h = ground (arith, is_not_positive-nonneg q)

pub Step-IsValid : (u u' : StockUnit) → IsValid u → Step u u' → IsValid u'
unfolding mark_unlocated is_unlocated_or_removed released_state is_reserved
Step-IsValid u u' v (reserving q hq h) = ground (arith, reserve-lem u v q hq)
Step-IsValid u u' v (releasing q hq h) = ground (arith, release-lem u v q hq)
Step-IsValid u u' v (picking q hq h) = ground (arith, pick-lem u v q hq)
Step-IsValid u u' v (losing h) = ground arith

-- Whatever succeeds on a stock unit from its stow on, its reserved quantity stays within its
-- quantity, it is empty once removed, and it has nothing reserved while available.
pub Reach-IsValid : (u : StockUnit) → Reach u → IsValid u
Reach-IsValid _ (stowed id sku bin q u hq h) = new-IsValid id sku bin q u hq h
Reach-IsValid _ (next t u r s) = Step-IsValid t u (Reach-IsValid t r) s

module _ (u u' : StockUnit) (q : Quantity) (v : IsValid u) (hq : IsNonneg q) where
  reserve-inv :
      reserve u q ≡ ok u'
      → (u' ≡ record u { reserved = u.reserved + q; state = State.reserved })
        × (is_unlocated_or_removed u.state ≡ false)
        × (u.reserved + q ≤ u.quantity)
  unfolding is_unlocated_or_removed
  reserve-inv h = ground (arith, reserve-lem u v q hq)

  -- What a valid unit has reserved can be released again, and then the unit has the reserved and
  -- the usable quantity that it had before.
  pub release-reserve :
      reserve u q ≡ ok u'
      → (u'' : StockUnit) × (release_reservation u' q ≡ ok u'')
        × (u''.reserved ≡ u.reserved)
        × (u''.quantity ≡ u.quantity)
        × (usable u'' ≡ usable u)
  unfolding is_unlocated_or_removed released_state is_reserved
  release-reserve h =
      let (e, live, fits) = reserve-inv h in
      let v' : IsValid u' = Step-IsValid u u' v (reserving q hq h) in
      let w : StockUnit = record u {
        reserved = u.reserved;
        state = released_state u.reserved State.reserved;
      } in
      let back : release_reservation u' q ≡ ok w =
        ground (arith, e, fits, release-lem u' v' q hq) in
      let valid : IsValid w = Step-IsValid u' w v' (releasing q hq back) in
      (w, back, refl, refl, ground (arith, live, usable-lem u v, usable-lem w valid))

  -- A pick takes the picked quantity from the reserved part and from the quantity of a valid unit,
  -- and leaves the usable quantity of a unit that is neither unlocated nor removed as it was.
  pub pick_conserves :
      pick u q ≡ ok u'
      → is_unlocated_or_removed u.state ≡ false
      → (u'.quantity + q ≡ u.quantity) × (u'.reserved + q ≡ u.reserved) × (usable u' ≡ usable u)
  unfolding is_unlocated_or_removed
  pick_conserves h live = ground (
    arith,
    pick-lem u v q hq,
    usable-lem u v,
    usable-lem u' (Step-IsValid u u' v (picking q hq h)),
  )

  -- `Pick` does not ask for the state: a pick of part of an unlocated valid unit makes the rest of
  -- its free quantity usable again, although nobody knows where the unit is.
  pub pick_revives_unlocated :
      u.state ≡ State.unlocated
      → q ≤ u.reserved
      → q < u.quantity
      → (usable u ≡ 0)
        × ((w : StockUnit) × (pick u q ≡ ok w) × (usable w ≡ u.quantity - u.reserved))
  unfolding is_unlocated_or_removed
  pick_revives_unlocated lost h k =
      let w : StockUnit = record u {
        reserved = u.reserved - q;
        quantity = u.quantity - q;
        state = State.picked;
      } in
      let done : pick u q ≡ ok w = ground (arith, pick-lem u v q hq) in
      (
        ground (arith, usable-lem u v),
        (w, done, ground (arith, usable-lem w (Step-IsValid u w v (picking q hq done)))),
      )
