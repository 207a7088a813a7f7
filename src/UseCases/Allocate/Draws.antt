-- ===== src/UseCases/Allocate/Draws.antt =====
-- What `allocate` draws, against a description of its own: it succeeds exactly when there is enough,
-- takes from each unit at most what is usable there, and takes no more and no less than asked.
pub mod Sound
use inventory_storage.Prelude.{
  ◌+◌, ◌-◌, ◌≤◌, ◌<◌, ◌≡◌, refl, true, false, inl, inr, List, [], ◌∷◌, All, sum_by, Result, ok, err,
  insufficient_usable, or_zero, arith, leb, ltb, ◌==◌, Bool-cases, if◌then◌else◌,
}
use inventory_storage.Shared.Int.{IsNonneg, sign, less}
use inventory_storage.Shared.Quantity
use inventory_storage.Shared.Quantity.{Quantity, greater_than-nonneg, sub-nonneg, add-nonneg}
use inventory_storage.Stock.{StockUnit, usable, reserve}
use inventory_storage.Stock.Stage.{State, is_unlocated_or_removed}
use inventory_storage.Stock.Invariant.{IsValid, usable-lem, usable-le, reserve-lem}
use inventory_storage.Stock.Lifecycle.{reserving, Step-IsValid}
use inventory_storage.Reservation.{Allocation}
use inventory_storage.UseCases.Allocate.{
  Drawn, nothing_more, also_drawn, total_usable, take_from, draw, enough, allocate,
}

abbrev pub allocated : Allocation → Quantity
allocated a = a.quantity

-- Allocations and touched units that come, in order, from units of a list: each allocation names its
-- unit and its bin and takes something, no more than is usable; and its touched unit is the unit
-- with that much more reserved.
pub data Draws : List StockUnit → List Allocation → List StockUnit → Type 0 where
  stop : (us : List StockUnit) → Draws us [] []
  skip :
      (u : StockUnit) (us : List StockUnit) (l : List Allocation) (ts : List StockUnit)
      → Draws us l ts
      → Draws (u ∷ us) l ts
  take :
      (u t : StockUnit) (us : List StockUnit) (a : Allocation) (l : List Allocation)
      (ts : List StockUnit)
      → a.stock_unit_id ≡ u.id
      → a.bin_id ≡ u.bin_id
      → 0 < a.quantity
      → a.quantity ≤ usable u
      → t ≡ record u { reserved = u.reserved + a.quantity; state = State.reserved }
      → Draws us l ts
      → Draws (u ∷ us) (a ∷ l) (t ∷ ts)

-- One unit of which something is taken.
reserve-take :
    (u : StockUnit) (q : Quantity)
    → IsValid u
    → 0 < q
    → q ≤ usable u
    → reserve u q ≡ ok (record u { reserved = u.reserved + q; state = State.reserved })
unfolding is_unlocated_or_removed
reserve-take u q v pos h =
    let some_usable = usable-lem u v in
    ground (arith, some_usable, reserve-lem u v q (omega (arith, usable-le u v, v.in_range)))

-- The touched units of a draw are valid.
pub Draws-IsValid :
    (us : List StockUnit) (l : List Allocation) (ts : List StockUnit)
    → All IsValid us
    → Draws us l ts
    → All IsValid ts
Draws-IsValid _ _ _ v (stop us) = tt
Draws-IsValid _ _ _ v (skip u us l ts d) = Draws-IsValid us l ts v.1 d
Draws-IsValid _ _ _ v (take u t us a l ts i b pos fits e d) = (
  Step-IsValid u t v.0 (
      reserving a.quantity (omega (arith, usable-le u v.0, v.0.in_range))
        (rw e (reserve-take u a.quantity v.0 pos fits))),
  Draws-IsValid us l ts v.1 d,
)

-- A result of the loop that has drawn exactly `q`.
abbrev Complete : List StockUnit → Quantity → Result Drawn → Type 0
Complete us q r =
    (d : Drawn) × (r ≡ ok d)
    × (d.remaining ≡ 0)
    × Draws us d.allocations d.touched
    × (sum_by allocated d.allocations ≡ q)

take_from-lem :
    (q : Quantity) (u : StockUnit)
    → IsNonneg q
    → IsValid u
    → take_from q u ≡ (if ltb (usable u) q then usable u else q)
unfolding take_from
take_from-lem q u hq v =
    ground (arith, greater_than-nonneg q (usable u) hq (omega (arith, usable-le u v, v.in_range)))

abbrev least : Quantity → Quantity → Quantity
least a b = if ltb a b then a else b

-- What one round takes from a unit that has something usable.
take_from_bounds :
    (q : Quantity) (u : StockUnit)
    → IsNonneg q
    → IsValid u
    → q == 0 ≡ false
    → usable u == 0 ≡ false
    → let k = least (usable u) q in
      (take_from q u ≡ k)
      × (0 < k)
      × (k ≤ usable u)
      × (k ≤ q)
      × (or_zero 0 (Quantity.sub q k) ≡ q - k)
      × (usable u < q → k ≡ usable u)
take_from_bounds q u hq v some_left some_usable =
    let k = least (usable u) q in
    let upper : k ≤ q = ground arith in
    (
      take_from-lem q u hq v,
      ground arith,
      ground arith,
      upper,
      ground (arith, sub-nonneg q k hq (omega (arith, hq))),
      ground arith,
    )

-- A round that takes `k`, and then what the rest of the loop draws.
draw-step :
    (u t : StockUnit) (us : List StockUnit) (q k r : Quantity) (d : Drawn)
    → q == 0 ≡ false
    → usable u == 0 ≡ false
    → take_from q u ≡ k
    → reserve u k ≡ ok t
    → or_zero 0 (Quantity.sub q k) ≡ r
    → draw r us ≡ ok d
    → draw q (u ∷ us) ≡ ok (also_drawn t k d)
unfolding draw
draw-step u t us q k r d some_left some_usable tk e left later =
    rw (some_left, some_usable, tk, e, left, later) refl

-- With enough usable, the loop draws exactly what is asked: `Reserve` never refuses there.
draw_lem :
    (us : List StockUnit) (q : Quantity)
    → All IsValid us
    → IsNonneg q
    → q ≤ sum_by usable us
    → Complete us q (draw q us)
unfolding draw
draw_lem [] q v hq h = (nothing_more q, refl, omega arith, stop [], omega arith)
draw_lem (u ∷ us) q v hq h = elim (Bool-cases (q == 0)) [
  | inl none_left ↦ (nothing_more q, rw none_left, ground arith, stop (u ∷ us), ground arith)
  | inr some_left ↦ elim (Bool-cases (usable u == 0)) [
    | inl unusable ↦
        let (d, e, r, p, s) = draw_lem us q v.1 hq (ground arith) in
        (d, rw (some_left, unusable, e), r, skip u us d.allocations d.touched p, s)
    | inr some_usable ↦
        let k : Quantity = least (usable u) q in
        let (tk, pos, fits, upper, left, whole) =
          take_from_bounds q u hq v.0 some_left some_usable in
        let (d, e, r, p, s) =
          draw_lem us (q - k) v.1 (omega (arith, hq)) (ground (arith, h, whole)) in
        let t : StockUnit = record u { reserved = u.reserved + k; state = State.reserved } in
        (
          also_drawn t k d,
          draw-step u t us q k (q - k) d some_left some_usable tk (reserve-take u k v.0 pos fits)
              left e,
          r,
          take u t us _ d.allocations d.touched refl refl pos fits refl p,
          omega (arith, s, upper),
        )
  ]
]

total_usable-lem :
    (us : List StockUnit) (acc : Quantity)
    → All IsValid us
    → acc + sum_by usable us < sign
    → total_usable acc us ≡ acc + sum_by usable us
unfolding total_usable
total_usable-lem [] acc v h = omega arith
total_usable-lem (u ∷ us) acc v h =
    rw (add-nonneg acc (usable u) (omega arith) (omega arith) (omega arith))
      (rw (total_usable-lem us (acc + usable u) v.1 (omega arith)) (omega arith))

-- For valid units whose usable quantities add up below 2 ^ 63, and a quantity that is not negative:
-- if the usable quantities cover it, `allocate` succeeds, the allocations come from the units as
-- `Draws` says, and they add up to exactly the quantity; and if they do not cover it, `allocate`
-- fails with `ErrInsufficientUsable`.
pub allocate-Draws :
    (us : List StockUnit) (q : Quantity)
    → All IsValid us
    → sum_by usable us < sign
    → IsNonneg q
    → (q ≤ sum_by usable us
        → (d : Drawn) × (allocate us q ≡ ok d)
          × Draws us d.allocations d.touched
          × (sum_by allocated d.allocations ≡ q))
      × (sum_by usable us < q → allocate us q ≡ err insufficient_usable)
allocate-Draws us q v small hq =
    let total : total_usable 0 us ≡ sum_by usable us =
      rw (total_usable-lem us 0 v (omega arith)) (omega arith) in
    let test = greater_than-nonneg q (sum_by usable us) hq small in
    (
      λ h.
          let (d, e, r, p, s) = draw_lem us q v hq h in
          (d, unfold allocate less in ground (arith, total, test, e, r), p, s),
      λ h. unfold allocate in ground (arith, total, test),
    )
