-- ===== src/UseCases/Allocate/Draws/Sound.antt =====
-- Whatever the usable quantities add up to, and so also where the total of `allocate` wraps around:
-- what its loop draws comes from the units as `Draws` says.
use inventory_storage.Prelude.{
  ◌+◌, ◌-◌, ◌≡◌, ◌∙◌, refl, sym, false, inl, inr, List, [], ◌∷◌, All, ok, arith, ◌==◌, and_then,
  and_then-eq-ok, or_zero, Bool-cases,
}
use inventory_storage.Shared.Int.{IsNonneg}
use inventory_storage.Shared.Quantity
use inventory_storage.Shared.Quantity.{Quantity}
use inventory_storage.Stock.{StockUnit, usable, reserve}
use inventory_storage.Stock.Stage.{State}
use inventory_storage.Stock.Invariant.{IsValid, usable-le}
use inventory_storage.Store.Keeps.{IsCounted}
use inventory_storage.Reservation.{Allocation}
use inventory_storage.UseCases.Allocate.{
  Drawn, nothing_more, also_drawn, take_from, draw, enough, allocate,
}
use inventory_storage.UseCases.Allocate.Draws.{
  Draws, stop, skip, take, reserve-take, take_from_bounds, least,
}

abbrev pub IsDrawn : List StockUnit → Drawn → Type 0
IsDrawn us d = Draws us d.allocations d.touched

draw-cons :
    (u : StockUnit) (us : List StockUnit) (q k : Quantity) (t : StockUnit)
    → q == 0 ≡ false
    → usable u == 0 ≡ false
    → take_from q u ≡ k
    → reserve u k ≡ ok t
    → or_zero 0 (Quantity.sub q k) ≡ q - k
    → draw q (u ∷ us) ≡ and_then (draw (q - k) us) λ d. ok (also_drawn t k d)
unfolding draw
draw-cons u us q k t some_left some_usable tk e left = rw (some_left, some_usable, tk, e, left) refl

pub draw-IsDrawn :
    (us : List StockUnit) (q : Quantity) (d : Drawn)
    → All IsValid us
    → IsNonneg q
    → draw q us ≡ ok d
    → IsDrawn us d
unfolding draw
draw-IsDrawn [] q d v hq h = let e : nothing_more q ≡ d = cc in rw⁻¹ e (stop [])
draw-IsDrawn (u ∷ us) q d v hq h = elim (Bool-cases (q == 0)) [
  | inl none_left ↦ let e : nothing_more q ≡ d = ground (arith, none_left) in rw⁻¹ e (stop (u ∷ us))
  | inr some_left ↦ elim (Bool-cases (usable u == 0)) [
    | inl unusable ↦
        let e : draw q us ≡ ok d = ground (arith, some_left, unusable) in
        skip u us _ _ (draw-IsDrawn us q d v.1 hq e)
    | inr some_usable ↦
        let k : Quantity = least (usable u) q in
        let (tk, pos, fits, upper, left, whole) =
          take_from_bounds q u hq v.0 some_left some_usable in
        let t : StockUnit = record u { reserved = u.reserved + k; state = State.reserved } in
        let step =
          draw-cons u us q k t some_left some_usable tk (reserve-take u k v.0 pos fits) left in
        let (d', e, done) =
          and_then-eq-ok (λ d. ok (also_drawn t k d)) (draw (q - k) us) (sym step ∙ h) in
        let same : also_drawn t k d' ≡ d = cc in
        rw⁻¹ same (
          take u t us _ d'.allocations d'.touched refl refl pos fits refl
            (draw-IsDrawn us (q - k) d' v.1 (omega (arith, hq)) e))
  ]
]

pub Draws-IsCounted :
    (us : List StockUnit) (l : List Allocation) (ts : List StockUnit)
    → All IsValid us
    → Draws us l ts
    → All IsCounted l
Draws-IsCounted _ _ _ v (stop us) = tt
Draws-IsCounted _ _ _ v (skip u us l ts d) = Draws-IsCounted us l ts v.1 d
Draws-IsCounted _ _ _ v (take u t us a l ts i b pos fits e d) =
    (omega (arith, fits, usable-le u v.0, v.0.in_range), Draws-IsCounted us l ts v.1 d)

-- A successful `allocate` of a quantity that is not negative, from valid units, has drawn from them
-- as `Draws` says.
pub allocate-IsDrawn :
    (us : List StockUnit) (q : Quantity) (d : Drawn)
    → All IsValid us
    → IsNonneg q
    → allocate us q ≡ ok d
    → Draws us d.allocations d.touched
unfolding allocate enough
allocate-IsDrawn us q d v hq h = draw-IsDrawn us q d v hq (ground arith)
