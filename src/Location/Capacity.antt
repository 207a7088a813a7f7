-- ===== src/Location/Capacity.antt =====
-- The capacity rule of a bin: what it holds never exceeds its capacity.
use inventory_storage.Prelude.{
  String, ◌+◌, ◌-◌, ◌≤◌, ◌<◌, ◌≡◌, true, ok, err, zero_quantity, bin_full, invalid_capacity,
  release_exceeds_occupancy, capacity_below_occupancy, arith, ltb, leb, ◌==◌, if◌then◌else◌,
}
use inventory_storage.Shared.Int.{IsNonneg, sign}
use inventory_storage.Shared.Int
use inventory_storage.Shared.Quantity
use inventory_storage.Shared.Quantity.{
  Quantity, is_not_positive, greater_than, is_not_positive-nonneg, greater_than-nonneg, add-nonneg,
  sub-nonneg,
}
use inventory_storage.Location.{Bin, new, available, is_full, occupy, release, resize}

-- What is in the bin fits it, and the capacity is positive.
pub record IsValid (b : Bin) : Type 0 where
  pub in_range : IsNonneg b.capacity
  pub fits : b.occupied ≤ b.capacity
  pub nonempty : 0 < b.capacity

module _ (b : Bin) (v : IsValid b) where
  -- A valid bin has its capacity less its contents available, and is full exactly when that is 0.
  pub available-lem : (available b ≡ b.capacity - b.occupied) × (is_full b ≡ (available b == 0))
  unfolding available is_full
  available-lem =
      let p = sub-nonneg b.capacity b.occupied v.in_range (omega arith) in
      let q = greater_than-nonneg b.occupied b.capacity (omega arith) v.in_range in
      (ground (arith, p), ground (arith, p, q))

  module _ (q : Quantity) (hq : IsNonneg q) where
    -- `fits_sum`: the sum of contents and quantity is still a number that an `int` can hold.
    pub occupy-lem :
        b.occupied + q < sign
        → occupy b q ≡ (
            if leb q 0
            then err zero_quantity
            else if ltb b.capacity (b.occupied + q)
            then err bin_full
            else ok (record b { occupied = b.occupied + q }))
    unfolding occupy
    occupy-lem fits_sum = ground (
      arith,
      is_not_positive-nonneg q hq,
      add-nonneg b.occupied q,
      greater_than-nonneg (b.occupied + q) b.capacity,
    )

    pub release-lem : release b q ≡ (
        if leb q 0
        then err zero_quantity
        else if ltb b.occupied q
        then err release_exceeds_occupancy
        else ok (record b { occupied = b.occupied - q }))
    unfolding release
    release-lem = ground (arith, is_not_positive-nonneg q hq, sub-nonneg b.occupied q)

    pub resize-lem : resize b q ≡ (
        if leb q 0
        then err invalid_capacity
        else if ltb q b.occupied
        then err capacity_below_occupancy
        else ok (record b { capacity = q }))
    unfolding resize
    resize-lem = ground (arith, is_not_positive-nonneg q hq, greater_than-nonneg b.occupied q)

-- A successful operation on a bin. A stow's quantity is one with which the contents stay a number
-- that an `int` can hold, as in the INTEGER column of the table.
pub data Step (b : Bin) (b' : Bin) : Type 0 where
  stowing : (q : Quantity) → IsNonneg q → b.occupied + q < sign → occupy b q ≡ ok b' → Step b b'
  freeing : (q : Quantity) → IsNonneg q → release b q ≡ ok b' → Step b b'
  resizing : (q : Quantity) → IsNonneg q → resize b q ≡ ok b' → Step b b'

pub data Registered : Bin → Type 0 where
  registered :
      (id : String) (capacity : Quantity) (b : Bin)
      → IsNonneg capacity
      → new id capacity ≡ ok b
      → Registered b
  next : (b b' : Bin) → Registered b → Step b b' → Registered b'

pub Step-IsValid : (b b' : Bin) → IsValid b → Step b b' → IsValid b'
Step-IsValid b b' v (stowing q hq k h) = ground (arith, occupy-lem b v q hq k)
Step-IsValid b b' v (freeing q hq h) = ground (arith, release-lem b v q hq)
Step-IsValid b b' v (resizing q hq h) = ground (arith, resize-lem b v q hq)

pub new-IsValid :
    (id : String) (capacity : Quantity) (b : Bin)
    → IsNonneg capacity
    → new id capacity ≡ ok b
    → IsValid b
unfolding new
new-IsValid id capacity b hq h = ground (arith, is_not_positive-nonneg capacity hq)

-- From its registration on, whatever succeeds on a bin, its contents fit its positive capacity,
-- as long as contents and stowed quantity add up below 2 ^ 63.
pub Registered-IsValid : (b : Bin) → Registered b → IsValid b
Registered-IsValid _ (registered id capacity b hq h) = new-IsValid id capacity b hq h
Registered-IsValid _ (next b b' r s) = Step-IsValid b b' (Registered-IsValid b r) s

-- For a valid bin and a positive quantity that is no more than what is available, occupying and
-- then releasing that quantity gives the bin back; and occupying more than is available is refused
-- with `ErrBinFull`, if contents and quantity add up below 2 ^ 63.
pub release-occupy :
    (b : Bin) (q : Quantity)
    → IsValid b
    → 0 < q
    → b.occupied + q < sign
    → (q ≤ available b → (b' : Bin) × (occupy b q ≡ ok b') × (release b' q ≡ ok b))
      × (available b < q → occupy b q ≡ err bin_full)
release-occupy b q v pos k =
    let avail = (available-lem b v).0 in
    let occ = occupy-lem b v q (omega arith) k in
    (
      λ h.
          let b' : Bin = record b { occupied = b.occupied + q } in
          let done : occupy b q ≡ ok b' = ground (arith, avail, occ) in
          let v' = Step-IsValid b b' v (stowing q (omega arith) k done) in
          (b', done, ground (arith, avail, release-lem b' v' q (omega arith))),
      λ h. ground (arith, avail, occ),
    )

-- The sum in the test of `Occupy` wraps around: a valid bin that holds something accepts a positive
-- quantity with which contents and quantity pass 2 ^ 63, whatever its capacity, and what it then
-- records is a negative number.
pub occupy_overflows :
    (b : Bin) (q : Quantity)
    → IsValid b
    → IsNonneg q
    → sign ≤ b.occupied + q
    → (b' : Bin) × (occupy b q ≡ ok b') × (Int.is_negative b'.occupied ≡ true)
unfolding occupy is_not_positive greater_than Quantity.add Int.add Int.less Int.less_eq
    Int.is_negative
occupy_overflows b q v hq h = (record b { occupied = b.occupied + q }, ground arith, ground arith)
