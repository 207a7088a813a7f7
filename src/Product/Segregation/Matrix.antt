-- ===== src/Product/Segregation/Matrix.antt =====
-- The matrix against the table in the comment of segregation.go, and its laws for all classes.
use native.Mathlib.Decide.{dec_le}
use inventory_storage.Prelude.{
  ℕ, zero, suc, ◌≤◌, ◌<◌, ◌≡◌, ◌∙◌, sym, ◌⊎◌, inl, inr, All, length, refl, Bool, true, false, ◌&&◌,
  List, [], ◌∷◌, arith,
}
use inventory_storage.Shared.Int.{Int64, modulus, less}
use inventory_storage.Product.Segregation.{incompatible}

-- The rows of the ASCII table, from class 1 to class 9: `true` is `X`.
abbrev X : Bool
X = true

abbrev o : Bool
o = false

abbrev pub table : List (List Bool)
table =
    (X ∷ X ∷ X ∷ X ∷ X ∷ X ∷ X ∷ X ∷ X ∷ [])
    ∷ (X ∷ X ∷ X ∷ X ∷ X ∷ X ∷ X ∷ X ∷ o ∷ [])
    ∷ (X ∷ X ∷ o ∷ o ∷ X ∷ X ∷ o ∷ o ∷ o ∷ [])
    ∷ (X ∷ X ∷ o ∷ o ∷ o ∷ X ∷ o ∷ X ∷ o ∷ [])
    ∷ (X ∷ X ∷ X ∷ o ∷ o ∷ X ∷ o ∷ X ∷ o ∷ [])
    ∷ (X ∷ X ∷ X ∷ X ∷ X ∷ o ∷ o ∷ X ∷ o ∷ [])
    ∷ (X ∷ X ∷ o ∷ o ∷ o ∷ o ∷ o ∷ o ∷ o ∷ [])
    ∷ (X ∷ X ∷ o ∷ X ∷ X ∷ X ∷ o ∷ o ∷ o ∷ [])
    ∷ (X ∷ o ∷ o ∷ o ∷ o ∷ o ∷ o ∷ o ∷ o ∷ [])
    ∷ []

-- The entry at a place counted from 1; `false` outside.
abbrev pub entry : List Bool → ℕ → Bool
entry [] n = false
entry (x ∷ xs) zero = false
entry (x ∷ xs) (suc zero) = x
entry (x ∷ xs) (suc (suc n)) = entry xs (suc n)

abbrev pub cell : List (List Bool) → ℕ → ℕ → Bool
cell [] a b = false
cell (r ∷ rs) zero b = false
cell (r ∷ rs) (suc zero) b = entry r b
cell (r ∷ rs) (suc (suc a)) b = cell rs (suc a) b

-- Every number below the bound passes a test.
each_below : (ℕ → Bool) → ℕ → Bool
each_below test zero = true
each_below test (suc bound) = each_below test bound && test bound

each_below_sound :
    (test : ℕ → Bool) (bound k : ℕ) → each_below test bound ≡ true → suc k ≤ bound → test k ≡ true
unfolding each_below
each_below_sound test zero k passed below = absurd (omega arith)
each_below_sound test (suc bound) k passed below = ground (arith, each_below_sound test bound k)

abbrev same : Bool → Bool → Bool
same true b = b
same false true = false
same false false = true

same-eq : (a b : Bool) → same a b ≡ true → a ≡ b
same-eq a b h = ground arith

checked : each_below (λ a. each_below (λ b. same (incompatible a b) (cell table a b)) 10) 10 ≡ true
unfolding each_below incompatible less
checked = refl

in_range_table : (a b : ℕ) → a ≤ 9 → b ≤ 9 → incompatible a b ≡ cell table a b
in_range_table a b ha hb =
    same-eq (incompatible a b) (cell table a b)
      (each_below_sound _ 10 b (each_below_sound _ 10 a checked (omega arith)) (omega arith))

entry-out : (xs : List Bool) (n : ℕ) → length xs < n → entry xs n ≡ false
entry-out [] n h = refl
entry-out (x ∷ xs) zero h = refl
entry-out (x ∷ xs) (suc zero) h = absurd (omega arith)
entry-out (x ∷ xs) (suc (suc n)) h = entry-out xs (suc n) (omega arith)

cell-out_row : (rs : List (List Bool)) (a b : ℕ) → length rs < a → cell rs a b ≡ false
cell-out_row [] a b h = refl
cell-out_row (r ∷ rs) zero b h = refl
cell-out_row (r ∷ rs) (suc zero) b h = absurd (omega arith)
cell-out_row (r ∷ rs) (suc (suc a)) b h = cell-out_row rs (suc a) b (omega arith)

cell-out_column :
    (rs : List (List Bool)) (a b : ℕ) → All (λ r. length r < b) rs → cell rs a b ≡ false
cell-out_column [] a b h = refl
cell-out_column (r ∷ rs) zero b h = refl
cell-out_column (r ∷ rs) (suc zero) b h = entry-out r b h.0
cell-out_column (r ∷ rs) (suc (suc a)) b h = cell-out_column rs (suc a) b h.1

incompatible-out :
    (a b : ℕ) → a < modulus → b < modulus → (9 < a) ⊎ (9 < b) → incompatible a b ≡ false
unfolding incompatible less
incompatible-out a b ha hb h = ground arith

-- For any two Go integers, `Incompatible` says what the table in the comment says of two classes
-- from 1 to 9, and is false for any other number, unspecified and negative ones included.
pub incompatible-table :
    (a b : Int64) → a < modulus → b < modulus → incompatible a b ≡ cell table a b
incompatible-table a b ha hb = elim (dec_le a 9) [
  | yes p ↦ elim (dec_le b 9) [
    | yes q ↦ in_range_table a b p q
    | no q ↦
        incompatible-out a b ha hb (inr (omega arith))
        ∙ sym (cell-out_column table a b (omega arith))
  ]
  | no p ↦
      incompatible-out a b ha hb (inl (omega arith)) ∙ sym (cell-out_row table a b (omega arith))
]

symmetric :
    each_below (λ a. each_below (λ b. same (incompatible a b) (incompatible b a)) 10) 10 ≡ true
unfolding each_below incompatible less
symmetric = refl

explosives : each_below (λ a. incompatible 1 (suc a) && incompatible (suc a) 1) 9 ≡ true
unfolding each_below incompatible less
explosives = refl

-- For any two Go integers the matrix is symmetric; and class 1 is incompatible with every class
-- from 1 to 9, itself included.
pub incompatible_comm :
    (a b : Int64)
    → a < modulus
    → b < modulus
    → (incompatible a b ≡ incompatible b a) × (1 ≤ a → a ≤ 9 → incompatible 1 a ≡ true)
incompatible_comm a b ha hb = (
  elim (dec_le a 9) [
    | yes p ↦ elim (dec_le b 9) [
      | yes q ↦
          same-eq (incompatible a b) (incompatible b a) (
            each_below_sound _ 10 b (each_below_sound _ 10 a symmetric (omega arith)) (omega arith))
      | no q ↦
          incompatible-out a b ha hb (inr (omega arith))
          ∙ sym (incompatible-out b a hb ha (inl (omega arith)))
    ]
    | no p ↦
        incompatible-out a b ha hb (inl (omega arith))
        ∙ sym (incompatible-out b a hb ha (inr (omega arith)))
  ],
  explosive a,
)
  where
    explosive : (c : ℕ) → 1 ≤ c → c ≤ 9 → incompatible 1 c ≡ true
    explosive zero l u = elim l [ ]
    explosive (suc c) l u = ground (
      arith,
      each_below_sound (λ (x : ℕ). incompatible 1 (suc x) && incompatible (suc x) 1) 9 c explosives,
    )
