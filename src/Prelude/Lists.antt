-- ===== src/Prelude/Lists.antt =====
-- Lists measured by native numbers, and predicates on all their elements by recursion.
use Prim.Native.Nat.{ℕ, suc, ◌+◌}
use mathlib.Core.Path.{◌≡◌, refl, sym, ap, ◌∙◌, subst}
use mathlib.Core.Logic.{inl, inr}
use mathlib.Core.List.Permᴰ.{nil, cons, swap, trans}
pub use mathlib.Core.List.{Permᴰ as Rearranged}
use mathlib.Core.Bool.{Bool, true, false}
use mathlib.Core.List.{List, [], ◌∷◌, ◌++◌}
use native.Mathlib.Omega.{arith}
use inventory_storage.Prelude.Tests.{if◌then◌else◌, Bool-cases}

module _ {ℓ} {A : Type ℓ} where
  abbrev pub length : List A → ℕ
  length [] = 0
  length (x ∷ xs) = suc (length xs)

  -- The sum of a measure over a list.
  abbrev pub sum_by : (A → ℕ) → List A → ℕ
  sum_by f [] = 0
  sum_by f (x ∷ xs) = f x + sum_by f xs

  -- The elements that pass a test.
  abbrev pub select : (A → Bool) → List A → List A
  select p [] = []
  select p (x ∷ xs) = let rest = select p xs in if p x then x ∷ rest else rest

  abbrev pub is_empty : List A → Bool
  is_empty [] = true
  is_empty (x ∷ xs) = false

module _ {ℓ κ} {A : Type ℓ} where
  abbrev pub All : (A → Type κ) → List A → Type κ
  All P [] = Unit
  All P (x ∷ xs) = P x × All P xs

module _ {ℓ} {A : Type ℓ} where
  pub sum_by-append : (f : A → ℕ) (xs ys : List A) → sum_by f (xs ++ ys) ≡ sum_by f xs + sum_by f ys
  sum_by-append f [] ys = omega arith
  sum_by-append f (x ∷ xs) ys = omega (arith, sum_by-append f xs ys)

module _ {ℓ} {A : Type ℓ} where
  -- A list in another order has the same sums, and the same predicates hold of all its elements.
  pub sum_by-Rearranged :
      (f : A → ℕ) (xs ys : List A) → Rearranged xs ys → sum_by f xs ≡ sum_by f ys
  sum_by-Rearranged f _ _ nil = refl
  sum_by-Rearranged f _ _ (cons {a} {b} {l₁} {l₂} e p) =
      let fe : f a ≡ f b = ap f e in omega (arith, fe, sum_by-Rearranged f l₁ l₂ p)
  sum_by-Rearranged f _ _ (swap {a} {b} {a'} {b'} {l} e e') =
      let fe : f a ≡ f b' = ap f e in let fe' : f b ≡ f a' = ap f e' in omega (arith, fe, fe')
  sum_by-Rearranged f _ _ (trans {l₁} {l₂} {l₃} p q) =
      sum_by-Rearranged f l₁ l₂ p ∙ sum_by-Rearranged f l₂ l₃ q

  pub All-Rearranged {κ} :
      (P : A → Type κ) (xs ys : List A) → Rearranged xs ys → All P ys → All P xs
  All-Rearranged P _ _ nil h = h
  All-Rearranged P _ _ (cons {a} {b} {l₁} {l₂} e p) h =
      (subst P (sym e) h.0, All-Rearranged P l₁ l₂ p h.1)
  All-Rearranged P _ _ (swap {a} {b} {a'} {b'} {l} e e') h =
      (subst P (sym e) h.1.0, (subst P (sym e') h.0, h.1.1))
  All-Rearranged P _ _ (trans {l₁} {l₂} {l₃} p q) h =
      All-Rearranged P l₁ l₂ p (All-Rearranged P l₂ l₃ q h)

  pub All-select {κ} :
      (P : A → Type κ) (t : A → Bool) (xs : List A) → All P xs → All P (select t xs)
  All-select P t [] h = tt
  All-select P t (x ∷ xs) h = elim (Bool-cases (t x)) [
    | inl kept ↦ rw kept (h.0, All-select P t xs h.1)
    | inr dropped ↦ rw dropped (All-select P t xs h.1)
  ]
