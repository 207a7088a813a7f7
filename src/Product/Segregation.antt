-- ===== src/Product/Segregation.antt =====
-- internal/domain/product/segregation.go: the 9 by 9 matrix of DOT hazard classes that must not
-- share a bin.
pub mod Matrix
use inventory_storage.Prelude.{ℕ, Bool, true, false, ◌||◌, ◌&&◌, List, [], ◌∷◌, ◌==◌, if◌then◌else◌}
use inventory_storage.Shared.Int.{less}
use inventory_storage.Product.Classification.{DotHazardClass, unspecified}

-- `segregationMatrix`, as a function of its two indices.
abbrev pub SegregationMatrix : Type 0
SegregationMatrix = ℕ → ℕ → Bool

-- `incompatiblePairs`, each pair once.
abbrev pub incompatible_pairs : List (ℕ × ℕ)
incompatible_pairs =
    (1, 1)
    ∷ (1, 2)
    ∷ (1, 3)
    ∷ (1, 4)
    ∷ (1, 5)
    ∷ (1, 6)
    ∷ (1, 7)
    ∷ (1, 8)
    ∷ (1, 9)
    ∷ (2, 2)
    ∷ (2, 3)
    ∷ (2, 4)
    ∷ (2, 5)
    ∷ (2, 6)
    ∷ (2, 7)
    ∷ (2, 8)
    ∷ (3, 5)
    ∷ (3, 6)
    ∷ (4, 6)
    ∷ (4, 8)
    ∷ (5, 6)
    ∷ (5, 8)
    ∷ (6, 8)
    ∷ []

-- `m[a][b] = true`
unfoldable pub mark : SegregationMatrix → ℕ → ℕ → SegregationMatrix
mark m a b i j = if i == a && j == b then true else m i j

-- The loop of `buildSegregationMatrix`.
unfoldable pub build_from : SegregationMatrix → List (ℕ × ℕ) → SegregationMatrix
unfolding mark
build_from m [] = m
build_from m ((a, b) ∷ pairs) = build_from (mark (mark m a b) b a) pairs

unfoldable pub class_incompatibility : SegregationMatrix
unfolding build_from
class_incompatibility = build_from (λ i j. false) incompatible_pairs

-- `Incompatible`
unfoldable pub incompatible : DotHazardClass → DotHazardClass → Bool
unfolding class_incompatibility
incompatible a b =
    if a == unspecified || b == unspecified
    then false
    else if less a 1 || less 9 a || less b 1 || less 9 b
    then false
    else class_incompatibility a b
