-- ===== src/Store/Table.antt =====
-- A table of the database: its rows in the order of insertion, each found by its primary key.
use mathlib.Core.Path.{subst}
use inventory_storage.Prelude.{
  Bool-cases, inl, inr, ℕ, ◌+◌, sum_by, ap, String, ◌≡◌, refl, Option, none, some, List, [], ◌∷◌,
  All, arith, Bool, false, ◌∙◌, select, All-select, eq_refl, str_eq, eq_iff, if◌then◌else◌,
}

module _ {ℓ} {A : Type ℓ} (key : A → String) where
  -- SELECT … WHERE id = k
  unfoldable pub find : String → List A → Option A
  find k [] = none
  find k (a ∷ rows) = if str_eq (key a) k then some a else find k rows

  -- INSERT … ON CONFLICT (id) DO UPDATE
  unfoldable pub upsert : A → List A → List A
  upsert a [] = a ∷ []
  upsert a (b ∷ rows) =
      let rest = upsert a rows in if str_eq (key b) (key a) then a ∷ rows else b ∷ rest

  pub find-upsert :
      (k : String) (a : A) (rows : List A)
      → find k (upsert a rows) ≡ (if str_eq (key a) k then some a else find k rows)
  unfolding find upsert
  find-upsert k a [] = refl
  find-upsert k a (b ∷ rows) =
      ground
        (arith, find-upsert k a rows, eq_iff (key b) (key a), eq_iff (key a) k, eq_iff (key b) k)

  pub key-find : (k : String) (rows : List A) {a : A} → find k rows ≡ some a → key a ≡ k
  unfolding find
  key-find k [] h = cc
  key-find k (b ∷ rows) {a} h = elim (Bool-cases (str_eq (key b) k)) [
    | inl e ↦ ground (arith, e, eq_iff (key b) k)
    | inr ne ↦ key-find k rows (ground (arith, ne))
  ]

  -- What holds of all rows holds of a found one.
  pub All-find {κ} :
      (P : A → Type κ) (k : String) (rows : List A) {a : A}
      → All P rows
      → find k rows ≡ some a
      → P a
  unfolding find
  All-find P k [] h e = cc
  All-find P k (b ∷ rows) {a} h e = elim (Bool-cases (str_eq (key b) k)) [
    | inl same ↦ let e' : b ≡ a = ground (arith, same) in subst P e' h.0
    | inr ne ↦ All-find P k rows h.1 (rw ne at e)
  ]

  pub All-upsert {κ} :
      (P : A → Type κ) (a : A) (rows : List A) → P a → All P rows → All P (upsert a rows)
  unfolding upsert
  All-upsert P a [] p h = (p, tt)
  All-upsert P a (b ∷ rows) p h = elim (Bool-cases (str_eq (key b) (key a))) [
    | inl same ↦ rw same (p, h.1)
    | inr ne ↦ rw ne (h.0, All-upsert P a rows p h.1)
  ]

  -- A row that replaces another changes a sum over the table by the difference of the two.
  pub sum_by-upsert :
      (f : A → ℕ) (a : A) {old : A} (rows : List A)
      → find (key a) rows ≡ some old
      → sum_by f (upsert a rows) + f old ≡ sum_by f rows + f a
  unfolding find upsert
  sum_by-upsert f a [] h = cc
  sum_by-upsert f a {old} (b ∷ rows) h = elim (Bool-cases (str_eq (key b) (key a))) [
    | inl same ↦
        let e : b ≡ old = ground (arith, same) in
        let fe : f b ≡ f old = ap f e in rw same (omega (arith, fe))
    | inr ne ↦ let rest = sum_by-upsert f a rows (rw ne at h) in rw ne (omega (arith, rest))
  ]

  -- PRIMARY KEY: no two rows have one key.
  abbrev pub IsKeyed : List A → Type 0
  IsKeyed [] = Unit
  IsKeyed (a ∷ rows) = All (λ b. str_eq (key a) (key b) ≡ false) rows × IsKeyed rows

  pub IsKeyed-select : (p : A → Bool) (rows : List A) → IsKeyed rows → IsKeyed (select p rows)
  IsKeyed-select p [] h = tt
  IsKeyed-select p (a ∷ rows) h = elim (Bool-cases (p a)) [
    | inl kept ↦
        rw kept
          (All-select (λ b. str_eq (key a) (key b) ≡ false) p rows h.0, IsKeyed-select p rows h.1)
    | inr dropped ↦ rw dropped (IsKeyed-select p rows h.1)
  ]

  -- Each of the listed rows is the one that its key finds.
  abbrev pub Stands : List A → A → Type ℓ
  Stands rows a = find (key a) rows ≡ some a

  Stands-cons :
      (b : A) (rows l : List A)
      → All (λ a. str_eq (key b) (key a) ≡ false) l
      → All (Stands rows) l
      → All (Stands (b ∷ rows)) l
  unfolding find
  Stands-cons b rows [] h s = tt
  Stands-cons b rows (a ∷ l) h s = (rw h.0 s.0, Stands-cons b rows l h.1 s.1)

  pub IsKeyed-Stands : (rows : List A) → IsKeyed rows → All (Stands rows) rows
  unfolding find
  IsKeyed-Stands [] h = tt
  IsKeyed-Stands (a ∷ rows) h =
      (rw (eq_refl (key a)) refl, Stands-cons a rows rows h.0 (IsKeyed-Stands rows h.1))

  -- Writing a row of another key leaves them.
  pub Stands-upsert :
      (b : A) (rows l : List A)
      → All (λ a. str_eq (key b) (key a) ≡ false) l
      → All (Stands rows) l
      → All (Stands (upsert b rows)) l
  Stands-upsert b rows [] h s = tt
  Stands-upsert b rows (a ∷ l) h s =
      (find-upsert (key a) b rows ∙ rw h.0 s.0, Stands-upsert b rows l h.1 s.1)
