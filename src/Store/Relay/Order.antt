-- ===== src/Store/Relay/Order.antt =====
-- The relay publishes in order, and marks as published only what the sink has taken.
use inventory_storage.Prelude.{
  ℕ, ◌≡◌, refl, ap, true, false, inl, inr, Bool, not, ◌&&◌, ◌||◌, List, [], ◌∷◌, ◌++◌, arith, ◌==◌,
  Bool-cases,
}
use inventory_storage.Store.Relay.{
  OutboxRow, Outside, Pass, mark_published, count_attempt, claim_batch, commits, relay_rows, settle,
  relay_once,
}

abbrev pub numbers : List OutboxRow → List ℕ
numbers [] = []
numbers (r ∷ rows) = r.id ∷ numbers rows

-- A row of the number is marked as published.
abbrev pub has_published : ℕ → List OutboxRow → Bool
has_published n [] = false
has_published n (r ∷ rows) = r.id == n && r.published || has_published n rows

abbrev pub among : ℕ → List ℕ → Bool
among n [] = false
among n (m ∷ ms) = m == n || among n ms

has_published-mark :
    (n m : ℕ) (rows : List OutboxRow)
    → has_published n (mark_published m rows) ≡ true
    → (m == n || has_published n rows) ≡ true
unfolding mark_published
has_published-mark n m [] h = ground arith
has_published-mark n m (r ∷ rows) h = ground (arith, has_published-mark n m rows)

has_published-count :
    (n m : ℕ) (rows : List OutboxRow)
    → has_published n (count_attempt m rows) ≡ has_published n rows
unfolding count_attempt
has_published-count n m [] = refl
has_published-count n m (r ∷ rows) = ground (arith, has_published-count n m rows)

module _ (outside : Outside) where
  relay_rows-in_order :
      (claimed rows : List OutboxRow)
      → (rest : List ℕ) × (numbers claimed ≡ (relay_rows outside claimed rows).sent ++ rest)
  unfolding relay_rows
  relay_rows-in_order [] rows = ([], refl)
  relay_rows-in_order (r ∷ claimed) rows =
      let (rest, e) = relay_rows-in_order claimed (mark_published r.id rows) in
      elim (Bool-cases (outside.accepts r.id)) [
        | inl taken ↦ elim (Bool-cases (outside.refuses_update r.id)) [
          | inl bad ↦ (numbers claimed, rw (taken, bad) refl)
          | inr good ↦ (rest, rw (taken, good) (ap (λ l. r.id ∷ l) e))
        ]
        | inr untaken ↦ elim (Bool-cases (outside.refuses_update r.id)) [
          | inl bad ↦ (numbers (r ∷ claimed), rw (untaken, bad) refl)
          | inr good ↦ (numbers (r ∷ claimed), rw (untaken, good) refl)
        ]
      ]

  relay_rows-only_sent :
      (n : ℕ) (claimed rows : List OutboxRow)
      → has_published n (relay_rows outside claimed rows).rows ≡ true
      → (has_published n rows || among n (relay_rows outside claimed rows).sent) ≡ true
  unfolding relay_rows
  relay_rows-only_sent n [] rows h = ground (arith, h)
  relay_rows-only_sent n (r ∷ claimed) rows h = ground (
    arith,
    relay_rows-only_sent n claimed (mark_published r.id rows),
    has_published-mark n r.id rows,
    has_published-count n r.id rows,
  )

  -- In one pass of the relay the sink takes claimed rows in the order of the outbox, with none left
  -- out between two: their numbers begin the claimed batch. And a number is marked as published
  -- after the pass only if it was before or the sink has taken it, whichever calls fail.
  pub relay_once-in_order :
      (batch max : ℕ) (rows : List OutboxRow)
      → let p = relay_once outside batch max rows in
        ((rest : List ℕ) × (numbers (claim_batch batch max rows) ≡ p.sent ++ rest))
        × ((n : ℕ)
            → has_published n p.rows ≡ true
            → (has_published n rows || among n p.sent) ≡ true)
  unfolding relay_once settle
  relay_once-in_order batch max rows =
      elim (Bool-cases (outside.refuses_begin || outside.refuses_query)) [
        | inl bad ↦ rw bad ((numbers (claim_batch batch max rows), refl), λ n h. ground (arith, h))
        | inr good ↦
            let claimed = claim_batch batch max rows in
            let (rest, e) = relay_rows-in_order claimed rows in
            let p : Pass = relay_rows outside claimed rows in
            elim (Bool-cases (commits p.ending && not outside.refuses_commit)) [
              | inl done ↦ rw (good, done) ((rest, e), λ n. relay_rows-only_sent n claimed rows)
              | inr undone ↦ rw (good, undone) ((rest, e), λ n h. ground (arith, h))
            ]
      ]
