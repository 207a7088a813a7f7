-- ===== src/Store/Relay.antt =====
-- internal/adapters/outbound/postgres/outbox_relay.go: one pass of the relay over the outbox. A row
-- has a number, and the rows stand in the order of their numbers, as the table's sequence gives them.
-- What an encoded event holds is left out, and so are the ticker and a second relay's locks.
pub mod Order
use inventory_storage.Prelude.{
  ℕ, zero, suc, Bool, true, false, not, ◌&&◌, ◌||◌, List, [], ◌∷◌, length, select, ltb, ◌==◌,
  if◌then◌else◌,
}

pub record OutboxRow : Type 0 where
  pub id : ℕ
  pub published : Bool
  pub attempts : ℕ

-- The answers from outside in one pass: whether the sink takes the row of a number, and whether the
-- server refuses the update of a row, the BEGIN, the query or the COMMIT.
pub record Outside : Type 0 where
  pub accepts : ℕ → Bool
  pub refuses_update : ℕ → Bool
  pub refuses_begin : Bool
  pub refuses_query : Bool
  pub refuses_commit : Bool

-- How the loop over the claimed rows ends: through all of them, at a row that the sink has not
-- taken, or at an update that the server refuses.
pub data Ending : Type 0 where
  finished stopped broken : Ending

-- UPDATE … SET published_at = now() WHERE id = n
unfoldable pub mark_published : ℕ → List OutboxRow → List OutboxRow
mark_published n [] = []
mark_published n (r ∷ rows) =
    (if r.id == n then record r { published = true } else r) ∷ mark_published n rows

-- UPDATE … SET attempts = attempts + 1 WHERE id = n
unfoldable pub count_attempt : ℕ → List OutboxRow → List OutboxRow
count_attempt n [] = []
count_attempt n (r ∷ rows) =
    (if r.id == n then record r { attempts = suc r.attempts } else r) ∷ count_attempt n rows

-- What a pass has done so far: the rows of its transaction, the numbers that the sink has taken, in
-- order, and how it ended.
pub record Pass : Type 0 where
  pub rows : List OutboxRow
  pub sent : List ℕ
  pub ending : Ending

abbrev pub also_sent : ℕ → Pass → Pass
also_sent n p = record p { sent = n ∷ p.sent }

abbrev pub ended : List OutboxRow → Ending → Pass
ended rows e = record { rows = rows; sent = []; ending = e }

-- The first rows, at most the batch size.
unfoldable pub at_most : ℕ → List OutboxRow → List OutboxRow
at_most n [] = []
at_most zero (r ∷ rows) = []
at_most (suc n) (r ∷ rows) = r ∷ at_most n rows

-- `claimBatch`: WHERE published_at IS NULL AND attempts < max ORDER BY id LIMIT batch
unfoldable pub claim_batch : ℕ → ℕ → List OutboxRow → List OutboxRow
unfolding at_most
claim_batch batch max rows =
    at_most batch (select (λ r. not r.published && (max == 0 || ltb r.attempts max)) rows)

-- A pass that has met no refused update asks for the COMMIT.
unfoldable pub commits : Ending → Bool
commits broken = false
commits _ = true

module _ (outside : Outside) where
  -- The loop of `relayOnce`.
  unfoldable pub relay_rows : List OutboxRow → List OutboxRow → Pass
  unfolding mark_published count_attempt
  relay_rows [] rows = ended rows finished
  relay_rows (r ∷ claimed) rows =
      let rest = relay_rows claimed (mark_published r.id rows) in
      if outside.accepts r.id
      then if outside.refuses_update r.id
        then also_sent r.id (ended rows broken)
        else also_sent r.id rest
      else if outside.refuses_update r.id
      then ended rows broken
      else ended (count_attempt r.id rows) stopped

  -- The end of the transaction, whose rows were `before`.
  unfoldable pub settle : List OutboxRow → Pass → Pass
  unfolding commits
  settle before p =
      if commits p.ending && not outside.refuses_commit then p else record p { rows = before }

  -- `relayOnce`
  unfoldable pub relay_once : ℕ → ℕ → List OutboxRow → Pass
  unfolding relay_rows settle claim_batch
  relay_once batch max rows =
      if outside.refuses_begin || outside.refuses_query
      then ended rows broken
      else settle rows (relay_rows (claim_batch batch max rows) rows)
