-- ===== src/Facility/Replay/DeadLetter.antt =====
-- internal/adapters/outbound/facilitycache/consumer.go: the dead-letter publication, and its bounded
-- retry while the topic is created.
use inventory_storage.Prelude.{
  ℕ, zero, suc, ◌+◌, ◌≤◌, ◌<◌, Bool, true, false, not, ◌&&◌, Option, none, some, arith, ltb,
  if◌then◌else◌,
}

-- The error of a write. `WriteErrors` has one entry for each message, which may be nil.
mutual
  pub data WriteError : Type 0 where
    unknown_topic_or_partition leader_not_available other_error : WriteError
    write_errors : Entries → WriteError

  pub data Entries : Type 0 where
    no_entries : Entries
    nil_entry : Entries → Entries
    entry : WriteError → Entries → Entries

-- `isTopicNotReady`, with the loop over the entries and their count.
unfoldable mutual
  pub is_topic_not_ready : WriteError → Bool
  is_topic_not_ready unknown_topic_or_partition = true
  is_topic_not_ready leader_not_available = true
  is_topic_not_ready other_error = false
  is_topic_not_ready (write_errors es) = all_not_ready es && ltb 0 (count_errors es)

  pub all_not_ready : Entries → Bool
  all_not_ready no_entries = true
  all_not_ready (nil_entry es) = all_not_ready es
  all_not_ready (entry e es) = is_topic_not_ready e && all_not_ready es

  pub count_errors : Entries → ℕ
  count_errors no_entries = 0
  count_errors (nil_entry es) = count_errors es
  count_errors (entry e es) = suc (count_errors es)

-- `dlqTopicReadyAttempts`
abbrev pub topic_ready_attempts : ℕ
topic_ready_attempts = 40

-- What the writer answers to the n-th write, `none` where it succeeds, and whether the context is
-- done by the end of the wait after it.
pub record Writer : Type 0 where
  pub write : ℕ → Option WriteError
  pub done : ℕ → Bool

pub data DlqResult : Type 0 where
  written : DlqResult
  failed : Option WriteError → DlqResult
  interrupted : WriteError → DlqResult

-- The result, and the number of writes made.
abbrev pub DlqRun : Type 0
DlqRun = DlqResult × ℕ

-- The end of one pass of the loop, and the further passes.
unfoldable pub after_write : Writer → ℕ → (WriteError → DlqRun) → Option WriteError → DlqRun
unfolding is_topic_not_ready
after_write w attempt rest none = (written, suc attempt)
after_write w attempt rest (some e) =
    if not (is_topic_not_ready e)
    then (failed (some e), suc attempt)
    else if w.done attempt
    then (interrupted e, suc attempt)
    else rest e

-- The loop of `writeDLQ`, with the passes that are left and the error so far.
unfoldable pub write_dlq_from : Writer → ℕ → ℕ → Option WriteError → DlqRun
unfolding after_write
write_dlq_from w zero attempt last = (failed last, attempt)
write_dlq_from w (suc left) attempt last =
    after_write w attempt (λ e. write_dlq_from w left (suc attempt) (some e)) (w.write attempt)

unfoldable pub write_dlq : Writer → DlqRun
unfolding write_dlq_from
write_dlq w = write_dlq_from w topic_ready_attempts 0 none

-- `dlqPublish`: without a writer nothing is done.
unfoldable pub dlq_publish : Option Writer → DlqResult
unfolding write_dlq
dlq_publish none = written
dlq_publish (some w) = (write_dlq w).0

abbrev pub is_written : DlqResult → Bool
is_written written = true
is_written (failed e) = false
is_written (interrupted e) = false

module _ (w : Writer) where
  after_write-bounded :
      (attempt bound : ℕ) (rest : WriteError → DlqRun) (o : Option WriteError)
      → attempt < bound
      → ((e : WriteError) → (rest e).1 ≤ bound)
      → (after_write w attempt rest o).1 ≤ bound
  unfolding after_write
  after_write-bounded attempt bound rest none h r = omega (arith, h)
  after_write-bounded attempt bound rest (some e) h r = ground (arith, h, r e)

  write_dlq_from-bounded :
      (left attempt : ℕ) (last : Option WriteError)
      → (write_dlq_from w left attempt last).1 ≤ attempt + left
  unfolding write_dlq_from
  write_dlq_from-bounded zero attempt last = omega arith
  write_dlq_from-bounded (suc left) attempt last =
      after_write-bounded attempt (attempt + suc left) _ (w.write attempt) (omega arith)
        λ e. let rest = write_dlq_from-bounded left (suc attempt) (some e) in omega (arith, rest)

  -- Whatever the writer answers, the loop of `writeDLQ` ends after 40 writes at most.
  pub write_dlq-bounded : (write_dlq w).1 ≤ topic_ready_attempts
  unfolding write_dlq
  write_dlq-bounded = write_dlq_from-bounded topic_ready_attempts 0 none
