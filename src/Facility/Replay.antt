-- ===== src/Facility/Replay.antt =====
-- internal/adapters/outbound/facilitycache/consumer.go: the consumer. It reads the topic from its
-- beginning, dead-letters what it cannot apply, and is ready when it has read what was there when it
-- started. Offsets are below 2 ^ 63 - 1, so `offset + 1` does not wrap around.
pub mod DeadLetter
pub mod Readiness
use inventory_storage.Prelude.{
  ℕ, suc, String, Bool, true, false, Option, none, some, List, [], ◌∷◌, not, ◌==◌, leb, is_empty,
  select, if◌then◌else◌,
}
use inventory_storage.Facility.Cache.{FacilityEvent, Cache, ApplyError, Applied, empty_cache, apply}
use inventory_storage.Facility.Replay.DeadLetter.{Writer, DlqResult, dlq_publish, is_written}

pub record Message : Type 0 where
  pub partition : ℕ
  pub offset : ℕ
  -- What `cloudevents.Decode` makes of the value.
  pub event : Option FacilityEvent

-- One entry of the map `targetOffsets`: the offset after the last message of a partition.
pub record Target : Type 0 where
  pub partition : ℕ
  pub end_offset : ℕ

-- The consumer, with what became of the messages that it could not apply.
pub record Consumer : Type 0 where
  pub cache : Cache
  pub ready : Bool
  -- How often `readyCh` was closed.
  pub closed : ℕ
  pub target : List Target
  pub dead_letters : List (Message × Bool)

unfoldable pub mark_ready : Consumer → Consumer
mark_ready c = record c { ready = true; closed = if c.ready then c.closed else suc c.closed }

-- `ReadOffsets` of the partitions: one that is empty asks for nothing.
pub record PartitionOffsets : Type 0 where
  pub partition : ℕ
  pub first : ℕ
  pub last : ℕ

unfoldable pub new_target_offsets : List PartitionOffsets → List Target
new_target_offsets [] = []
new_target_offsets (p ∷ ps) =
    let rest = new_target_offsets ps in
    if leb p.last p.first
    then rest
    else (record { partition = p.partition; end_offset = p.last }) ∷ rest

-- `NewConsumerForTopic`
unfoldable pub new_consumer : List PartitionOffsets → Consumer
unfolding new_target_offsets mark_ready
new_consumer ps =
    let target = new_target_offsets ps in
    let c : Consumer = record {
      cache = empty_cache;
      ready = false;
      closed = 0;
      target = target;
      dead_letters = [];
    } in
    if is_empty target then mark_ready c else c

-- The partition has reached its target.
abbrev pub reaches : ℕ → ℕ → Target → Bool
reaches partition offset t =
    if t.partition == partition then leb t.end_offset (suc offset) else false

-- `observe`
unfoldable pub observe : ℕ → ℕ → Consumer → Consumer
unfolding mark_ready
observe partition offset c =
    let c' = record c { target = select (λ t. not (reaches partition offset t)) c.target } in
    if is_empty c'.target then mark_ready c' else c'

-- One pass of the loop of `Run`, with what the dead-letter writer answers.
unfoldable pub dead_letter : Option Writer → Message → Option ApplyError → Consumer → Consumer
unfolding dlq_publish
dead_letter writer m none c = c
dead_letter writer m (some e) c = record c {
  dead_letters = (m, is_written (dlq_publish writer)) ∷ c.dead_letters;
}

unfoldable pub run_once : Option Writer → Message → Consumer → Consumer
unfolding apply dead_letter observe
run_once writer m c =
    let (e, cache) = apply m.event c.cache in
    observe m.partition m.offset (dead_letter writer m e (record c { cache = cache }))

-- `Run`, up to the error of the reader that ends it.
unfoldable pub run : List (Message × Option Writer) → Consumer → Consumer
unfolding run_once
run [] c = c
run ((m, writer) ∷ rest) c = run rest (run_once writer m c)
