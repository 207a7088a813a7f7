-- ===== src/Resilience/Breaker.antt =====
-- internal/resilience/breaker.go and deadline.go. The counts are those of gobreaker, a `uint32`
-- each. A quotient of two of them as `float64` is above 0.5 exactly when twice the one is above the
-- other: they are exact, and a quotient above one half is above it by more than the rounding.
use inventory_storage.Prelude.{
  ℕ, ◌+◌, ◌*◌, Bool, true, false, Option, none, some, ltb, leb, if◌then◌else◌,
}
use inventory_storage.Shared.Events.{Time}

pub record Counts : Type 0 where
  pub requests : ℕ
  pub total_failures : ℕ
  pub consecutive_failures : ℕ

-- `minRequestVolumeForErrorRate`
abbrev pub min_request_volume : ℕ
min_request_volume = 10

-- `ReadyToTrip`
unfoldable pub ready_to_trip : Counts → Bool
ready_to_trip c =
    if leb 5 c.consecutive_failures
    then true
    else if ltb c.requests min_request_volume
    then false
    else ltb c.requests (2 * c.total_failures)

-- `CallTimeout`, as the deadline of the context that it returns: the caller's, or the cap from now.
unfoldable pub call_deadline : Option Time → Time → Time → Time
call_deadline none now max_per_call = now + max_per_call
call_deadline (some deadline) now max_per_call =
    if leb deadline (now + max_per_call) then deadline else now + max_per_call
