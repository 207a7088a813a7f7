-- ===== src/Reservation/Lifecycle.antt =====
-- The state machine of a reservation: it is resolved at most once, and then never changes.
use native.Mathlib.Nat.{zero-add, add-zero}
use inventory_storage.Prelude.{
  ℕ, ◌+◌, ◌≡◌, ◌≢◌, refl, ◌⊎◌, inl, inr, Result, ok, err, already_resolved, List, [], ◌∷◌, arith,
}
use inventory_storage.Shared.Events.{Time}
use inventory_storage.Reservation.{active, Reservation, revoke, confirm, expire}

-- An attempt to resolve a reservation.
pub data Attempt : Type 0 where
  revoking : Attempt
  confirming : Time → Attempt
  expiring : Attempt

abbrev pub attempt : Attempt → Reservation → Result Reservation
attempt revoking r = revoke r
attempt (confirming now) r = confirm r now
attempt expiring r = expire r

-- A caller that tries one after the other, and goes on with the same reservation after an error.
-- The number counts the attempts that succeeded.
abbrev kept : Reservation → Result Reservation → Reservation
kept r (ok r') = r'
kept r (err e) = r

abbrev succeeded : Result Reservation → ℕ
succeeded (ok r) = 1
succeeded (err e) = 0

pub run : Reservation → List Attempt → Reservation × ℕ
run r [] = (r, 0)
run r (a ∷ rest) = let x = attempt a r in let (r', n) = run (kept r x) rest in (r', succeeded x + n)

-- The outcome of attempts: nothing happened, or one succeeded and set the status for good.
abbrev pub Outcome : Reservation → Reservation × ℕ → Type 0
Outcome r (r', n) =
    ((n ≡ 0) × (r' ≡ r))
    ⊎ ((n ≡ 1)
        × (r.status ≡ active)
        × (r'.status ≢ active)
        × (r' ≡ record r { status = r'.status }))

attempt-Outcome :
    (a : Attempt) (r : Reservation) → Outcome r (kept r (attempt a r), succeeded (attempt a r))
unfolding revoke confirm expire
attempt-Outcome revoking r = ground arith
attempt-Outcome (confirming now) r = ground arith
attempt-Outcome expiring r = ground arith

attempt-resolved :
    (a : Attempt) (r : Reservation) → r.status ≢ active → attempt a r ≡ err already_resolved
unfolding revoke confirm expire
attempt-resolved revoking r h = ground arith
attempt-resolved (confirming now) r h = ground arith
attempt-resolved expiring r h = ground arith

run-resolved : (l : List Attempt) (r : Reservation) → r.status ≢ active → run r l ≡ (r, 0)
unfolding run
run-resolved [] r h = refl
run-resolved (a ∷ rest) r h = rw (attempt-resolved a r h) (rw (run-resolved rest r h))

-- Whatever attempts to revoke, confirm or expire a reservation are made, in whatever order and with
-- whatever clock readings: either none succeeded and the reservation is as it was, or exactly one
-- succeeded, the reservation was active before and is not active after, and only its status changed.
pub resolved_once : (l : List Attempt) (r : Reservation) → Outcome r (run r l)
unfolding run
resolved_once [] r = inl (refl, refl)
resolved_once (a ∷ rest) r = elim (attempt-Outcome a r) [
  | inl (p, q) ↦ rw (p, q, zero-add) (resolved_once rest r)
  | inr (p, act, ne, e) ↦
      rw (run-resolved rest (kept r (attempt a r)) ne) (rw add-zero (inr (p, act, ne, e)))
]
