-- ===== src/Resilience/BootRetry.antt =====
-- internal/adapters/outbound/bootretry/retry.go: the retry of a dial at the start of the process.
use inventory_storage.Prelude.{
  ℕ, zero, suc, ◌+◌, ◌-◌, ◌*◌, ◌%◌, ◌≤◌, ◌<◌, ◌≡◌, refl, Bool, true, false, inl, inr, List, [], ◌∷◌,
  arith, Bool-cases, sum_by, ap, sym, ◌∙◌, if◌then◌else◌,
}
use inventory_storage.Shared.Int.{Int64, modulus}

-- `BootRetries`
abbrev pub boot_retries : ℕ
boot_retries = 5

-- `BootRetryDelay`, a second in nanoseconds.
abbrev pub boot_retry_delay : Int64
boot_retry_delay = 1000000000

-- What `op` answers at an attempt, and whether the context is done before its delay has passed.
pub record Op : Type 0 where
  pub succeeds : ℕ → Bool
  pub cancelled : ℕ → Bool

pub data Outcome : Type 0 where
  connected : Outcome
  gave_up : Outcome
  cancelled : Outcome

-- The outcome, the number of the attempts made, and the delays that were waited for.
pub record Retried : Type 0 where
  pub outcome : Outcome
  pub attempts : ℕ
  pub delays : List Int64

abbrev ended : Outcome → ℕ → Retried
ended o n = record { outcome = o; attempts = n; delays = [] }

abbrev after_delay : Int64 → Retried → Retried
after_delay d r = record r { delays = d ∷ r.delays }

-- The loop of `RetryWithDelay` from an attempt on, with one pass more than the given number.
unfoldable pub retry_from : Op → ℕ → ℕ → Int64 → Retried
retry_from op zero attempt delay =
    if op.succeeds attempt then ended connected attempt else ended gave_up attempt
retry_from op (suc left) attempt delay =
    let later = after_delay delay (retry_from op left (suc attempt) ((delay * 2) % modulus)) in
    if op.succeeds attempt
    then ended connected attempt
    else if op.cancelled attempt
    then ended cancelled attempt
    else later

unfoldable pub retry_with_delay : Op → Int64 → Retried
unfolding retry_from
retry_with_delay op base = retry_from op (boot_retries - 1) 1 base

-- `Retry`
unfoldable pub retry : Op → Retried
unfolding retry_with_delay
retry op = retry_with_delay op boot_retry_delay

module _ (op : Op) where
  retry_from-bounded :
      (left attempt : ℕ) (delay : Int64)
      → let r = retry_from op left attempt delay in
        (attempt ≤ r.attempts)
        × (r.attempts ≤ attempt + left)
        × (r.outcome ≡ connected → op.succeeds r.attempts ≡ true)
        × (r.outcome ≡ gave_up → (r.attempts ≡ attempt + left) × (op.succeeds r.attempts ≡ false))
  unfolding retry_from
  retry_from-bounded zero attempt delay = elim (Bool-cases (op.succeeds attempt)) [
    | inl up ↦ rw up (omega arith, omega arith, λ h. up, λ h. cc)
    | inr down ↦ rw down (omega arith, omega arith, λ h. cc, λ h. (omega arith, down))
  ]
  retry_from-bounded (suc left) attempt delay =
      let (low, high, good, bad) = retry_from-bounded left (suc attempt) ((delay * 2) % modulus) in
      elim (Bool-cases (op.succeeds attempt)) [
        | inl up ↦ rw up (omega arith, omega arith, λ h. up, λ h. cc)
        | inr down ↦ elim (Bool-cases (op.cancelled attempt)) [
          | inl stopped ↦ rw (down, stopped) (omega arith, omega arith, λ h. cc, λ h. cc)
          | inr waited ↦
              rw (down, waited)
                (
                  omega (arith, low),
                  omega (arith, high),
                  good,
                  λ h. let (e, f) = bad h in (omega (arith, e), f),
                )
        ]
      ]

  retry_from-failed :
      (left attempt : ℕ) (delay : Int64) (n : ℕ)
      → attempt ≤ n
      → n < (retry_from op left attempt delay).attempts
      → op.succeeds n ≡ false
  unfolding retry_from
  retry_from-failed zero attempt delay n low high = ground (arith, low, high)
  retry_from-failed (suc left) attempt delay n low high =
      let rest = retry_from-failed left (suc attempt) ((delay * 2) % modulus) n in
      ground (arith, low, high, rest)

  abbrev waited : Retried → ℕ
  waited r = sum_by (λ d. d) r.delays

  -- The delays add up to the total at most, and to the total where the retry gives up.
  abbrev Waits : ℕ → ℕ → Int64 → ℕ → Type 0
  Waits left attempt delay total =
      let r = retry_from op left attempt delay in
      (waited r ≤ total) × (r.outcome ≡ gave_up → waited r ≡ total)

  Waits-last : (attempt : ℕ) (delay : Int64) → Waits zero attempt delay 0
  unfolding retry_from
  Waits-last attempt delay = elim (Bool-cases (op.succeeds attempt)) [
    | inl up ↦ rw up (omega arith, λ h. refl)
    | inr down ↦ rw down (omega arith, λ h. refl)
  ]

  Waits-step :
      (left attempt : ℕ) (delay : Int64) (total : ℕ)
      → Waits left (suc attempt) ((delay * 2) % modulus) total
      → Waits (suc left) attempt delay (delay + total)
  unfolding retry_from
  Waits-step left attempt delay total h = elim (Bool-cases (op.succeeds attempt)) [
    | inl up ↦ rw up (omega arith, λ g. cc)
    | inr down ↦ elim (Bool-cases (op.cancelled attempt)) [
      | inl stopped ↦ rw (down, stopped) (omega arith, λ g. cc)
      | inr passed ↦
          let at_most = h.0 in
          rw (down, passed) (omega (arith, at_most), λ g. let e = h.1 g in omega (arith, e))
    ]
  ]

  -- `Retry` ends after one to five attempts, whatever the dial answers and whether or not the
  -- context is done: it is connected only by an attempt that succeeded, every attempt before the
  -- last one failed, and it gives up only after five that failed. The delays that it waits for add
  -- up to 15 seconds at most, and to exactly 15 when it gives up.
  pub retry-ends :
      let r = retry op in
      (1 ≤ r.attempts)
      × (r.attempts ≤ 5)
      × (r.outcome ≡ connected → op.succeeds r.attempts ≡ true)
      × ((n : ℕ) → 1 ≤ n → n < r.attempts → op.succeeds n ≡ false)
      × (r.outcome ≡ gave_up → (r.attempts ≡ 5) × (op.succeeds 5 ≡ false))
      × (sum_by (λ d. d) r.delays ≤ 15000000000)
      × (r.outcome ≡ gave_up → sum_by (λ d. d) r.delays ≡ 15000000000)
  unfolding retry retry_with_delay
  retry-ends =
      let (low, high, good, bad) = retry_from-bounded 4 1 boot_retry_delay in
      let waits : Waits 4 1 1000000000 15000000000 = Waits-step 3 1 1000000000 14000000000 (
        Waits-step 2 2 2000000000 12000000000 (
          Waits-step 1 3 4000000000 8000000000
            (Waits-step 0 4 8000000000 0 (Waits-last 5 16000000000)))) in
      (
        low,
        high,
        good,
        retry_from-failed 4 1 boot_retry_delay,
        λ h. let (e, f) = bad h in (e, ap op.succeeds (sym e) ∙ f),
        waits.0,
        waits.1,
      )
