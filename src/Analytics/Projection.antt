-- ===== src/Analytics/Projection.antt =====
-- internal/adapters/outbound/analyticsstore/postgres_projection.go and postgres_report.go: the read
-- model on Postgres. The tables are lists of rows; a call of a number that fails is one that the
-- server refuses, and so is an addition that leaves the range of a BIGINT column.
use inventory_storage.Prelude.{
  ℕ, suc, ◌-◌, ◌≡◌, refl, inl, inr, String, Bool, true, false, not, ◌&&◌, Option, none, some, List,
  [], ◌∷◌, arith, ltb, Bool-cases, str_eq, select, if◌then◌else◌,
}
use inventory_storage.Shared.Int
use inventory_storage.Shared.Int.{Int64, is_negative}
use inventory_storage.Shared.Events.{Time}
use inventory_storage.Store.World.{Env}
use inventory_storage.Analytics.Store.{
  RowKey, RowAcc, zero_acc, Row, same_key, Movement, Event, row_key, moved, ReportQuery,
  is_selected,
}

-- A row of analytics_processed_events.
pub record ProcessedEvent : Type 0 where
  pub event_id : String
  pub occurred_at : Time

-- The tables, and the number of the next call.
pub record Projection : Type 0 where
  pub processed : List ProcessedEvent
  pub rollup : List Row
  pub calls : ℕ

-- The increments of an event: `rollupDelta`.
abbrev pub delta_of : Movement → RowAcc
delta_of v = moved v zero_acc

unfoldable pub is_claimed : String → List ProcessedEvent → Bool
is_claimed id [] = false
is_claimed id (p ∷ rest) = if str_eq p.event_id id then true else is_claimed id rest

-- The sum of two BIGINTs is one.
unfoldable pub fits : Int64 → Int64 → Bool
fits a b =
    if is_negative a
    then (if is_negative b then is_negative (Int.add a b) else true)
    else if is_negative b
    then true
    else not (is_negative (Int.add a b))

abbrev pub all_fit : RowAcc → RowAcc → Bool
all_fit r d =
    fits r.received_quantity d.received_quantity
    && fits r.stowed_count d.stowed_count
    && fits r.picked_quantity d.picked_quantity
    && fits r.reservations_created d.reservations_created
    && fits r.reservations_expired d.reservations_expired
    && fits r.reservations_revoked d.reservations_revoked
    && fits r.cycle_counts_completed d.cycle_counts_completed
    && fits r.discrepancies_detected d.discrepancies_detected
    && fits r.unlocated_count d.unlocated_count

abbrev pub added : RowAcc → RowAcc → RowAcc
added r d = record {
  received_quantity = Int.add r.received_quantity d.received_quantity;
  stowed_count = Int.add r.stowed_count d.stowed_count;
  picked_quantity = Int.add r.picked_quantity d.picked_quantity;
  reservations_created = Int.add r.reservations_created d.reservations_created;
  reservations_expired = Int.add r.reservations_expired d.reservations_expired;
  reservations_revoked = Int.add r.reservations_revoked d.reservations_revoked;
  cycle_counts_completed = Int.add r.cycle_counts_completed d.cycle_counts_completed;
  discrepancies_detected = Int.add r.discrepancies_detected d.discrepancies_detected;
  unlocated_count = Int.add r.unlocated_count d.unlocated_count;
}

abbrev onto : Row → Option (List Row) → Option (List Row)
onto r none = none
onto r (some rows) = some (r ∷ rows)

-- `upsertRollup`: `none` where a column overflows.
unfoldable pub upsert_rollup : RowKey → RowAcc → List Row → Option (List Row)
unfolding same_key fits
upsert_rollup k d [] = some ((record { key = k; acc = d }) ∷ [])
upsert_rollup k d (r ∷ rows) =
    let rest = onto r (upsert_rollup k d rows) in
    if same_key r.key k
    then if all_fit r.acc d then some ((record r { acc = added r.acc d }) ∷ rows) else none
    else rest

abbrev pub after_calls : ℕ → Projection → Projection
after_calls n p = record p { calls = n }

-- The COMMIT of `inTx`, or its ROLLBACK.
unfoldable pub commit : Env → Projection → Option Projection → ℕ → Bool × Projection
commit env before none n = (false, after_calls (suc n) before)
commit env before (some p) n =
    if env.fails n then (false, after_calls (suc n) before) else (true, after_calls (suc n) p)

-- The upsert of `applyDelta`, with what it writes.
unfoldable pub with_rollup : Projection → Option (List Row) → Option Projection
with_rollup p none = none
with_rollup p (some rows) = some (record p { rollup = rows })

-- `applyDelta`, from its BEGIN: whether it succeeds, and the tables.
unfoldable pub apply_delta : Env → Event → Projection → Bool × Projection
unfolding is_claimed commit with_rollup upsert_rollup row_key moved
apply_delta env e p =
    let n = p.calls in
    let claimed : Projection = record p {
      processed = (record { event_id = e.id; occurred_at = e.at }) ∷ p.processed;
    } in
    let written = upsert_rollup (row_key e.movement e.at) (delta_of e.movement) p.rollup in
    if env.fails n
    then (false, after_calls (suc n) p)
    else if env.fails (suc n)
    then commit env p none (suc (suc n))
    else if is_claimed e.id p.processed
    then commit env p (some p) (suc (suc n))
    else if env.fails (suc (suc n))
    then commit env p none (suc (suc (suc n)))
    else commit env p (with_rollup claimed written) (suc (suc (suc n)))

commit-failed :
    (env : Env) (p : Projection) (o : Option Projection) (n : ℕ)
    → (commit env p o n).0 ≡ false
    → ((commit env p o n).1.processed ≡ p.processed) × ((commit env p o n).1.rollup ≡ p.rollup)
unfolding commit
commit-failed env p none n h = (refl, refl)
commit-failed env p (some q) n h = (ground (arith, h), ground (arith, h))

-- An application that fails has claimed nothing and counted nothing, so the event can be applied
-- again.
pub apply_delta_failed :
    (env : Env) (e : Event) (p : Projection)
    → (apply_delta env e p).0 ≡ false
    → ((apply_delta env e p).1.processed ≡ p.processed)
      × ((apply_delta env e p).1.rollup ≡ p.rollup)
unfolding apply_delta
apply_delta_failed env e p = elim (Bool-cases (env.fails p.calls)) [
  | inl a ↦ rw a (λ h. (refl, refl))
  | inr b ↦ elim (Bool-cases (env.fails (suc p.calls))) [
    | inl a' ↦ rw (b, a') (λ h. (refl, refl))
    | inr b' ↦ elim (Bool-cases (is_claimed e.id p.processed)) [
      | inl old ↦ rw (b, b', old) (commit-failed env p (some p) (suc (suc p.calls)))
      | inr new ↦ elim (Bool-cases (env.fails (suc (suc p.calls)))) [
        | inl a'' ↦ rw (b, b', new, a'') (λ h. (refl, refl))
        | inr b'' ↦ rw (b, b', new, b'') (commit-failed env p _ (suc (suc (suc p.calls))))
      ]
    ]
  ]
]

-- `PostgresReport.Query`, less the order of the rows.
unfoldable pub query_rollup : ReportQuery → Projection → List Row
query_rollup q p = select (λ r. is_selected q r.key) p.rollup

-- The maximum of `occurred_at`.
unfoldable pub latest : List ProcessedEvent → Option Time
latest [] = none
latest (p ∷ rest) = elim (latest rest) [
  | none ↦ some p.occurred_at
  | some t ↦ if ltb t p.occurred_at then some p.occurred_at else some t
]

-- `PostgresReport.FreshnessLag`
unfoldable pub rollup_lag : Time → Projection → Time
unfolding latest
rollup_lag now p = elim (latest p.processed) [
  | none ↦ 0
  | some t ↦ if ltb now t then 0 else now - t
]
