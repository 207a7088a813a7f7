-- ===== src/Facility/Replay/Readiness.antt =====
-- When the consumer of facilitycache/consumer.go is ready.
use inventory_storage.Prelude.{
  ℕ, suc, ◌≡◌, ◌==◌, refl, sym, ap, ◌∙◌, Bool, true, false, inl, inr, not, ◌||◌, ◌&&◌, Option, none,
  some, List, [], ◌∷◌, arith, leb, is_empty, select, Bool-cases, if◌then◌else◌,
}
use inventory_storage.Facility.Cache.{ApplyError, apply}
use inventory_storage.Facility.Replay.{
  Message, Target, PartitionOffsets, Consumer, mark_ready, new_target_offsets, new_consumer,
  reaches, observe, dead_letter, run_once, run,
}
use inventory_storage.Facility.Replay.DeadLetter.{Writer}

-- The message is one of the last of its partition, or comes after them.
abbrev pub is_at_end : Message → Target → Bool
is_at_end m t = t.partition == m.partition && leb t.end_offset (suc m.offset)

-- A message of the log has brought the partition to its end.
abbrev pub read_to : List (Message × Option Writer) → Target → Bool
read_to [] t = false
read_to ((m, writer) ∷ rest) t = is_at_end m t || read_to rest t

reaches-at_end : (m : Message) (t : Target) → reaches m.partition m.offset t ≡ is_at_end m t
reaches-at_end m t = ground arith

-- The partition was empty at the start, or is read to where it then ended.
abbrev pub caught_up : List (Message × Option Writer) → PartitionOffsets → Bool
caught_up log p =
    leb p.last p.first || read_to log (record { partition = p.partition; end_offset = p.last })

abbrev pub every : {A : Type 0} → (A → Bool) → List A → Bool
every t [] = true
every t (x ∷ xs) = t x && every t xs

-- The gate is open exactly where no target is left, and its channel was closed exactly then.
record IsGated (c : Consumer) : Type 0 where
  gate : c.ready ≡ is_empty c.target
  closes : c.closed ≡ (if c.ready then 1 else 0)

select-unread :
    {A : Type 0} (f g : A → Bool) (l : List A)
    → select (λ t. not (g t)) (select (λ t. not (f t)) l) ≡ select (λ t. not (f t || g t)) l
select-unread f g [] = refl
select-unread f g (t ∷ l) = ground (arith, select-unread f g l)

select-same :
    {A : Type 0} (f g : A → Bool) (l : List A) → ((t : A) → f t ≡ g t) → select f l ≡ select g l
select-same f g [] h = refl
select-same f g (t ∷ l) h = let e = h t in let rest = select-same f g l h in ground (arith, e, rest)

select-everything : {A : Type 0} (l : List A) → l ≡ select (λ t. true) l
select-everything [] = refl
select-everything (t ∷ l) = ap (λ r. t ∷ r) (select-everything l)

is_empty-select :
    {A : Type 0} (f : A → Bool) (l : List A) → is_empty l ≡ true → is_empty (select f l) ≡ true
is_empty-select f [] h = refl
is_empty-select f (x ∷ l) h = cc

observe-target :
    (p o : ℕ) (c : Consumer) → (observe p o c).target ≡ select (λ t. not (reaches p o t)) c.target
unfolding observe mark_ready
observe-target p o c = ground arith

observe-IsGated : (p o : ℕ) (c : Consumer) → IsGated c → IsGated (observe p o c)
unfolding observe mark_ready
observe-IsGated p o c h =
    elim (Bool-cases (is_empty (select (λ t. not (reaches p o t)) c.target))) [
      | inl e ↦ rw e (record { gate = sym e; closes = ground (arith, h.closes) })
      | inr e ↦
          let shrinks = is_empty-select (λ t. not (reaches p o t)) c.target in
          rw e (record { gate = ground (arith, h.gate, shrinks, e); closes = h.closes })
    ]

dead_letter-keeps :
    (writer : Option Writer) (m : Message) (e : Option ApplyError) (c : Consumer)
    → IsGated c
    → IsGated (dead_letter writer m e c) × ((dead_letter writer m e c).target ≡ c.target)
unfolding dead_letter
dead_letter-keeps writer m none c h = (h, refl)
dead_letter-keeps writer m (some e) c h = (record { gate = h.gate; closes = h.closes }, refl)

run-IsGated :
    (log : List (Message × Option Writer)) (c : Consumer)
    → IsGated c
    → IsGated (run log c) × ((run log c).target ≡ select (λ t. not (read_to log t)) c.target)
unfolding run run_once
run-IsGated [] c h = (h, select-everything c.target)
run-IsGated ((m, writer) ∷ log) c h =
    let (e, cache) = apply m.event c.cache in
    let applied : Consumer = record c { cache = cache } in
    let (gated, kept) =
      dead_letter-keeps writer m e applied (record { gate = h.gate; closes = h.closes }) in
    let (gated', target) =
      run-IsGated log (run_once writer m c)
        (observe-IsGated m.partition m.offset (dead_letter writer m e applied) gated) in
    (
      gated',
      target
          ∙ ap (select (λ t. not (read_to log t))) (
              observe-target m.partition m.offset (dead_letter writer m e applied)
              ∙ ap (select (λ t. not (reaches m.partition m.offset t))) kept)
          ∙ select-unread (reaches m.partition m.offset) (read_to log) c.target
          ∙ select-same (λ t. not (reaches m.partition m.offset t || read_to log t))
              (λ t. not (is_at_end m t || read_to log t)) c.target
              (λ t. ap (λ b. not (b || read_to log t)) (reaches-at_end m t)),
    )

new_consumer-IsGated : (ps : List PartitionOffsets) → IsGated (new_consumer ps)
unfolding new_consumer mark_ready
new_consumer-IsGated ps = elim (Bool-cases (is_empty (new_target_offsets ps))) [
  | inl e ↦ rw e (record { gate = sym e; closes = refl })
  | inr e ↦ rw e (record { gate = sym e; closes = refl })
]

new_consumer-target :
    (ps : List PartitionOffsets) → (new_consumer ps).target ≡ new_target_offsets ps
unfolding new_consumer mark_ready
new_consumer-target ps = ground arith

unread_targets :
    (log : List (Message × Option Writer)) (ps : List PartitionOffsets)
    → is_empty (select (λ t. not (read_to log t)) (new_target_offsets ps))
      ≡ every (caught_up log) ps
unfolding new_target_offsets
unread_targets log [] = refl
unread_targets log (p ∷ ps) = ground (arith, unread_targets log ps)

-- Whatever messages the consumer reads, in whatever order, with any of them malformed and whatever
-- the dead-letter writer answers: it is ready exactly when every partition that held a message at
-- its start has been read to where it ended then; so it becomes ready when the last of these
-- messages is read, and stays ready. And the channel that `WaitReady` waits on was closed once if it
-- is ready, and never otherwise.
pub ready-when_caught_up :
    (ps : List PartitionOffsets) (log : List (Message × Option Writer))
    → let c = run log (new_consumer ps) in
      (c.ready ≡ every (caught_up log) ps) × (c.closed ≡ (if c.ready then 1 else 0))
ready-when_caught_up ps log =
    let (gated, target) = run-IsGated log (new_consumer ps) (new_consumer-IsGated ps) in
    (
      gated.gate
          ∙ ap is_empty target
          ∙ ap (λ l. is_empty (select (λ t. not (read_to log t)) l)) (new_consumer-target ps)
          ∙ unread_targets log ps,
      gated.closes,
    )
