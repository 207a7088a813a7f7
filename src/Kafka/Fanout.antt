-- ===== src/Kafka/Fanout.antt =====
-- internal/adapters/outbound/events/multi_publisher.go and buffered_publisher.go. What a publisher
-- writes to is a state; the publishers of one process share it.
use inventory_storage.Prelude.{◌≡◌, refl, Option, none, some, List, [], ◌∷◌, ◌++◌, Result, ok, err}
use inventory_storage.Shared.Events.{DomainEvent}

abbrev pub Publisher : Type 0 → Type 0
Publisher S = DomainEvent → S → Result (Unit {0}) × S

-- `BufferedPublisher.Publish`
unfoldable pub buffer : Publisher (List DomainEvent)
buffer event events = (ok tt, events ++ event ∷ [])

module _ {S : Type 0} where
  -- The next step of a method that has published.
  unfoldable pub after_publish :
      Result (Unit {0}) × S → (S → Result (Unit {0}) × S) → Result (Unit {0}) × S
  after_publish (ok done, s) next = next s
  after_publish (err e, s) next = (err e, s)

  -- `MultiPublisher.Publish`, with `none` for a nil publisher.
  unfoldable pub publish_all : List (Option (Publisher S)) → Publisher S
  unfolding after_publish
  publish_all [] event s = (ok tt, s)
  publish_all (none ∷ ps) event s = publish_all ps event s
  publish_all (some p ∷ ps) event s = after_publish (p event s) (publish_all ps event)

  step-append :
      (first : Result (Unit {0}) × S) (next joined last : S → Result (Unit {0}) × S)
      → ((s : S) → joined s ≡ after_publish (next s) last)
      → after_publish first joined ≡ after_publish (after_publish first next) last
  unfolding after_publish
  step-append (ok done, s) next joined last h = h s
  step-append (err e, s) next joined last h = refl

  -- The publishers of two lists are those of the first, and after these, unless one fails, those of
  -- the second.
  publish_all-append :
      (ps qs : List (Option (Publisher S))) (event : DomainEvent) (s : S)
      → publish_all (ps ++ qs) event s
        ≡ after_publish (publish_all ps event s) (publish_all qs event)
  unfolding publish_all after_publish
  publish_all-append [] qs event s = refl
  publish_all-append (none ∷ ps) qs event s = publish_all-append ps qs event s
  publish_all-append (some p ∷ ps) qs event s =
      step-append (p event s) (publish_all ps event) (publish_all (ps ++ qs) event)
        (publish_all qs event) (publish_all-append ps qs event)
