-- ===== src/Facility/Cache/Lookup.antt =====
-- What the cache answers, from the events alone: the last one that speaks of the slot, and the last
-- one that speaks of its zone.
use inventory_storage.Prelude.{
  ◌≡◌, refl, sym, ap, ◌∙◌, String, Bool, false, inl, inr, Option, none, some, List, [], ◌∷◌, arith,
  Bool-cases, Option-cases, select,
}
use inventory_storage.Product.Classification.{SlotAttributes}
use inventory_storage.Store.Table.{find}
use inventory_storage.Facility.Cache.{
  zone_key, slot_key, Cache, empty_cache, apply, unknown_slot, attributes_or_unknown,
  zone_attributes, get_slot_attributes,
}
use inventory_storage.Facility.Cache.Log.{
  Message, otherwise, last_answer, speaks_of_zones, speaks_of_slots, says_of_zone, says_of_slot,
}
use inventory_storage.Facility.Cache.Maps.{
  zone_in, slot_in, overridden, apply-zone_at, apply-slot_at,
}

abbrev known_attributes : Option SlotAttributes → SlotAttributes
known_attributes none = unknown_slot
known_attributes (some a) = a

abbrev in_zone : List Message → Option (Option String) → SlotAttributes
in_zone log none = unknown_slot
in_zone log (some none) = unknown_slot
in_zone log (some (some id)) = known_attributes (last_answer (says_of_zone id) log)

-- The specification of the lookup.
abbrev pub looked_up : List Message → String → SlotAttributes
looked_up log code = in_zone log (last_answer (says_of_slot code) log)

-- The cache after the messages of a log.
abbrev pub apply_all : List Message → Cache → Cache
apply_all [] c = c
apply_all (m ∷ log) c = apply_all log (apply m c).1

otherwise-none : {A : Type 0} (o : Option A) → otherwise o none ≡ o
otherwise-none none = refl
otherwise-none (some a) = refl

otherwise_assoc :
    {A : Type 0} (a b c : Option A) → otherwise a (otherwise b c) ≡ otherwise (otherwise a b) c
otherwise_assoc none b c = refl
otherwise_assoc (some a) b c = refl

overridden_assoc :
    {A : Type 0} (a b : Option (Option A)) (c : Option A)
    → overridden a (overridden b c) ≡ overridden (otherwise a b) c
overridden_assoc none b c = refl
overridden_assoc (some a) b c = refl

apply_all-zone_at :
    (log : List Message) (c : Cache) (id : String)
    → zone_in id (apply_all log c).zones
      ≡ otherwise (last_answer (says_of_zone id) log) (zone_in id c.zones)
apply_all-zone_at [] c id = refl
apply_all-zone_at (m ∷ log) c id =
    apply_all-zone_at log (apply m c).1 id
    ∙ ap (otherwise (last_answer (says_of_zone id) log)) (apply-zone_at m c id)
    ∙ otherwise_assoc (last_answer (says_of_zone id) log) (says_of_zone id m) (zone_in id c.zones)

apply_all-slot_at :
    (log : List Message) (c : Cache) (code : String)
    → slot_in code (apply_all log c).slots
      ≡ overridden (last_answer (says_of_slot code) log) (slot_in code c.slots)
apply_all-slot_at [] c code = refl
apply_all-slot_at (m ∷ log) c code =
    apply_all-slot_at log (apply m c).1 code
    ∙ ap (overridden (last_answer (says_of_slot code) log)) (apply-slot_at m c code)
    ∙ overridden_assoc (last_answer (says_of_slot code) log) (says_of_slot code m)
        (slot_in code c.slots)

-- A log as the messages that are told apart by a test, when the others say nothing.
last_answer-select :
    {A : Type 0} (f : Message → Option A) (t : Message → Bool) (log : List Message)
    → ((m : Message) → t m ≡ false → f m ≡ none)
    → last_answer f (select t log) ≡ last_answer f log
last_answer-select f t [] h = refl
last_answer-select f t (m ∷ log) h = elim (Bool-cases (t m)) [
  | inl kept ↦ rw kept (ap (λ o. otherwise o (f m)) (last_answer-select f t log h))
  | inr dropped ↦ rw dropped (
      last_answer-select f t log h
      ∙ sym (otherwise-none (last_answer f log))
      ∙ sym (ap (otherwise (last_answer f log)) (h m dropped)))
]

silent_of_zones : (id : String) (m : Message) → speaks_of_zones m ≡ false → says_of_zone id m ≡ none
silent_of_zones id none h = refl
silent_of_zones id (some e) h = rw h refl

silent_of_slots :
    (code : String) (m : Message) → speaks_of_slots m ≡ false → says_of_slot code m ≡ none
silent_of_slots code none h = refl
silent_of_slots code (some e) h = ground (arith, h)

abbrev joined : Cache → Option String → SlotAttributes
joined c none = unknown_slot
joined c (some id) = known_attributes (zone_in id c.zones)

get-joined :
    (c : Cache) (code : String) → get_slot_attributes c code ≡ joined c (slot_in code c.slots)
unfolding get_slot_attributes zone_attributes attributes_or_unknown
get-joined c code = elim (Option-cases (find slot_key code c.slots)) [
  | inl absent ↦ rw absent refl
  | inr (s, present) ↦ rw present (elim (Option-cases (find zone_key s.zone_id c.zones)) [
    | inl absent ↦ rw absent refl
    | inr (z, found) ↦ rw found refl
  ])
]

joined-in_zone :
    (log : List Message) (o : Option (Option String))
    → joined (apply_all log empty_cache) (overridden o none) ≡ in_zone log o
unfolding find
joined-in_zone log none = refl
joined-in_zone log (some none) = refl
joined-in_zone log (some (some id)) =
    ap known_attributes
      (apply_all-zone_at log empty_cache id ∙ otherwise-none (last_answer (says_of_zone id) log))

lookup-last :
    (log : List Message) (code : String)
    → get_slot_attributes (apply_all log empty_cache) code ≡ looked_up log code
unfolding find
lookup-last log code =
    get-joined (apply_all log empty_cache) code
    ∙ ap (joined (apply_all log empty_cache)) (apply_all-slot_at log empty_cache code)
    ∙ joined-in_zone log (last_answer (says_of_slot code) log)

-- The specification on the zone events and the slot events of a log apart.
abbrev looked_up_in : List Message → List Message → String → SlotAttributes
looked_up_in zones slots code = in_zone zones (last_answer (says_of_slot code) slots)

in_zone-select :
    (log : List Message) (o : Option (Option String))
    → in_zone log o ≡ in_zone (select speaks_of_zones log) o
in_zone-select log none = refl
in_zone-select log (some none) = refl
in_zone-select log (some (some id)) =
    ap known_attributes
      (sym (last_answer-select (says_of_zone id) speaks_of_zones log (silent_of_zones id)))

looked_up-select :
    (log : List Message) (code : String)
    → looked_up log code
      ≡ looked_up_in (select speaks_of_zones log) (select speaks_of_slots log) code
looked_up-select log code =
    in_zone-select log (last_answer (says_of_slot code) log)
    ∙ ap (in_zone (select speaks_of_zones log))
        (sym (last_answer-select (says_of_slot code) speaks_of_slots log (silent_of_slots code)))

-- For any log, with any malformed messages, redeliveries and events of other types in it, the
-- lookup in the cache that the log builds is what the log says: the attributes of the last
-- registration of the zone which the last event on the slot gave it, and the unknown answer if
-- there is none or the slot was last decommissioned. And the interleaving does not matter: two logs
-- with the same zone events in order and the same slot events in order give the same lookups.
pub lookup-looked_up :
    (log log' : List Message) (code : String)
    → (get_slot_attributes (apply_all log empty_cache) code ≡ looked_up log code)
      × (select speaks_of_zones log ≡ select speaks_of_zones log'
          → select speaks_of_slots log ≡ select speaks_of_slots log'
          → get_slot_attributes (apply_all log empty_cache) code
            ≡ get_slot_attributes (apply_all log' empty_cache) code)
lookup-looked_up log log' code = (
  lookup-last log code,
  λ zones slots.
      lookup-last log code
      ∙ looked_up-select log code
      ∙ ap (λ l. looked_up_in l (select speaks_of_slots log) code) zones
      ∙ ap (λ l. looked_up_in (select speaks_of_zones log') l code) slots
      ∙ sym (looked_up-select log' code)
      ∙ sym (lookup-last log' code),
)
