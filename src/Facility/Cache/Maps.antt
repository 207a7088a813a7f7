-- ===== src/Facility/Cache/Maps.antt =====
-- How `apply` of facilitycache/consumer.go changes the two maps, as functions.
use inventory_storage.Prelude.{
  ◌≡◌, refl, ap, String, false, inl, inr, Option, none, some, List, [], ◌∷◌, arith, str_eq, eq_iff,
  Bool-cases, if◌then◌else◌,
}
use inventory_storage.Product.Classification.{SlotAttributes}
use inventory_storage.Store.Table.{find, find-upsert}
use inventory_storage.Facility.Cache.{
  ZoneData, SlotData, Zone, Slot, zone_key, slot_key, Cache, type_zone_registered,
  type_slot_registered, type_slot_decommissioned, attributes_of, zone_of_slot,
  apply_zone_registered, apply_slot_registered, delete_slot, apply_slot_decommissioned, apply,
}
use inventory_storage.Facility.Cache.Log.{
  Message, otherwise, zone_said, slot_registered_said, slot_gone_said, says_of_zone, says_of_slot,
}

-- The maps as functions.
abbrev pub attributes_in : Option Zone → Option SlotAttributes
attributes_in none = none
attributes_in (some z) = some z.attributes

abbrev pub zone_id_in : Option Slot → Option String
zone_id_in none = none
zone_id_in (some s) = some s.zone_id

abbrev pub zone_in : String → List Zone → Option SlotAttributes
zone_in id rows = attributes_in (find zone_key id rows)

abbrev pub slot_in : String → List Slot → Option String
slot_in code rows = zone_id_in (find slot_key code rows)

abbrev pub overridden : {A : Type 0} → Option (Option A) → Option A → Option A
overridden (some o) old = o
overridden none old = old

zone_registered-zone_at :
    (o : Option ZoneData) (c : Cache) (id : String)
    → zone_in id (apply_zone_registered o c).1.zones
      ≡ otherwise (zone_said id o) (zone_in id c.zones)
unfolding apply_zone_registered
zone_registered-zone_at none c id = refl
zone_registered-zone_at (some d) c id = elim (Bool-cases (str_eq d.zone_id "")) [
  | inl empty ↦ rw empty refl
  | inr given ↦
      let z : Zone = record { zone_id = d.zone_id; attributes = attributes_of d } in
      elim (Bool-cases (str_eq d.zone_id id)) [
        | inl same ↦
            rw (given, same) (ap attributes_in (rw same at (find-upsert zone_key id z c.zones)))
        | inr other ↦
            rw (given, other) (ap attributes_in (rw other at (find-upsert zone_key id z c.zones)))
      ]
]

slot_registered-slot_at :
    (o : Option SlotData) (c : Cache) (code : String)
    → slot_in code (apply_slot_registered o c).1.slots
      ≡ overridden (slot_registered_said code o) (slot_in code c.slots)
unfolding apply_slot_registered
slot_registered-slot_at none c code = refl
slot_registered-slot_at (some d) c code = elim (Bool-cases (str_eq d.location_code "")) [
  | inl empty ↦ rw empty refl
  | inr given ↦
      let s : Slot = record { location_code = d.location_code; zone_id = zone_of_slot d } in
      elim (Bool-cases (str_eq d.location_code code)) [
        | inl same ↦
            rw (given, same) (ap zone_id_in (rw same at (find-upsert slot_key code s c.slots)))
        | inr other ↦
            rw (given, other) (ap zone_id_in (rw other at (find-upsert slot_key code s c.slots)))
      ]
]

find-delete_slot :
    (gone code : String) (rows : List Slot)
    → find slot_key code (delete_slot gone rows)
      ≡ (if str_eq gone code then none else find slot_key code rows)
unfolding delete_slot find
find-delete_slot gone code [] = ground arith
find-delete_slot gone code (s ∷ rows) = ground (
  arith,
  find-delete_slot gone code rows,
  eq_iff s.location_code gone,
  eq_iff s.location_code code,
  eq_iff gone code,
)

slot_gone-slot_at :
    (o : Option SlotData) (c : Cache) (code : String)
    → slot_in code (apply_slot_decommissioned o c).1.slots
      ≡ overridden (slot_gone_said code o) (slot_in code c.slots)
unfolding apply_slot_decommissioned
slot_gone-slot_at none c code = refl
slot_gone-slot_at (some d) c code = elim (Bool-cases (str_eq d.location_code code)) [
  | inl same ↦ rw same (ap zone_id_in (rw same at (find-delete_slot d.location_code code c.slots)))
  | inr other ↦
      rw other (ap zone_id_in (rw other at (find-delete_slot d.location_code code c.slots)))
]

-- What is about the one map leaves the other.
zone_registered-slots :
    (o : Option ZoneData) (c : Cache) → (apply_zone_registered o c).1.slots ≡ c.slots
unfolding apply_zone_registered
zone_registered-slots none c = refl
zone_registered-slots (some d) c = ground arith

slot_registered-zones :
    (o : Option SlotData) (c : Cache) → (apply_slot_registered o c).1.zones ≡ c.zones
unfolding apply_slot_registered
slot_registered-zones none c = refl
slot_registered-zones (some d) c = ground arith

slot_gone-zones :
    (o : Option SlotData) (c : Cache) → (apply_slot_decommissioned o c).1.zones ≡ c.zones
unfolding apply_slot_decommissioned
slot_gone-zones none c = refl
slot_gone-zones (some d) c = refl

pub apply-zone_at :
    (m : Message) (c : Cache) (id : String)
    → zone_in id (apply m c).1.zones ≡ otherwise (says_of_zone id m) (zone_in id c.zones)
unfolding apply
apply-zone_at none c id = refl
apply-zone_at (some e) c id = elim (Bool-cases (str_eq e.event_type type_zone_registered)) [
  | inl zone ↦ rw zone (zone_registered-zone_at e.as_zone c id)
  | inr rest ↦ rw rest (elim (Bool-cases (str_eq e.event_type type_slot_registered)) [
    | inl slot ↦ rw slot (ap (zone_in id) (slot_registered-zones e.as_slot c))
    | inr rest' ↦ rw rest' (elim (Bool-cases (str_eq e.event_type type_slot_decommissioned)) [
      | inl gone ↦ rw gone (ap (zone_in id) (slot_gone-zones e.as_slot c))
      | inr other ↦ rw other refl
    ])
  ])
]

pub apply-slot_at :
    (m : Message) (c : Cache) (code : String)
    → slot_in code (apply m c).1.slots ≡ overridden (says_of_slot code m) (slot_in code c.slots)
unfolding apply
apply-slot_at none c code = refl
apply-slot_at (some e) c code = elim (Bool-cases (str_eq e.event_type type_zone_registered)) [
  | inl zone ↦
      let et : e.event_type ≡ type_zone_registered =
        (eq_iff e.event_type type_zone_registered).0 zone in
      let no_slot : str_eq e.event_type type_slot_registered ≡ false =
        ap (λ t. str_eq t type_slot_registered) et in
      let no_gone : str_eq e.event_type type_slot_decommissioned ≡ false =
        ap (λ t. str_eq t type_slot_decommissioned) et in
      rw (zone, no_slot, no_gone) (ap (slot_in code) (zone_registered-slots e.as_zone c))
  | inr rest ↦ rw rest (elim (Bool-cases (str_eq e.event_type type_slot_registered)) [
    | inl slot ↦ rw slot (slot_registered-slot_at e.as_slot c code)
    | inr rest' ↦ rw rest' (elim (Bool-cases (str_eq e.event_type type_slot_decommissioned)) [
      | inl gone ↦ rw gone (slot_gone-slot_at e.as_slot c code)
      | inr other ↦ rw other refl
    ])
  ])
]
