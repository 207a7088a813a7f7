-- ===== src/Facility/Cache/Log.antt =====
-- What the messages of the topic say of a zone and of a slot, apart from the code that applies them.
use inventory_storage.Prelude.{
  String, Bool, false, not, ◌||◌, ◌&&◌, Option, none, some, List, [], ◌∷◌, str_eq, if◌then◌else◌,
}
use inventory_storage.Product.Classification.{SlotAttributes}
use inventory_storage.Facility.Cache.{
  ZoneData, SlotData, FacilityEvent, type_zone_registered, type_slot_registered,
  type_slot_decommissioned, attributes_of, zone_of_slot,
}

abbrev pub Message : Type 0
Message = Option FacilityEvent

module _ {A : Type 0} where
  abbrev pub otherwise : Option A → Option A → Option A
  otherwise (some a) o = some a
  otherwise none o = o

  -- The last answer that the log gives.
  abbrev pub last_answer : (Message → Option A) → List Message → Option A
  last_answer f [] = none
  last_answer f (m ∷ log) = otherwise (last_answer f log) (f m)

abbrev pub is_type : String → Message → Bool
is_type t none = false
is_type t (some e) = str_eq e.event_type t

abbrev pub speaks_of_zones : Message → Bool
speaks_of_zones m = is_type type_zone_registered m

abbrev pub speaks_of_slots : Message → Bool
speaks_of_slots m = is_type type_slot_registered m || is_type type_slot_decommissioned m

-- What the data of a registration says of a zone.
abbrev pub zone_said : String → Option ZoneData → Option SlotAttributes
zone_said id none = none
zone_said id (some d) =
    if not (str_eq d.zone_id "") && str_eq d.zone_id id then some (attributes_of d) else none

abbrev pub slot_registered_said : String → Option SlotData → Option (Option String)
slot_registered_said code none = none
slot_registered_said code (some d) =
    if not (str_eq d.location_code "") && str_eq d.location_code code
    then some (some (zone_of_slot d))
    else none

abbrev pub slot_gone_said : String → Option SlotData → Option (Option String)
slot_gone_said code none = none
slot_gone_said code (some d) = if str_eq d.location_code code then some none else none

-- The attributes that a message gives the zone, and the zone that it gives the slot: `some none`
-- where it takes the slot away.
abbrev pub says_of_zone : String → Message → Option SlotAttributes
says_of_zone id none = none
says_of_zone id (some e) =
    if str_eq e.event_type type_zone_registered then zone_said id e.as_zone else none

abbrev pub says_of_slot : String → Message → Option (Option String)
says_of_slot code none = none
says_of_slot code (some e) =
    if str_eq e.event_type type_slot_registered
    then slot_registered_said code e.as_slot
    else if str_eq e.event_type type_slot_decommissioned
    then slot_gone_said code e.as_slot
    else none
