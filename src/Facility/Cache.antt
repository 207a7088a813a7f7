-- ===== src/Facility/Cache.antt =====
-- internal/adapters/outbound/facilitycache/consumer.go: the two maps of the consumer, how an event
-- changes them, and the lookup. An event comes as `cloudevents.Decode` and `DataAs` make it.
pub mod Log
pub mod Maps
pub mod Lookup
use Prim.Native.String.{◌++◌ as append, [] as no_chars, ◌∷◌ as char_before}
use Prim.Native.Char.{Char, code}
use inventory_storage.Prelude.{
  String, Bool, true, false, Option, none, some, List, [], ◌∷◌, Result, ok, err, str_eq, ◌==◌, not,
  length, ℕ, select, if◌then◌else◌,
}
use inventory_storage.Product.Classification.{
  SlotAttributes, TemperatureClass, parse_temperature_class,
}
use inventory_storage.Store.Table.{find, upsert}

abbrev pub type_zone_registered : String
type_zone_registered = "com.warehouse.wms.facility-layout.zone.ZoneRegistered"

abbrev pub type_slot_registered : String
type_slot_registered = "com.warehouse.wms.facility-layout.locationslot.LocationSlotRegistered"

abbrev pub type_slot_decommissioned : String
type_slot_decommissioned =
    "com.warehouse.wms.facility-layout.locationslot.LocationSlotDecommissioned"

pub record ZoneData : Type 0 where
  pub zone_id : String
  pub temperature_class : String
  pub hazmat : Bool

pub record SlotData : Type 0 where
  pub location_code : String
  pub zone_id : String

-- A CloudEvent: its full type, and its data as either payload, `none` where `DataAs` fails.
pub record FacilityEvent : Type 0 where
  pub event_type : String
  pub as_zone : Option ZoneData
  pub as_slot : Option SlotData

-- Why `apply` refuses a message.
pub data ApplyError : Type 0 where
  not_cloud_event undecodable empty_zone_id empty_location_code : ApplyError

pub record Zone : Type 0 where
  pub zone_id : String
  pub attributes : SlotAttributes

pub record Slot : Type 0 where
  pub location_code : String
  pub zone_id : String

abbrev pub zone_key : Zone → String
zone_key z = z.zone_id

abbrev pub slot_key : Slot → String
slot_key s = s.location_code

-- The maps `zones` and `slots`.
pub record Cache : Type 0 where
  pub zones : List Zone
  pub slots : List Slot

abbrev pub empty_cache : Cache
empty_cache = record { zones = []; slots = [] }

-- `strings.Split(code, "-")`
abbrev onto_first : Char → List String → List String
onto_first c [] = (char_before c no_chars) ∷ []
onto_first c (part ∷ parts) = (char_before c part) ∷ parts

unfoldable pub split_hyphens : String → List String
split_hyphens no_chars = "" ∷ []
split_hyphens (char_before c s) =
    let rest = split_hyphens s in if code c == 45 then "" ∷ rest else onto_first c rest

-- The first three parts joined, or the empty string where there are fewer.
unfoldable pub join_three : List String → String
join_three (a ∷ b ∷ c ∷ rest) = append a (append "-" (append b (append "-" c)))
join_three _ = ""

-- `zoneIDFromLocationCode`
unfoldable pub zone_id_from_location_code : String → String
unfolding split_hyphens join_three
zone_id_from_location_code location_code = join_three (split_hyphens location_code)

-- An unparseable temperature class falls back to the zero value.
unfoldable pub temperature_or_none : Result TemperatureClass → TemperatureClass
temperature_or_none (ok tc) = tc
temperature_or_none (err e) = ""

unfoldable pub attributes_of : ZoneData → SlotAttributes
unfolding temperature_or_none
attributes_of data_ = record {
  hazmat_rated = data_.hazmat;
  temperature_class = temperature_or_none (parse_temperature_class data_.temperature_class);
  known = true;
}

-- What an application of an event returns: the error, if any, and the maps.
abbrev pub Applied : Type 0
Applied = Option ApplyError × Cache

-- `applyZoneRegistered`
unfoldable pub apply_zone_registered : Option ZoneData → Cache → Applied
unfolding attributes_of
apply_zone_registered none c = (some undecodable, c)
apply_zone_registered (some data_) c =
    if str_eq data_.zone_id "" then (some empty_zone_id, c) else (
      none,
      record c {
        zones =
            upsert zone_key (record { zone_id = data_.zone_id; attributes = attributes_of data_ })
              c.zones;
      },
    )

unfoldable pub zone_of_slot : SlotData → String
unfolding zone_id_from_location_code
zone_of_slot data_ =
    if str_eq data_.zone_id ""
    then zone_id_from_location_code data_.location_code
    else data_.zone_id

-- `applySlotRegistered`
unfoldable pub apply_slot_registered : Option SlotData → Cache → Applied
unfolding zone_of_slot
apply_slot_registered none c = (some undecodable, c)
apply_slot_registered (some data_) c =
    if str_eq data_.location_code "" then (some empty_location_code, c) else (
      none,
      record c {
        slots =
            upsert slot_key
              (record { location_code = data_.location_code; zone_id = zone_of_slot data_ })
              c.slots;
      },
    )

-- `delete(c.slots, data.LocationCode)`
unfoldable pub delete_slot : String → List Slot → List Slot
delete_slot code = select (λ s. not (str_eq s.location_code code))

unfoldable pub apply_slot_decommissioned : Option SlotData → Cache → Applied
unfolding delete_slot
apply_slot_decommissioned none c = (some undecodable, c)
apply_slot_decommissioned (some data_) c =
    (none, record c { slots = delete_slot data_.location_code c.slots })

-- `apply`
unfoldable pub apply : Option FacilityEvent → Cache → Applied
unfolding apply_zone_registered apply_slot_registered apply_slot_decommissioned
apply none c = (some not_cloud_event, c)
apply (some e) c =
    if str_eq e.event_type type_zone_registered
    then apply_zone_registered e.as_zone c
    else if str_eq e.event_type type_slot_registered
    then apply_slot_registered e.as_slot c
    else if str_eq e.event_type type_slot_decommissioned
    then apply_slot_decommissioned e.as_slot c
    else (none, c)

-- `Slots` and `Zones`
unfoldable pub count_slots : Cache → ℕ
count_slots c = length c.slots

unfoldable pub count_zones : Cache → ℕ
count_zones c = length c.zones

-- `product.SlotAttributes{Known: false}`
abbrev pub unknown_slot : SlotAttributes
unknown_slot = record { hazmat_rated = false; temperature_class = ""; known = false }

unfoldable pub attributes_or_unknown : Option Zone → SlotAttributes
attributes_or_unknown none = unknown_slot
attributes_or_unknown (some z) = z.attributes

unfoldable pub zone_attributes : Cache → Option Slot → SlotAttributes
unfolding attributes_or_unknown
zone_attributes c none = unknown_slot
zone_attributes c (some s) = attributes_or_unknown (find zone_key s.zone_id c.zones)

-- `GetSlotAttributes`
unfoldable pub get_slot_attributes : Cache → String → SlotAttributes
unfolding zone_attributes
get_slot_attributes c bin_id = zone_attributes c (find slot_key bin_id c.slots)
