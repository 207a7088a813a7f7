-- ===== src/Kafka/Encode/Delivered.antt =====
-- What the consumer of analytics_consumer.go makes of the messages of analytics_publisher.go.
use inventory_storage.Prelude.{◌≡◌, refl, String, Option, none, some, List, [], ◌∷◌}
use inventory_storage.Shared.Int.{Int64}
use inventory_storage.Shared.Events.{
  DomainEvent, stock_received, item_stowed, location_recorded, stock_reserved, reservation_expired,
  reservation_revoked, stock_picked, item_unlocated, cycle_count_completed, discrepancy_detected,
  product_classified,
}
use inventory_storage.Analytics.Store
use inventory_storage.Analytics.Store.{Movement, MemoryStore, Event, apply}
use inventory_storage.Analytics.Consumer.{AnalyticsData, movement_of, event_type}
use inventory_storage.Kafka.Encode.{
  Lookup, Payload, analytics_event_for, event_name, reservation_sku, Encoded, encode_analytics,
}

abbrev or_empty : Option String → String
or_empty none = ""
or_empty (some s) = s

abbrev or_nothing : Option Int64 → Int64
or_nothing none = 0
or_nothing (some n) = n

-- encoding/json leaves a field that the payload lacks at its zero value.
abbrev data_of : Payload → AnalyticsData
data_of p = record {
  sku = or_empty p.sku;
  bin_id = or_empty p.bin_id;
  quantity = or_nothing p.quantity;
}

-- What a domain event moves in the report.
abbrev pub movement_for : Option Lookup → DomainEvent → Option Movement
movement_for repo (stock_received at sku qty) = some (Store.stock_received sku qty)
movement_for repo (item_stowed at sku bin_id qty) = some (Store.item_stowed sku bin_id)
movement_for repo (stock_picked at id sku qty) = some (Store.stock_picked sku qty)
movement_for repo (stock_reserved at id sku qty demand_ref) = some (Store.stock_reserved sku)
movement_for repo (reservation_expired at id) =
    some (Store.reservation_expired (reservation_sku repo id))
movement_for repo (reservation_revoked at id) =
    some (Store.reservation_revoked (reservation_sku repo id))
movement_for repo (cycle_count_completed at bin_id counted system d) =
    some (Store.cycle_count_completed bin_id)
movement_for repo (discrepancy_detected at bin_id counted system) =
    some (Store.discrepancy_detected bin_id)
movement_for repo (item_unlocated at unit_id sku bin_id qty) =
    some (Store.item_unlocated sku bin_id)
movement_for repo (location_recorded at unit_id bin_id) = none
movement_for repo (product_classified at sku tags tc dot) = none

-- The movements that the consumer finds in the messages of an event.
abbrev movements : List (Encoded Payload) → Option Movement
movements [] = none
movements (m ∷ rest) = movement_of m.event_type (data_of m.payload)

-- Of every domain event the analytics consumer reads the movement that the report counts for it:
-- the types and the fields of the two sides agree, and nothing is read of an event that has no
-- message.
pub delivered_as_counted :
    (repo : Option Lookup) (id : String) (e : DomainEvent)
    → movements (encode_analytics repo id e) ≡ movement_for repo e
unfolding encode_analytics analytics_event_for event_name movement_of event_type
delivered_as_counted repo id (stock_received at sku qty) = refl
delivered_as_counted repo id _ = refl
