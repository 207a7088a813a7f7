-- ===== src/Kafka/Encode.antt =====
-- internal/adapters/outbound/kafka/analytics_publisher.go and publisher.go: the message of an event.
-- The lookup of a reservation is a parameter: `err` where it fails, `none` where there is none.
pub mod Delivered
use inventory_storage.Prelude.{
  String, Bool, true, false, Option, none, some, List, [], ◌∷◌, Result, ok, err, Error, str_eq,
  if◌then◌else◌,
}
use inventory_storage.Shared.Int.{Int64}
use inventory_storage.Shared.Events.{
  Time, DomainEvent, stock_received, item_stowed, location_recorded, stock_reserved,
  reservation_expired, reservation_revoked, stock_picked, item_unlocated, cycle_count_completed,
  discrepancy_detected, product_classified,
}
use inventory_storage.Reservation.{Reservation}
use inventory_storage.Analytics.Consumer.{event_type}

-- `ReservationRepo.FindByID`, as the publishers call it.
abbrev pub Lookup : Type 0
Lookup = String → Result (Option Reservation)

-- The payload of an analytics event: `none` for a key that the map does not have.
pub record Payload : Type 0 where
  pub sku : Option String
  pub bin_id : Option String
  pub quantity : Option Int64
  pub reservation_id : Option String
  pub stock_unit_id : Option String
  pub counted : Option Int64
  pub system : Option Int64
  pub discrepancy : Option Bool

abbrev pub no_payload : Payload
no_payload = record {
  sku = none;
  bin_id = none;
  quantity = none;
  reservation_id = none;
  stock_unit_id = none;
  counted = none;
  system = none;
  discrepancy = none;
}

-- `analyticsEvent`
pub record AnalyticsEvent : Type 0 where
  pub entity : String
  pub subject : String
  pub key : String
  pub payload : Payload

-- `EventName` of the domain events.
unfoldable pub event_name : DomainEvent → String
event_name (stock_received at sku qty) = "StockReceived"
event_name (item_stowed at sku bin_id qty) = "ItemStowed"
event_name (location_recorded at unit_id bin_id) = "LocationRecorded"
event_name (stock_reserved at id sku qty demand_ref) = "StockReserved"
event_name (reservation_expired at id) = "ReservationExpired"
event_name (reservation_revoked at id) = "ReservationRevoked"
event_name (stock_picked at id sku qty) = "StockPicked"
event_name (item_unlocated at unit_id sku bin_id qty) = "ItemUnlocated"
event_name (cycle_count_completed at bin_id counted system discrepancy) = "CycleCountCompleted"
event_name (discrepancy_detected at bin_id counted system) = "DiscrepancyDetected"
event_name (product_classified at sku tags tc dot) = "ProductClassified"

-- `reservationSKU`; a nil repository and a failing lookup leave the SKU empty.
unfoldable pub sku_of_found : Result (Option Reservation) → String
sku_of_found (ok (some r)) = r.sku
sku_of_found (ok none) = ""
sku_of_found (err e) = ""

unfoldable pub reservation_sku : Option Lookup → String → String
unfolding sku_of_found
reservation_sku none id = ""
reservation_sku (some find) id = sku_of_found (find id)

-- `analyticsEventFor`, with `binOrUnlocatedEvent`.
unfoldable pub analytics_event_for : Option Lookup → DomainEvent → Option AnalyticsEvent
unfolding reservation_sku
analytics_event_for repo (stock_received at sku qty) = some (record {
  entity = "stock";
  subject = sku;
  key = sku;
  payload = record no_payload { sku = some sku; quantity = some qty };
})
analytics_event_for repo (item_stowed at sku bin_id qty) = some (record {
  entity = "stock";
  subject = sku;
  key = sku;
  payload = record no_payload { sku = some sku; bin_id = some bin_id; quantity = some qty };
})
analytics_event_for repo (stock_picked at id sku qty) = some (record {
  entity = "reservation";
  subject = id;
  key = sku;
  payload = record no_payload { sku = some sku; reservation_id = some id; quantity = some qty };
})
analytics_event_for repo (stock_reserved at id sku qty demand_ref) = some (record {
  entity = "reservation";
  subject = id;
  key = sku;
  payload = record no_payload { sku = some sku; reservation_id = some id; quantity = some qty };
})
analytics_event_for repo (reservation_expired at id) = some (record {
  entity = "reservation";
  subject = id;
  key = id;
  payload = record no_payload { reservation_id = some id; sku = some (reservation_sku repo id) };
})
analytics_event_for repo (reservation_revoked at id) = some (record {
  entity = "reservation";
  subject = id;
  key = id;
  payload = record no_payload { reservation_id = some id; sku = some (reservation_sku repo id) };
})
analytics_event_for repo (cycle_count_completed at bin_id counted system discrepancy) =
    some (record {
      entity = "bin";
      subject = bin_id;
      key = bin_id;
      payload = record no_payload {
        bin_id = some bin_id;
        counted = some counted;
        system = some system;
        discrepancy = some discrepancy;
      };
    })
analytics_event_for repo (discrepancy_detected at bin_id counted system) = some (record {
  entity = "bin";
  subject = bin_id;
  key = bin_id;
  payload = record no_payload {
    bin_id = some bin_id;
    counted = some counted;
    system = some system;
  };
})
analytics_event_for repo (item_unlocated at unit_id sku bin_id qty) = some (record {
  entity = "stock";
  subject = unit_id;
  key = sku;
  payload = record no_payload {
    sku = some sku;
    bin_id = some bin_id;
    stock_unit_id = some unit_id;
    quantity = some qty;
  };
})
analytics_event_for repo (location_recorded at unit_id bin_id) = none
analytics_event_for repo (product_classified at sku tags tc dot) = none

-- `OccurredAt`
abbrev pub occurred_at : DomainEvent → Time
occurred_at (stock_received at sku qty) = at
occurred_at (item_stowed at sku bin_id qty) = at
occurred_at (location_recorded at unit_id bin_id) = at
occurred_at (stock_reserved at id sku qty demand_ref) = at
occurred_at (reservation_expired at id) = at
occurred_at (reservation_revoked at id) = at
occurred_at (stock_picked at id sku qty) = at
occurred_at (item_unlocated at unit_id sku bin_id qty) = at
occurred_at (cycle_count_completed at bin_id counted system discrepancy) = at
occurred_at (discrepancy_detected at bin_id counted system) = at
occurred_at (product_classified at sku tags tc dot) = at

-- `Encoded` with the CloudEvent in it, for the data of a stream.
pub record Encoded (D : Type 0) : Type 0 where
  pub topic : String
  pub event_type : String
  pub key : String
  pub id : String
  pub subject : String
  pub time : Time
  pub payload : D

abbrev pub analytics_topic : String
analytics_topic = "warehouse.inventory.analytics"

abbrev encoded_analytics : String → DomainEvent → Option AnalyticsEvent → List (Encoded Payload)
encoded_analytics id e none = []
encoded_analytics id e (some ae) =
    (record {
      topic = analytics_topic;
      event_type = event_type ae.entity (event_name e);
      key = ae.key;
      id = id;
      subject = if str_eq ae.subject "" then ae.key else ae.subject;
      time = occurred_at e;
      payload = ae.payload;
    })
    ∷ []

-- `AnalyticsPublisher.Encode`, with the id that `newEventID` mints.
unfoldable pub encode_analytics : Option Lookup → String → DomainEvent → List (Encoded Payload)
unfolding analytics_event_for event_name
encode_analytics repo id e = encoded_analytics id e (analytics_event_for repo e)

-- `Topic` and `reservationData` of publisher.go.
abbrev pub integration_topic : String
integration_topic = "warehouse.inventory.events"

pub record ReservationData : Type 0 where
  pub sku : String
  pub quantity : Int64
  pub demand_ref : String

-- Why `Publisher.Encode` fails.
pub data EncodeError : Type 0 where
  lookup_failed : Error → EncodeError
  reservation_not_found : EncodeError

pub data Encoding : Type 0 where
  encoded : List (Encoded ReservationData) → Encoding
  failed : EncodeError → Encoding

abbrev integration_message : String → DomainEvent → String → ReservationData → Encoding
integration_message id e key d = encoded (
    (record {
      topic = integration_topic;
      event_type = event_type "reservation" (event_name e);
      key = key;
      id = id;
      subject = key;
      time = occurred_at e;
      payload = d;
    })
    ∷ [])

abbrev revoked_message : String → DomainEvent → String → Result (Option Reservation) → Encoding
revoked_message id e key (err x) = failed (lookup_failed x)
revoked_message id e key (ok none) = failed reservation_not_found
revoked_message id e key (ok (some r)) =
    integration_message id e key
      (record { sku = r.sku; quantity = r.quantity; demand_ref = r.demand_ref })

-- `Publisher.Encode`
unfoldable pub encode : Lookup → String → DomainEvent → Encoding
unfolding event_name
encode find id (stock_reserved at res sku qty demand_ref) =
    integration_message id (stock_reserved at res sku qty demand_ref) res
      (record { sku = sku; quantity = qty; demand_ref = demand_ref })
encode find id (reservation_revoked at res) =
    revoked_message id (reservation_revoked at res) res (find res)
encode find id _ = encoded []

-- `isIntegrationEvent`
unfoldable pub is_integration_event : DomainEvent → Bool
is_integration_event (stock_reserved at res sku qty demand_ref) = true
is_integration_event (reservation_revoked at res) = true
is_integration_event _ = false
