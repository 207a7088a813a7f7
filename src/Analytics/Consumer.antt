-- ===== src/Analytics/Consumer.antt =====
-- internal/adapters/inbound/kafka/analytics_consumer.go and
-- internal/adapters/outbound/analyticsstore/consumed_events_repo.go: the consumer that gives each
-- event of the analytics topic to the projection.
use Prim.Native.String.{◌++◌ as append}
use inventory_storage.Prelude.{
  String, Bool, true, false, Option, none, some, List, [], ◌∷◌, ◌||◌, not, str_eq, if◌then◌else◌,
}
use inventory_storage.Shared.Int.{Int64}
use inventory_storage.Shared.Events.{Time}
use inventory_storage.Analytics.Store.{
  MemoryStore, Movement, was_seen, apply, stock_received, item_stowed, stock_picked, stock_reserved,
  reservation_expired, reservation_revoked, cycle_count_completed, discrepancy_detected,
  item_unlocated,
}

-- `analyticsData`
pub record AnalyticsData : Type 0 where
  pub sku : String
  pub bin_id : String
  pub quantity : Int64

-- A CloudEvent of the topic; the data is `none` where `DataAs` fails.
pub record CloudEvent : Type 0 where
  pub id : String
  pub event_type : String
  pub time : Time
  pub data_ : Option AnalyticsData

-- `cloudevents.Type` of an entity and an event name.
unfoldable pub event_type : String → String → String
event_type entity name =
    append "com.warehouse.wms.inventory-storage." (append entity (append "." name))

abbrev type_is : String → String → String → Bool
type_is t entity name = str_eq t (event_type entity name)

-- `projects`
unfoldable pub projects : String → Bool
unfolding event_type
projects t =
    type_is t "stock" "StockReceived"
    || type_is t "stock" "ItemStowed"
    || type_is t "reservation" "StockPicked"
    || type_is t "reservation" "StockReserved"
    || type_is t "reservation" "ReservationExpired"
    || type_is t "reservation" "ReservationRevoked"
    || type_is t "bin" "CycleCountCompleted"
    || type_is t "bin" "DiscrepancyDetected"
    || type_is t "stock" "ItemUnlocated"

-- The call that `applyEvent` makes for a type.
unfoldable pub movement_of : String → AnalyticsData → Option Movement
unfolding event_type
movement_of t d =
    if type_is t "stock" "StockReceived"
    then some (stock_received d.sku d.quantity)
    else if type_is t "stock" "ItemStowed"
    then some (item_stowed d.sku d.bin_id)
    else if type_is t "reservation" "StockPicked"
    then some (stock_picked d.sku d.quantity)
    else if type_is t "reservation" "StockReserved"
    then some (stock_reserved d.sku)
    else if type_is t "reservation" "ReservationExpired"
    then some (reservation_expired d.sku)
    else if type_is t "reservation" "ReservationRevoked"
    then some (reservation_revoked d.sku)
    else if type_is t "bin" "CycleCountCompleted"
    then some (cycle_count_completed d.bin_id)
    else if type_is t "bin" "DiscrepancyDetected"
    then some (discrepancy_detected d.bin_id)
    else if type_is t "stock" "ItemUnlocated"
    then some (item_unlocated d.sku d.bin_id)
    else none

-- The table analytics_consumed_events, and the projection.
pub record State : Type 0 where
  pub consumed : List String
  pub store : MemoryStore

-- What `HandleMessage` returns.
pub data Handled : Type 0 where
  handled not_cloud_event mark_failed undecodable : Handled

-- `applyEvent`
unfoldable pub apply_event : CloudEvent → Option Movement → MemoryStore → MemoryStore
apply_event e none s = s
apply_event e (some m) s = apply (record { id = e.id; at = e.time; movement = m }) s

-- `HandleMessage` once the event is marked as processed for the first time.
unfoldable pub handle_new : CloudEvent → Option AnalyticsData → State → Handled × State
unfolding apply_event movement_of
handle_new e none s = (undecodable, s)
handle_new e (some d) s =
    (handled, record s { store = apply_event e (movement_of e.event_type d) s.store })

-- `HandleMessage`, with what `cloudevents.Decode` makes of the message; the server refuses the
-- statement of `MarkProcessed` where `refused` holds.
unfoldable pub handle_message : Option CloudEvent → Bool → State → Handled × State
unfolding projects handle_new
handle_message none refused s = (not_cloud_event, s)
handle_message (some e) refused s =
    if not (projects e.event_type)
    then (handled, s)
    else if refused
    then (mark_failed, s)
    else if was_seen e.id s.consumed
    then (handled, s)
    else handle_new e e.data_ (record s { consumed = e.id ∷ s.consumed })

-- `Handle`: a message that is no CloudEvent is skipped without an error.
unfoldable pub handle : Option CloudEvent → Bool → State → Bool × State
unfolding handle_message
handle m refused s = elim ((handle_message m refused s).0) [
  | handled ↦ (true, (handle_message m refused s).1)
  | not_cloud_event ↦ (true, (handle_message m refused s).1)
  | mark_failed ↦ (false, (handle_message m refused s).1)
  | undecodable ↦ (false, (handle_message m refused s).1)
]

-- `Run`: an error is logged, and the next message is read.
unfoldable pub run : List (Option CloudEvent × Bool) → State → State
unfolding handle
run [] s = s
run ((m, refused) ∷ rest) s = run rest (handle m refused s).1
