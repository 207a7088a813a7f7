-- ===== src/Tests/Adapters.antt =====
-- Runs of the adapters: the HTTP routes and the idempotency middleware, the facility cache, the
-- analytics store and the retry at the start.
use Prim.Native.String.{[] as no_chars, ◌∷◌ as char_before}
use Prim.Native.Char.{Char, code}
use mathlib.Core.Path.{subst}
use inventory_storage.Prelude.{
  ℕ, ◌≤◌, ◌<◌, ◌≡◌, ◌⊎◌, refl, ap, String, true, false, Option, none, some, List, [], ◌∷◌, All,
  arith, str_eq, eq_iff, sym, Bool-cases, inl, inr, ◌==◌, if◌then◌else◌, sum_by, select, Rearranged,
}
use inventory_storage.Store.Table.{find}
use inventory_storage.Store.Keeps.{IsWellformed}
use inventory_storage.Http.Response.{Headers, no_body}
use inventory_storage.Http.Handlers.{handle_receive_stock}
use inventory_storage.Http.Routes.{
  Call, post_reservations, post_stock_receive, put_bin, post_cycle_count, serve_calls, HoldsInts,
}
use inventory_storage.Http.Routes.Wellformed.{serve_calls-IsWellformed}
use inventory_storage.Http.Idempotency.{
  KeyRow, Codec, IsCodec, KeyedRequest, responded, Next, State, require_idempotency_key,
  stored_headers, or_no_headers,
}
use inventory_storage.Http.Idempotency.Entries.{Entry, IsCompleted, IsUnserved, Serves, ledger}
use inventory_storage.Http.Idempotency.Ledger.{middleware-Serves}
use inventory_storage.Http.Idempotency.Retries.{
  Happening, keyed, elsewhere, happen_all, retry-replays,
}
use inventory_storage.Product.Classification.{parse_temperature_class, is_temperature_class}
use inventory_storage.Facility.Cache.{
  ZoneData, SlotData, empty_cache, get_slot_attributes, type_zone_registered, type_slot_registered,
  attributes_of, zone_of_slot, temperature_or_none, zone_id_from_location_code, split_hyphens,
  join_three,
}
use inventory_storage.Facility.Cache.Log.{Message, speaks_of_zones, speaks_of_slots}
use inventory_storage.Facility.Cache.Lookup.{apply_all, lookup-looked_up}
use inventory_storage.Facility.Replay
use inventory_storage.Facility.Replay.{PartitionOffsets}
use inventory_storage.Facility.Replay.DeadLetter.{Writer, leader_not_available}
use inventory_storage.Facility.Replay.Readiness.{ready-when_caught_up}
use inventory_storage.Analytics.Store
use inventory_storage.Analytics.Store.Totals
use inventory_storage.Analytics.Store.Columns.{total, received_quantity}
use inventory_storage.Analytics.Store.Totals.{contribution, first_of_each, query-totals}
use inventory_storage.Resilience.BootRetry.{Op, retry, retry-ends, connected, gave_up}
use inventory_storage.Tests.Data.{
  env, env_failing_at, start, warehouse-IsWellformed, env-IsOrdering,
}

abbrev calls : List Call
calls =
    post_reservations (some (record { sku = "BOLT"; quantity = 3; demand_ref = "order-2" }))
    ∷ put_bin "A-3" (some (record { capacity = some 18446744073709551615 }))
    ∷ post_cycle_count "A-1" (some (record { counted_quantity = some 9 }))
    ∷ post_stock_receive none
    ∷ []

serve_calls-IsWellformed_example : IsWellformed (serve_calls env calls start).db
unfolding HoldsInts
serve_calls-IsWellformed_example =
    serve_calls-IsWellformed env (env-IsOrdering 1000) calls start
      (omega arith, (omega arith, (omega arith, (tt, tt)))) warehouse-IsWellformed

-- A codec for no header, and for one content type.
abbrev read_header : String → Option Headers
read_header no_chars = none
read_header (char_before c s) = if code c == 99 then some (("Content-Type", s) ∷ []) else some []

abbrev write_headers : Headers → Option String
write_headers [] = some "{"
write_headers ((name, value) ∷ []) =
    if str_eq name "Content-Type" then some (char_before "c" value) else none
write_headers (a ∷ b ∷ rest) = none

abbrev codec : Codec
codec = record { hash = λ s. s; marshal = write_headers; unmarshal = read_header }

reads_back : (h : Headers) (s : String) → write_headers h ≡ some s → read_header s ≡ some h
reads_back [] s e = let f : "{" ≡ s = cc in subst (λ t. read_header t ≡ some []) f refl
reads_back ((name, value) ∷ []) s e = elim (Bool-cases (str_eq name "Content-Type")) [
  | inl same ↦
      let e' : some (char_before "c" value) ≡ some s = rw same at e in
      let f : char_before "c" value ≡ s = cc in
      subst (λ t. read_header t ≡ some ((name, value) ∷ [])) f
        (ap (λ x. some ((x, value) ∷ [])) (sym ((eq_iff name "Content-Type").0 same)))
  | inr other ↦ let e' : none ≡ some s = rw other at e in cc
]
reads_back (a ∷ b ∷ rest) s e = cc

cons_nonempty : (c : Char) (s : String) → str_eq (char_before c s) "" ≡ false
cons_nonempty c s = elim (Bool-cases (str_eq (char_before c s) "")) [
  | inl e ↦ let f : char_before c s ≡ "" = (eq_iff (char_before c s) "").0 e in cc
  | inr e ↦ e
]

nonempty : (h : Headers) (s : String) → write_headers h ≡ some s → str_eq s "" ≡ false
nonempty [] s e = let f : "{" ≡ s = cc in subst (λ t. str_eq t "" ≡ false) f refl
nonempty ((name, value) ∷ []) s e = elim (Bool-cases (str_eq name "Content-Type")) [
  | inl same ↦
      let e' : some (char_before "c" value) ≡ some s = rw same at e in
      let f : char_before "c" value ≡ s = cc in
      subst (λ t. str_eq t "" ≡ false) f (cons_nonempty "c" value)
  | inr other ↦ let e' : none ≡ some s = rw other at e in cc
]
nonempty (a ∷ b ∷ rest) s e = cc

codec-IsCodec : IsCodec codec
codec-IsCodec = record { reads_back = reads_back; nonempty = nonempty }

-- The route of POST /stock/receive behind the middleware.
abbrev next : Next
next w = (
  responded (handle_receive_stock env (some (record { sku = "BOLT"; quantity = 5 })) w).0,
  (handle_receive_stock env (some (record { sku = "BOLT"; quantity = 5 })) w).1,
)

abbrev request : KeyedRequest
request = record {
  idempotency_key = "key-1";
  method = "POST";
  path = "/stock/receive";
  body = some "{sku: BOLT, quantity: 5}";
}

abbrev fresh : State
fresh = record { world = start; keys = [] }

middleware-Serves_example :
    let (out, s') = require_idempotency_key codec env request next fresh in
    All IsCompleted s'.keys
    × Serves codec request next (ledger codec fresh) start.db out (ledger codec s') s'.world.db
middleware-Serves_example = middleware-Serves codec codec-IsCodec env request next fresh tt

abbrev stored : KeyRow
stored = record {
  key = "key-1";
  method = "POST";
  path = "/stock/receive";
  request_hash = "{sku: BOLT, quantity: 5}";
  status_code = some 202;
  response_body = no_body;
  response_headers = "capplication/json";
}

abbrev entry : Entry
entry = record {
  request_hash = "{sku: BOLT, quantity: 5}";
  response = record {
    status = 202;
    headers = ("Content-Type", "application/json") ∷ [];
    body = no_body;
  };
}

abbrev served : State
served = record { world = start; keys = stored ∷ [] }

abbrev between : List Happening
between =
    keyed (env_failing_at 2) (record request { idempotency_key = "key-2" }) next
    ∷ elsewhere (λ w. record w { calls = 7 })
    ∷ []

served-entry : ledger codec served "key-1" ≡ some entry
unfolding find stored_headers or_no_headers
served-entry = refl

retry-replays_example :
    let before = happen_all codec between served in
    let (out, after) = require_idempotency_key codec env request next before in
    (after.world.db ≡ before.world.db)
    × ((out ≡ responded entry.response) ⊎ IsUnserved out)
    × (str_eq "key-1" "" ≡ false → ((n : ℕ) → env.fails n ≡ false) → out ≡ responded entry.response)
retry-replays_example =
    retry-replays codec codec-IsCodec "key-1" entry served between env request next
      "{sku: BOLT, quantity: 5}" (((202, refl), tt), served-entry) refl refl refl

abbrev ambient_zone : ZoneData
ambient_zone = record { zone_id = "WH1-STOR-AMB"; temperature_class = "Ambient"; hazmat = true }

abbrev slot_data : SlotData
slot_data = record { location_code = "WH1-STOR-AMB-A07-03-02-B"; zone_id = "" }

abbrev zone_event : Message
zone_event =
    some (record { event_type = type_zone_registered; as_zone = some ambient_zone; as_slot = none })

abbrev slot_event : Message
slot_event =
    some (record { event_type = type_slot_registered; as_zone = none; as_slot = some slot_data })

-- The slot comes before its zone, with a message between them that is no CloudEvent.
abbrev topic : List Message
topic = slot_event ∷ none ∷ zone_event ∷ slot_event ∷ []

abbrev other_topic : List Message
other_topic = zone_event ∷ slot_event ∷ slot_event ∷ []

lookup-looked_up_example :
    (get_slot_attributes (apply_all topic empty_cache) "WH1-STOR-AMB-A07-03-02-B"
      ≡ record { hazmat_rated = true; temperature_class = "Ambient"; known = true })
    × (select speaks_of_zones topic ≡ select speaks_of_zones other_topic
        → select speaks_of_slots topic ≡ select speaks_of_slots other_topic
        → get_slot_attributes (apply_all topic empty_cache) "WH1-STOR-AMB-A07-03-02-B"
          ≡ get_slot_attributes (apply_all other_topic empty_cache) "WH1-STOR-AMB-A07-03-02-B")
unfolding attributes_of zone_of_slot temperature_or_none parse_temperature_class
    is_temperature_class zone_id_from_location_code split_hyphens join_three
lookup-looked_up_example = lookup-looked_up topic other_topic "WH1-STOR-AMB-A07-03-02-B"

abbrev partitions : List PartitionOffsets
partitions =
    (record { partition = 0; first = 3; last = 5 })
    ∷ (record { partition = 1; first = 0; last = 0 })
    ∷ []

abbrev broken_writer : Writer
broken_writer = record { write = λ n. some leader_not_available; done = λ n. false }

abbrev replay : List (Replay.Message × Option Writer)
replay =
    (record { partition = 0; offset = 3; event = slot_event }, none)
    ∷ (record { partition = 0; offset = 4; event = none }, some broken_writer)
    ∷ []

ready-when_caught_up_example :
    let c = Replay.run replay (Replay.new_consumer partitions) in
    (c.ready ≡ true) × (c.closed ≡ (if c.ready then 1 else 0))
ready-when_caught_up_example = ready-when_caught_up partitions replay

abbrev receipt : Store.Event
receipt = record { id = "e-1"; at = 3600000000001; movement = Store.stock_received "BOLT" 5 }

abbrev second_receipt : Store.Event
second_receipt = record { id = "e-2"; at = 3600000000002; movement = Store.stock_received "BOLT" 2 }

abbrev report_query : Store.ReportQuery
report_query = record { start = 0; end_time = 7200000000000; sku = "BOLT"; bin_id = "" }

abbrev bolts_row : Store.RowKey
bolts_row = record { sku = "BOLT"; bin_id = ""; hour_bucket = 3600000000000 }

-- The first receipt is delivered twice.
abbrev events : List Store.Event
events = receipt ∷ second_receipt ∷ receipt ∷ []

abbrev other_events : List Store.Event
other_events = second_receipt ∷ receipt ∷ []

query-totals_example :
    (total received_quantity bolts_row
        (Store.query report_query (Totals.apply_all events Store.new_memory_store))
      ≡ 7)
    × (Rearranged (first_of_each [] events) (first_of_each [] other_events)
        → total received_quantity bolts_row
            (Store.query report_query (Totals.apply_all events Store.new_memory_store))
          ≡ total received_quantity bolts_row
              (Store.query report_query (Totals.apply_all other_events Store.new_memory_store)))
unfolding Store.is_selected Store.same_key Store.row_key Store.key_at Store.hour_bucket
    Store.was_seen
query-totals_example = query-totals report_query received_quantity bolts_row events other_events

-- The first two dials fail.
abbrev dial : Op
dial = record { succeeds = λ n. n == 3; cancelled = λ n. false }

retry-ends_example :
    let r = retry dial in
    (1 ≤ r.attempts)
    × (r.attempts ≤ 5)
    × (r.outcome ≡ connected → dial.succeeds r.attempts ≡ true)
    × ((n : ℕ) → 1 ≤ n → n < r.attempts → dial.succeeds n ≡ false)
    × (r.outcome ≡ gave_up → (r.attempts ≡ 5) × (dial.succeeds 5 ≡ false))
    × (sum_by (λ d. d) r.delays ≤ 15000000000)
    × (r.outcome ≡ gave_up → sum_by (λ d. d) r.delays ≡ 15000000000)
retry-ends_example = retry-ends dial
