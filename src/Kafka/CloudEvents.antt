-- ===== src/Kafka/CloudEvents.antt =====
-- internal/adapters/kafka/cloudevents/cloudevents.go. What the SDK does is a parameter: the JSON of
-- the data, `none` where it fails, and the validation of an event. An event stands for the bytes that
-- `json.Marshal` writes of it.
use inventory_storage.Prelude.{
  String, Bool, true, false, ◌≡◌, refl, Option, none, some, str_eq, not, ◌||◌, arith, if◌then◌else◌,
}
use inventory_storage.Shared.Int.{Int64, less}
use inventory_storage.Shared.Events.{Time}
use inventory_storage.Analytics.Consumer.{event_type}

pub record Spec (A : Type 0) : Type 0 where
  pub id : String
  pub entity : String
  pub event_name : String
  pub subject : String
  pub time : Time
  pub stream : String
  pub version : Int64
  pub data_ : A

-- `DataSchema`: the parts that the URN is printed of.
pub record DataSchema : Type 0 where
  pub stream : String
  pub event_name : String
  pub version : Int64

-- The event of the SDK, with the fields that are set.
pub record Event : Type 0 where
  pub spec_version : String
  pub id : String
  pub source : String
  pub event_type : String
  pub subject : String
  pub time : Time
  pub data_schema : DataSchema
  pub data_ : String

pub data EventError : Type 0 where
  empty_subject set_data invalid_event not_cloud_event : EventError

pub data EventResult : Type 0 where
  event : Event → EventResult
  event_error : EventError → EventResult

abbrev pub spec_version_1 : String
spec_version_1 = "1.0"

abbrev pub source : String
source = "/warehouse/inventory-storage"

unfoldable pub version_of : Int64 → Int64
version_of v = if less v 1 then 1 else v

module _ {A : Type 0} where
  unfoldable pub event_of : Spec A → String → Event
  unfolding version_of event_type
  event_of s json = record {
    spec_version = spec_version_1;
    id = s.id;
    source = source;
    event_type = event_type s.entity s.event_name;
    subject = s.subject;
    time = s.time;
    data_schema = record {
      stream = s.stream;
      event_name = s.event_name;
      version = version_of s.version;
    };
    data_ = json;
  }

module _ (is_valid : Event → Bool) where
  unfoldable validated : Event → EventResult
  validated e = if is_valid e then event e else event_error invalid_event

  module _ {A : Type 0} where
    unfoldable with_data : Spec A → Option String → EventResult
    unfolding event_of validated
    with_data s none = event_error set_data
    with_data s (some json) = validated (event_of s json)

    unfoldable pub new : (A → Option String) → Spec A → EventResult
    unfolding with_data
    new marshal s =
        if str_eq s.subject "" then event_error empty_subject else with_data s (marshal s.data_)

  -- `Decode`, of what `json.Unmarshal` makes of the bytes.
  unfoldable pub decode : Option Event → EventResult
  decode none = event_error not_cloud_event
  decode (some e) =
      if not (str_eq e.spec_version spec_version_1) || not (is_valid e)
      then event_error not_cloud_event
      else event e

  decode-validated :
      (e : Event) {f : Event}
      → str_eq e.spec_version spec_version_1 ≡ true
      → validated e ≡ event f
      → decode (some f) ≡ event f
  unfolding validated decode
  decode-validated e {f} known h = ground arith

  decode-with_data :
      {A : Type 0} (s : Spec A) (json : Option String) {e : Event}
      → with_data s json ≡ event e
      → decode (some e) ≡ event e
  unfolding with_data event_of
  decode-with_data s none h = cc
  decode-with_data s (some json) h = decode-validated (event_of s json) refl h

  decode-subject :
      (no_subject : Bool) {r : EventResult} {e : Event}
      → (r ≡ event e → decode (some e) ≡ event e)
      → (if no_subject then event_error empty_subject else r) ≡ event e
      → decode (some e) ≡ event e
  decode-subject true k h = cc
  decode-subject false k h = k h

  -- A consumer decodes what a producer made of an occurrence.
  decode-new :
      {A : Type 0} (marshal : A → Option String) (s : Spec A) {e : Event}
      → new marshal s ≡ event e
      → decode (some e) ≡ event e
  unfolding new
  decode-new marshal s h =
      decode-subject (str_eq s.subject "") (decode-with_data s (marshal s.data_)) h
