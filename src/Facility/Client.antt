-- ===== src/Facility/Client.antt =====
-- internal/adapters/outbound/facilitylayout: the lookup over HTTP, its retries and its breaker, and
-- the permissive lookup. The breaker of gobreaker says whether it admits a call; what the server
-- answers to the n-th request of a call is a parameter.
use inventory_storage.Prelude.{
  ℕ, zero, suc, ◌+◌, ◌≤◌, String, Bool, true, false, Option, none, some, arith, ◌==◌, if◌then◌else◌,
}
use inventory_storage.Product.Classification.{SlotAttributes, parse_temperature_class}
use inventory_storage.Facility.Cache.{temperature_or_none, unknown_slot}

-- `classificationResponse`
pub record ClassificationResponse : Type 0 where
  pub hazmat : Bool
  pub temperature_class : String

-- What a request comes to: no response, or a status with the body as it decodes.
pub data Answer : Type 0 where
  transport_error : Answer
  answered : ℕ → Option ClassificationResponse → Answer

pub data LookupError : Type 0 where
  transport undecodable : LookupError
  unexpected_status : ℕ → LookupError

pub data Looked : Type 0 where
  found : SlotAttributes → Looked
  failed : LookupError → Looked

-- The body of a 200.
unfoldable pub slot_of_body : Option ClassificationResponse → Looked
unfolding temperature_or_none
slot_of_body none = failed undecodable
slot_of_body (some body) = found (record {
  hazmat_rated = body.hazmat;
  temperature_class = temperature_or_none (parse_temperature_class body.temperature_class);
  known = true;
})

-- `Client.GetSlotAttributes`
unfoldable pub get_slot_attributes : Answer → Looked
unfolding slot_of_body
get_slot_attributes transport_error = failed transport
get_slot_attributes (answered status body) =
    if status == 200
    then slot_of_body body
    else if status == 404
    then found unknown_slot
    else failed (unexpected_status status)

-- `PermissiveLookup.GetSlotAttributes`
abbrev pub permissive : Looked
permissive = found unknown_slot

-- `maxRetryAttempts`
abbrev pub max_retry_attempts : ℕ
max_retry_attempts = 3

-- The answers of the server to the requests of one call, and the error that the retry library
-- returns in place of the next request where the deadline of the call has passed.
pub record Server : Type 0 where
  pub answers : ℕ → Answer
  pub timed_out : ℕ → Option LookupError

abbrev after_fetch : Option LookupError → Looked × ℕ → ℕ → Looked → Looked × ℕ
after_fetch over rest n (found a) = (found a, suc n)
after_fetch (some late) rest n (failed e) = (failed late, suc n)
after_fetch none rest n (failed e) = rest

-- `retryingFetch`, with the retries that are left: the result and the number of requests.
unfoldable pub retry_fetch : Server → ℕ → ℕ → Looked × ℕ
unfolding get_slot_attributes
retry_fetch s zero n = (get_slot_attributes (s.answers n), suc n)
retry_fetch s (suc left) n =
    let rest = retry_fetch s left (suc n) in
    after_fetch (s.timed_out n) rest n (get_slot_attributes (s.answers n))

-- `BreakerClient.GetSlotAttributes`: a rejection by the breaker falls back to the permissive lookup.
unfoldable pub guarded_lookup : Bool → Server → Looked × ℕ
unfolding retry_fetch
guarded_lookup admitted s = if admitted then retry_fetch s 2 0 else (permissive, 0)

after_fetch-bounded :
    (over : Option LookupError) (rest : Looked × ℕ) (n bound : ℕ) (r : Looked)
    → suc n ≤ bound
    → rest.1 ≤ bound
    → (after_fetch over rest n r).1 ≤ bound
after_fetch-bounded over rest n bound (found a) h k = h
after_fetch-bounded (some late) rest n bound (failed e) h k = h
after_fetch-bounded none rest n bound (failed e) h k = k

retry_fetch-bounded : (s : Server) (left n : ℕ) → (retry_fetch s left n).1 ≤ n + suc left
unfolding retry_fetch
retry_fetch-bounded s zero n = omega arith
retry_fetch-bounded s (suc left) n =
    let rest = retry_fetch-bounded s left (suc n) in
    after_fetch-bounded (s.timed_out n) (retry_fetch s left (suc n)) n (n + suc (suc left)) _
      (omega arith) (omega (arith, rest))

-- One lookup makes three requests at most.
pub guarded_lookup-bounded :
    (admitted : Bool) (s : Server) → (guarded_lookup admitted s).1 ≤ max_retry_attempts
unfolding guarded_lookup
guarded_lookup-bounded true s = retry_fetch-bounded s 2 0
guarded_lookup-bounded false s = omega arith
