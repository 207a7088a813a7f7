-- ===== src/Http/Idempotency/Entries.antt =====
-- What the middleware of idempotency.go promises: a ledger of the keys that were served, each with
-- the hash of its request and with its answer.
use inventory_storage.Prelude.{
  ℕ, ◌≡◌, ◌⊎◌, refl, String, true, false, inl, inr, Option, none, some, str_eq, if◌then◌else◌,
}
use inventory_storage.Store.Table.{find}
use inventory_storage.Store.World.{Db, World}
use inventory_storage.Http.Errors.{ProblemInfo, bad_request, internal_server_error}
use inventory_storage.Http.Response.{Response, write_problem}
use inventory_storage.Http.Idempotency.{
  KeyRow, row_key, Codec, KeyedRequest, Outcome, responded, panicked, Next, State, internal,
  mismatch, stored_headers,
}

pub record Entry : Type 0 where
  pub request_hash : String
  pub response : Response

abbrev pub Ledger : Type 0
Ledger = String → Option Entry

-- A committed row has its outcome.
abbrev pub IsCompleted : KeyRow → Type 0
IsCompleted row = (status : ℕ) × (row.status_code ≡ some status)

module _ (codec : Codec) where
  abbrev pub entry_with : KeyRow → Option ℕ → Option Entry
  entry_with row none = none
  entry_with row (some status) = some (record {
    request_hash = row.request_hash;
    response = record {
      status = status;
      headers = stored_headers codec row.response_headers;
      body = row.response_body;
    };
  })

  abbrev pub entry_of : Option KeyRow → Option Entry
  entry_of none = none
  entry_of (some row) = entry_with row row.status_code

  abbrev pub ledger : State → Ledger
  ledger s k = entry_of (find row_key k s.keys)

-- The request was not served: it is malformed, a call failed or the handler panicked.
unfoldable pub IsUnserved : Outcome → Type 0
IsUnserved panicked = Unit
IsUnserved (responded r) = (r.status ≡ bad_request) ⊎ (r.status ≡ internal_server_error)

pub internal-IsUnserved : IsUnserved internal
unfolding IsUnserved write_problem
internal-IsUnserved = inr refl

pub malformed-IsUnserved : (p : ProblemInfo) → IsUnserved (responded (write_problem bad_request p))
unfolding IsUnserved write_problem
malformed-IsUnserved p = inl refl

pub panicked-IsUnserved : IsUnserved panicked
unfolding IsUnserved
panicked-IsUnserved = tt

abbrev pub Unchanged : Ledger → Db → Ledger → Db → Type 0
Unchanged l db l' db' = ((k : String) → l' k ≡ l k) × (db' ≡ db)

-- One request, as the ledger sees it.
pub data Serves (codec : Codec) (req : KeyedRequest) (next : Next) (l : Ledger) (db : Db)
    (out : Outcome) (l' : Ledger) (db' : Db) : Type 0 where
  unserved : IsUnserved out → Unchanged l db l' db' → Serves codec req next l db out l' db'
  -- The key was used for another body.
  reused :
      (bytes : String) (e : Entry)
      → req.body ≡ some bytes
      → l req.idempotency_key ≡ some e
      → str_eq e.request_hash (codec.hash bytes) ≡ false
      → out ≡ mismatch
      → Unchanged l db l' db'
      → Serves codec req next l db out l' db'
  replayed :
      (bytes : String) (e : Entry)
      → req.body ≡ some bytes
      → l req.idempotency_key ≡ some e
      → e.request_hash ≡ codec.hash bytes
      → out ≡ responded e.response
      → Unchanged l db l' db'
      → Serves codec req next l db out l' db'
  -- The handler ran, and what it wrote is committed with its answer.
  performed :
      (bytes : String) (r : Response) (w w' : World)
      → req.body ≡ some bytes
      → l req.idempotency_key ≡ none
      → w.db ≡ db
      → w.in_tx ≡ true
      → next w ≡ (responded r, w')
      → out ≡ responded r
      → ((k : String)
          → l' k ≡ (
              if str_eq req.idempotency_key k
              then some (record { request_hash = codec.hash bytes; response = r })
              else l k))
      → db' ≡ w'.db
      → Serves codec req next l db out l' db'
