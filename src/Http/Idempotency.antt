-- ===== src/Http/Idempotency.antt =====
-- internal/adapters/inbound/http/idempotency.go: the middleware `RequireIdempotencyKey`. The table
-- idempotency_keys stands beside the other tables, and one transaction is on both. A request is run
-- from its begin to its end: Postgres makes a second inserter of a key wait for the first.
pub mod Entries
pub mod Ledger
pub mod Retries
use mathlib.Core.Option
use inventory_storage.Prelude.{
  ℕ, suc, ◌≡◌, String, Bool, true, false, Option, none, some, List, [], ◌∷◌, str_eq, not,
  if◌then◌else◌,
}
use inventory_storage.Store.Table.{find, upsert}
use inventory_storage.Store.World.{Db, Env, World, tick}
use inventory_storage.Http.Errors.{
  ProblemInfo, bad_request, unprocessable_entity, internal_server_error, internal_error,
}
use inventory_storage.Http.Response.{Response, Headers, Body, no_body, write_problem}

-- A row of idempotency_keys. The three columns of the response are null until it is completed.
pub record KeyRow : Type 0 where
  pub key : String
  pub method : String
  pub path : String
  pub request_hash : String
  pub status_code : Option ℕ
  pub response_body : Body
  pub response_headers : String

abbrev pub row_key : KeyRow → String
row_key r = r.key

-- crypto/sha256 with encoding/hex, and encoding/json on the headers of a response.
pub record Codec : Type 0 where
  pub hash : String → String
  pub marshal : Headers → Option String
  pub unmarshal : String → Option Headers

-- JSON is read back as the headers that it was written of, and is not the empty string.
pub record IsCodec (codec : Codec) : Type 0 where
  pub reads_back :
      (h : Headers) (s : String) → codec.marshal h ≡ some s → codec.unmarshal s ≡ some h
  pub nonempty : (h : Headers) (s : String) → codec.marshal h ≡ some s → str_eq s "" ≡ false

-- A request: `body` is `none` where it could not be read.
pub record KeyedRequest : Type 0 where
  pub idempotency_key : String
  pub method : String
  pub path : String
  pub body : Option String

pub data Outcome : Type 0 where
  responded : Response → Outcome
  panicked : Outcome

-- The wrapped handler, on the recorder and with the transaction in its context.
abbrev pub Next : Type 0
Next = World → Outcome × World

pub record State : Type 0 where
  pub world : World
  pub keys : List KeyRow

abbrev key_required : ProblemInfo
key_required = record {
  slug = "idempotency-key-required";
  title = "Idempotency-Key header is required";
}

abbrev unreadable_body : ProblemInfo
unreadable_body = record {
  slug = "malformed-request-body";
  title = "The request body could not be read";
}

abbrev key_reused : ProblemInfo
key_reused = record {
  slug = "idempotency-key-reused";
  title = "Idempotency-Key was already used with a different request";
}

abbrev pub internal : Outcome
internal = responded (write_problem internal_server_error internal_error)

abbrev pub mismatch : Outcome
mismatch = responded (write_problem unprocessable_entity key_reused)

abbrev pub ticked : State → State
ticked s = record s { world = tick s.world }

-- ROLLBACK to what the tables were at the BEGIN, after the calls that the world has made.
abbrev pub rolled_back : State → World → State
rolled_back before w = record before {
  world = record w { db = before.world.db; in_tx = false; calls = suc w.calls };
}

module _ (codec : Codec) where
  -- The headers of a stored response; those that cannot be read are left out.
  unfoldable pub or_no_headers : Option Headers → Headers
  or_no_headers none = []
  or_no_headers (some h) = h

  unfoldable pub stored_headers : String → Headers
  unfolding or_no_headers
  stored_headers raw = if str_eq raw "" then [] else or_no_headers (codec.unmarshal raw)

  -- What `replayCachedResponse` makes of the row that it has read.
  unfoldable pub replay_row : String → Option KeyRow → Outcome
  unfolding stored_headers
  replay_row request_hash none = internal
  replay_row request_hash (some row) =
      if not (str_eq row.request_hash request_hash) then mismatch else elim row.status_code [
        | none ↦ internal
        | some status ↦ responded (record {
          status = status;
          headers = stored_headers row.response_headers;
          body = row.response_body;
        })
      ]

module _ (codec : Codec) (env : Env) where
  -- `replayCachedResponse`
  unfoldable pub replay_cached_response : String → String → State → Outcome × State
  replay_cached_response key request_hash s =
      if env.fails s.world.calls
      then (internal, ticked s)
      else (replay_row codec request_hash (find row_key key s.keys), ticked s)

  -- The row that the INSERT of a key writes.
  abbrev pub inserted : KeyedRequest → String → KeyRow
  inserted req request_hash = record {
    key = req.idempotency_key;
    method = req.method;
    path = req.path;
    request_hash = request_hash;
    status_code = none;
    response_body = no_body;
    response_headers = "";
  }

  abbrev pub completed : KeyRow → Response → String → KeyRow
  completed row r raw = record row {
    status_code = some r.status;
    response_body = r.body;
    response_headers = raw;
  }

  -- The UPDATE and the COMMIT of `runFreshRequest`, with the headers as they were marshalled.
  unfoldable pub complete : State → KeyRow → Response → Option String → World → Outcome × State
  complete before row r none w = (internal, rolled_back before w)
  complete before row r (some raw) w =
      if env.fails w.calls
      then (internal, rolled_back before (tick w))
      else if env.fails (suc w.calls)
      then (internal, rolled_back before (tick w))
      else (
        responded r,
        record before {
          world = record w { in_tx = false; calls = suc (suc w.calls) };
          keys = upsert row_key (completed row r raw) before.keys;
        },
      )

  -- What `runFreshRequest` makes of the handler's run; the panic goes on after the rollback.
  unfoldable pub finish_fresh : State → KeyRow → Outcome × World → Outcome × State
  unfolding complete
  finish_fresh before row (panicked, w) = (panicked, rolled_back before w)
  finish_fresh before row (responded r, w) = complete before row r (codec.marshal r.headers) w

  unfoldable pub run_fresh_request : State → KeyRow → Next → Outcome × State
  unfolding finish_fresh
  run_fresh_request before row next =
      finish_fresh before row
        (next (record before.world { in_tx = true; calls = suc (suc before.world.calls) }))

  -- BEGIN, and INSERT … ON CONFLICT (key) DO NOTHING with its number of rows.
  unfoldable pub insert_key : KeyedRequest → Next → String → State → Outcome × State
  unfolding replay_cached_response run_fresh_request
  insert_key req next request_hash s =
      if env.fails s.world.calls
      then (internal, ticked s)
      else if env.fails (suc s.world.calls)
      then (internal, rolled_back s (tick (tick s.world)))
      else elim (find row_key req.idempotency_key s.keys) [
        | some row ↦
            replay_cached_response req.idempotency_key request_hash
              (rolled_back s (tick (tick s.world)))
        | none ↦ run_fresh_request s (inserted req request_hash) next
      ]

  -- The body is read into memory and hashed.
  unfoldable pub with_body : KeyedRequest → Next → Option String → State → Outcome × State
  unfolding insert_key
  with_body req next none s = (responded (write_problem bad_request unreadable_body), s)
  with_body req next (some bytes) s = insert_key req next (codec.hash bytes) s

  unfoldable pub require_idempotency_key : KeyedRequest → Next → State → Outcome × State
  unfolding with_body
  require_idempotency_key req next s =
      if str_eq req.idempotency_key ""
      then (responded (write_problem bad_request key_required), s)
      else with_body req next req.body s
