-- ===== src/Http/Idempotency/Retries.antt =====
-- A retry of a served request, with anything between the two.
use inventory_storage.Prelude.{
  ℕ, suc, ◌≡◌, ◌⊎◌, sym, ap, ◌∙◌, String, true, false, inl, inr, none, some, List, [], ◌∷◌, All,
  arith, str_eq, eq_iff, Bool-cases, Option-cases,
}
use inventory_storage.Store.Table.{find, All-find}
use inventory_storage.Store.World.{Env, World, tick}
use inventory_storage.Http.Idempotency.{
  KeyRow, row_key, Codec, IsCodec, KeyedRequest, Outcome, responded, Next, State, rolled_back,
  stored_headers, replay_row, replay_cached_response, insert_key, with_body,
  require_idempotency_key,
}
use inventory_storage.Http.Idempotency.Entries.{
  Entry, IsCompleted, IsUnserved, entry_of, ledger, Serves, unserved, reused, replayed, performed,
}
use inventory_storage.Http.Idempotency.Ledger.{middleware-Serves}

-- What may happen between a request and its retry: another request with a key, to any handler, or
-- a change of the other tables by what needs no key.
pub data Happening : Type 0 where
  keyed : Env → KeyedRequest → Next → Happening
  elsewhere : (World → World) → Happening

module _ (codec : Codec) where
  abbrev pub happen : Happening → State → State
  happen (keyed env req next) s = (require_idempotency_key codec env req next s).1
  happen (elsewhere f) s = record s { world = f s.world }

  abbrev pub happen_all : List Happening → State → State
  happen_all [] s = s
  happen_all (h ∷ hs) s = happen_all hs (happen h s)

module _ (codec : Codec) (is_codec : IsCodec codec) (k : String) (e : Entry) where
  -- The ledger has the entry, and every committed row has its outcome.
  abbrev pub Has : State → Type 0
  Has s = All IsCompleted s.keys × (ledger codec s k ≡ some e)

  Serves-keeps :
      (req : KeyedRequest) (next : Next) (s : State) (out : Outcome) (s' : State)
      → Serves codec req next (ledger codec s) s.world.db out (ledger codec s') s'.world.db
      → ledger codec s k ≡ some e
      → ledger codec s' k ≡ some e
  Serves-keeps req next s out s' (unserved u (same, d)) h = same k ∙ h
  Serves-keeps req next s out s' (reused bytes f eb at ne eo (same, d)) h = same k ∙ h
  Serves-keeps req next s out s' (replayed bytes f eb at eh eo (same, d)) h = same k ∙ h
  Serves-keeps req next s out s' (performed bytes r w w' eb absent ed et en eo added d) h =
      elim (Bool-cases (str_eq req.idempotency_key k)) [
        | inl same ↦
            let ek : req.idempotency_key ≡ k = ground (arith, same, eq_iff req.idempotency_key k) in
            let clash : ledger codec s k ≡ none = ap (ledger codec s) (sym ek) ∙ absent in cc
        | inr other ↦ added k ∙ rw other h
      ]

  Has-happen : (h : Happening) (s : State) → Has s → Has (happen codec h s)
  Has-happen (keyed env req next) s (c, at) =
      let (c', served) = middleware-Serves codec is_codec env req next s c in
      (c', Serves-keeps req next s _ (happen codec (keyed env req next) s) served at)
  Has-happen (elsewhere f) s h = h

  Has-happen_all : (hs : List Happening) (s : State) → Has s → Has (happen_all codec hs s)
  Has-happen_all [] s h = h
  Has-happen_all (x ∷ hs) s h = Has-happen_all hs (happen codec x s) (Has-happen x s h)

  Serves-again :
      (req : KeyedRequest) (next : Next) (bytes : String) (s : State) (out : Outcome) (s' : State)
      → Serves codec req next (ledger codec s) s.world.db out (ledger codec s') s'.world.db
      → ledger codec s req.idempotency_key ≡ some e
      → req.body ≡ some bytes
      → codec.hash bytes ≡ e.request_hash
      → (s'.world.db ≡ s.world.db) × ((out ≡ responded e.response) ⊎ IsUnserved out)
  Serves-again req next bytes s out s' (unserved u (same, d)) at eb eh = (d, inr u)
  Serves-again req next bytes s out s' (reused b f eb' at' ne eo (same, d)) at eb eh =
      let fe : f ≡ e = cc in
      let he : f.request_hash ≡ codec.hash b = cc in
      ground (arith, ne, he, eq_iff f.request_hash (codec.hash b))
  Serves-again req next bytes s out s' (replayed b f eb' at' eq eo (same, d)) at eb eh =
      let fe : f ≡ e = cc in (d, inl (eo ∙ ap (λ x. responded x.response) fe))
  Serves-again req next bytes s out s' (performed b r w w' eb' absent ed et en eo added d) at eb
        eh =
      cc

  answer-recorded :
      (hash : String) (row : KeyRow)
      → IsCompleted row
      → entry_of codec (some row) ≡ some e
      → hash ≡ e.request_hash
      → replay_row codec hash (some row) ≡ responded e.response
  unfolding replay_row
  answer-recorded hash row (status, es) at eh =
      let x : Entry = record {
        request_hash = row.request_hash;
        response = record {
          status = status;
          headers = stored_headers codec row.response_headers;
          body = row.response_body;
        };
      } in
      let at' : some x ≡ some e = rw es at at in
      let ex : x ≡ e = cc in
      let hx : row.request_hash ≡ e.request_hash = ap (λ z. z.request_hash) ex in
      let same : str_eq row.request_hash hash ≡ true =
        ground (arith, hx, eh, eq_iff row.request_hash hash) in
      rw (same, es) (ap (λ z. responded z.response) ex)

  replay-if_no_failure :
      (env : Env) (key hash : String) (s : State) (row : KeyRow)
      → IsCompleted row
      → find row_key key s.keys ≡ some row
      → entry_of codec (some row) ≡ some e
      → ((n : ℕ) → env.fails n ≡ false)
      → hash ≡ e.request_hash
      → (replay_cached_response codec env key hash s).0 ≡ responded e.response
  unfolding replay_cached_response
  replay-if_no_failure env key hash s row done present at fine eh =
      rw (fine s.world.calls)
        (ap (replay_row codec hash) present ∙ answer-recorded hash row done at eh)

  answer-if_no_failure :
      (env : Env) (req : KeyedRequest) (next : Next) (bytes : String) (s : State)
      → All IsCompleted s.keys
      → ledger codec s req.idempotency_key ≡ some e
      → ((n : ℕ) → env.fails n ≡ false)
      → codec.hash bytes ≡ e.request_hash
      → (with_body codec env req next (some bytes) s).0 ≡ responded e.response
  unfolding with_body insert_key
  answer-if_no_failure env req next bytes s c at fine eh =
      elim (Option-cases (find row_key req.idempotency_key s.keys)) [
        | inl absent ↦
            let none_found : ledger codec s req.idempotency_key ≡ none =
              ap (entry_of codec) absent in
            cc
        | inr (row, present) ↦
            let done = All-find row_key IsCompleted req.idempotency_key s.keys c present in
            let at' : entry_of codec (some row) ≡ some e = ap (entry_of codec) (sym present) ∙ at in
            rw (fine s.world.calls) (
              rw (fine (suc s.world.calls)) (
                rw present (
                  replay-if_no_failure env req.idempotency_key (codec.hash bytes)
                    (rolled_back s (tick (tick s.world))) row done present at' fine eh)))
      ]

  answer-with_key :
      (env : Env) (req : KeyedRequest) (next : Next) (bytes : String) (s : State)
      → str_eq req.idempotency_key "" ≡ false
      → req.body ≡ some bytes
      → (require_idempotency_key codec env req next s).0
        ≡ (with_body codec env req next (some bytes) s).0
  unfolding require_idempotency_key
  answer-with_key env req next bytes s given eb =
      rw given (ap (λ o. (with_body codec env req next o s).0) eb)

  -- Once the ledger has an answer for a key, and whatever happens then (other requests with keys,
  -- to any handlers and with any failures, and any changes of the other tables): a request of that
  -- key with a body of the recorded hash changes no table and adds nothing to the outbox, whatever
  -- its handler, its method and its path are. It is answered with the recorded answer, or with a
  -- 400, a 500 or a panic; and with the recorded answer if the key is not empty and no call of the
  -- request fails.
  pub retry-replays :
      (s : State) (hs : List Happening) (env : Env) (req : KeyedRequest) (next : Next)
      (bytes : String)
      → Has s
      → req.idempotency_key ≡ k
      → req.body ≡ some bytes
      → codec.hash bytes ≡ e.request_hash
      → let before = happen_all codec hs s in
        let (out, after) = require_idempotency_key codec env req next before in
        (after.world.db ≡ before.world.db)
        × ((out ≡ responded e.response) ⊎ IsUnserved out)
        × (str_eq k "" ≡ false → ((n : ℕ) → env.fails n ≡ false) → out ≡ responded e.response)
  retry-replays s hs env req next bytes h ek eb eh =
      let before : State = happen_all codec hs s in
      let (c, at) = Has-happen_all hs s h in
      let (c', served) = middleware-Serves codec is_codec env req next before c in
      let at' : ledger codec before req.idempotency_key ≡ some e =
        ap (ledger codec before) ek ∙ at in
      let (d, o) =
        Serves-again req next bytes before _ ((require_idempotency_key codec env req next before).1)
          served at' eb eh in
      (
        d,
        o,
        λ given fine.
            answer-with_key env req next bytes before (ap (λ q. str_eq q "") ek ∙ given) eb
            ∙ answer-if_no_failure env req next bytes before c at' fine eh,
      )
