-- ===== src/Http/Idempotency/Ledger.antt =====
-- The middleware of idempotency.go keeps its ledger.
use mathlib.Core.Path.{subst}
use inventory_storage.Prelude.{
  suc, ◌≡◌, refl, sym, ap, ◌∙◌, String, true, inl, inr, Option, none, some, All, arith, str_eq,
  eq_iff, Bool-cases, Option-cases, if◌then◌else◌,
}
use inventory_storage.Store.Table.{find, upsert, find-upsert, All-find, All-upsert}
use inventory_storage.Store.World.{Env, World, tick}
use inventory_storage.Http.Response.{Response}
use inventory_storage.Http.Idempotency.{
  KeyRow, row_key, Codec, IsCodec, KeyedRequest, Outcome, responded, panicked, Next, State,
  internal, rolled_back, ticked, stored_headers, or_no_headers, replay_row, replay_cached_response,
  inserted, completed, complete, finish_fresh, run_fresh_request, insert_key, with_body,
  require_idempotency_key,
}
use inventory_storage.Http.Idempotency.Entries.{
  Entry, IsCompleted, entry_of, ledger, IsUnserved, internal-IsUnserved, malformed-IsUnserved,
  panicked-IsUnserved, Serves, unserved, reused, replayed, performed,
}

module _ (codec : Codec) (is_codec : IsCodec codec) (env : Env) (req : KeyedRequest)
    (next : Next) where
  abbrev Meets : State → Outcome × State → Type 0
  Meets s p =
      All IsCompleted p.1.keys
      × Serves codec req next (ledger codec s) s.world.db p.0 (ledger codec p.1) p.1.world.db

  fails_unchanged :
      (s s' : State) (out : Outcome)
      → All IsCompleted s.keys
      → IsUnserved out
      → s'.keys ≡ s.keys
      → s'.world.db ≡ s.world.db
      → Meets s (out, s')
  fails_unchanged s s' out c u ek ed = (
    subst (All IsCompleted) (sym ek) c,
    unserved u (λ k. ap (λ rows. entry_of codec (find row_key k rows)) ek, ed),
  )

  -- The headers of a completed row are those of the response.
  stored_headers-marshal :
      (r : Response) (raw : String)
      → codec.marshal r.headers ≡ some raw
      → stored_headers codec raw ≡ r.headers
  unfolding stored_headers or_no_headers
  stored_headers-marshal r raw e =
      rw (is_codec.nonempty r.headers raw e) (rw (is_codec.reads_back r.headers raw e) refl)

  recorded :
      (bytes : String) (r : Response) (raw : String) (s : State)
      → codec.marshal r.headers ≡ some raw
      → (k : String)
      → entry_of codec (
          find row_key k (
            upsert row_key
              (completed codec env (inserted codec env req (codec.hash bytes)) r raw)
              s.keys))
        ≡ (if str_eq req.idempotency_key k
            then some (record { request_hash = codec.hash bytes; response = r })
            else ledger codec s k)
  recorded bytes r raw s em k =
      rw
        (find-upsert row_key k
          (completed codec env (inserted codec env req (codec.hash bytes)) r raw) s.keys)
        (elim (Bool-cases (str_eq req.idempotency_key k)) [
          | inl same ↦ rw same (
              ap
                (λ h. some (record {
                  request_hash = codec.hash bytes;
                  response = record { status = r.status; headers = h; body = r.body };
                }))
                (stored_headers-marshal r raw em))
          | inr other ↦ rw other refl
        ])

  Meets-complete :
      (bytes : String) (s : State) (w w' : World) (r : Response) (o : Option String)
      → All IsCompleted s.keys
      → req.body ≡ some bytes
      → find row_key req.idempotency_key s.keys ≡ none
      → w.db ≡ s.world.db
      → w.in_tx ≡ true
      → next w ≡ (responded r, w')
      → codec.marshal r.headers ≡ o
      → Meets s (complete codec env s (inserted codec env req (codec.hash bytes)) r o w')
  unfolding complete
  Meets-complete bytes s w w' r none c eb absent ed et en em =
      fails_unchanged s (rolled_back s w') internal c internal-IsUnserved refl refl
  Meets-complete bytes s w w' r (some raw) c eb absent ed et en em =
      elim (Bool-cases (env.fails w'.calls)) [
        | inl bad ↦
            rw bad
              (fails_unchanged s (rolled_back s (tick w')) internal c internal-IsUnserved refl refl)
        | inr good ↦ elim (Bool-cases (env.fails (suc w'.calls))) [
          | inl bad ↦
              rw (good, bad)
                (fails_unchanged s (rolled_back s (tick w')) internal c internal-IsUnserved refl
                  refl)
          | inr fine ↦
              let row : KeyRow =
                completed codec env (inserted codec env req (codec.hash bytes)) r raw in
              rw (good, fine)
                (
                  All-upsert row_key IsCompleted row s.keys (r.status, refl) c,
                  performed bytes r w w' eb (rw absent refl) ed et en refl
                      (recorded bytes r raw s em) refl,
                )
        ]
      ]

  Meets-finish :
      (bytes : String) (s : State) (w : World) (p : Outcome × World)
      → All IsCompleted s.keys
      → req.body ≡ some bytes
      → find row_key req.idempotency_key s.keys ≡ none
      → w.db ≡ s.world.db
      → w.in_tx ≡ true
      → next w ≡ p
      → Meets s (finish_fresh codec env s (inserted codec env req (codec.hash bytes)) p)
  unfolding finish_fresh
  Meets-finish bytes s w (panicked, w') c eb absent ed et en =
      fails_unchanged s (rolled_back s w') panicked c panicked-IsUnserved refl refl
  Meets-finish bytes s w (responded r, w') c eb absent ed et en =
      Meets-complete bytes s w w' r (codec.marshal r.headers) c eb absent ed et en refl

  Meets-replay :
      (bytes : String) (s s' : State) (row : KeyRow)
      → All IsCompleted s.keys
      → req.body ≡ some bytes
      → find row_key req.idempotency_key s.keys ≡ some row
      → s'.keys ≡ s.keys
      → s'.world.db ≡ s.world.db
      → Meets s (replay_cached_response codec env req.idempotency_key (codec.hash bytes) s')
  unfolding replay_cached_response replay_row
  Meets-replay bytes s s' row c eb present ek ed = elim (Bool-cases (env.fails s'.world.calls)) [
    | inl bad ↦ rw bad (fails_unchanged s (ticked s') internal c internal-IsUnserved ek ed)
    | inr good ↦
        let found : find row_key req.idempotency_key s'.keys ≡ some row =
          ap (find row_key req.idempotency_key) ek ∙ present in
        let (status, es) = All-find row_key IsCompleted req.idempotency_key s.keys c present in
        let stored : Response = record {
          status = status;
          headers = stored_headers codec row.response_headers;
          body = row.response_body;
        } in
        let e : Entry = record { request_hash = row.request_hash; response = stored } in
        let at : ledger codec s req.idempotency_key ≡ some e = rw present (rw es refl) in
        let same_rows : (k : String) → ledger codec (ticked s') k ≡ ledger codec s k =
          λ k. ap (λ rows. entry_of codec (find row_key k rows)) ek in
        elim (Bool-cases (str_eq row.request_hash (codec.hash bytes))) [
          | inl same ↦
              rw (good, found, same, es)
                (
                  subst (All IsCompleted) (sym ek) c,
                  replayed bytes e eb at
                      (ground (arith, eq_iff row.request_hash (codec.hash bytes), same)) refl
                      (same_rows, ed),
                )
          | inr other ↦
              rw (good, found, other)
                (
                  subst (All IsCompleted) (sym ek) c,
                  reused bytes e eb at other refl (same_rows, ed),
                )
        ]
  ]

  Meets-insert :
      (bytes : String) (s : State)
      → All IsCompleted s.keys
      → req.body ≡ some bytes
      → Meets s (insert_key codec env req next (codec.hash bytes) s)
  unfolding insert_key run_fresh_request
  Meets-insert bytes s c eb = elim (Bool-cases (env.fails s.world.calls)) [
    | inl bad ↦ rw bad (fails_unchanged s (ticked s) internal c internal-IsUnserved refl refl)
    | inr good ↦ elim (Bool-cases (env.fails (suc s.world.calls))) [
      | inl bad ↦
          rw (good, bad)
            (fails_unchanged s (rolled_back s (tick (tick s.world))) internal c internal-IsUnserved
              refl refl)
      | inr fine ↦ elim (Option-cases (find row_key req.idempotency_key s.keys)) [
        | inl absent ↦ rw (good, fine, absent) (Meets-finish bytes s _ _ c eb absent refl refl refl)
        | inr (row, present) ↦
            rw (good, fine, present)
              (Meets-replay bytes s (rolled_back s (tick (tick s.world))) row c eb present refl
                refl)
      ]
    ]
  ]

  Meets-with_body :
      (o : Option String) (s : State)
      → All IsCompleted s.keys
      → req.body ≡ o
      → Meets s (with_body codec env req next o s)
  unfolding with_body
  Meets-with_body none s c eb = fails_unchanged s s _ c (malformed-IsUnserved _) refl refl
  Meets-with_body (some bytes) s c eb = Meets-insert bytes s c eb

  -- Where JSON headers are read back as they were written, and every committed row has its outcome,
  -- every request leaves every committed row with its outcome, whatever the handler does and
  -- whichever calls fail; and it has done one of four things. It was not served: the answer is a 400
  -- or a 500 or the handler's panic, and the ledger and the tables are as they were. Its key was
  -- used for a body with another hash: the answer is the 422, and nothing has changed. The ledger
  -- has its key and its hash: the answer is the recorded one, and nothing has changed. Or the ledger
  -- did not have its key: the handler ran in the transaction on the tables as they were, the tables
  -- are as the handler left them, and the ledger has one more entry, of the answer that was given.
  pub middleware-Serves :
      (s : State)
      → All IsCompleted s.keys
      → let (out, s') = require_idempotency_key codec env req next s in
        All IsCompleted s'.keys
        × Serves codec req next (ledger codec s) s.world.db out (ledger codec s') s'.world.db
  unfolding require_idempotency_key
  middleware-Serves s c = elim (Bool-cases (str_eq req.idempotency_key "")) [
    | inl empty ↦ rw empty (fails_unchanged s s _ c (malformed-IsUnserved _) refl refl)
    | inr given ↦ rw given (Meets-with_body req.body s c refl)
  ]
