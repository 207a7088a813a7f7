-- ===== src/Store/UnitOfWork.antt =====
-- internal/adapters/outbound/postgres/unit_of_work.go and `atomically` of
-- internal/application/usecases/unit_of_work.go.
use inventory_storage.Prelude.{
  suc, ◌≡◌, ◌⊎◌, true, false, Result, ok, err, Error, infrastructure, arith, if◌then◌else◌,
}
use inventory_storage.Store.World.{Db, Env, World, Exec, call, continue, tick}

module _ {A : Type 0} where
  -- The end of the transaction: COMMIT, or ROLLBACK to what the tables were at its BEGIN. A COMMIT
  -- that fails is one that the server refused; a panic of the body is left out.
  abbrev pub finish : Env → Db → Result A × World → Result A × World
  finish env before (ok a, w) =
      if env.fails w.calls
      then (err infrastructure, record w { db = before; in_tx = false; calls = (tick w).calls })
      else (ok a, record w { in_tx = false; calls = (tick w).calls })
  finish env before (err e, w) =
      (err e, record w { db = before; in_tx = false; calls = (tick w).calls })

  -- `UnitOfWork.Execute`: a context that carries a transaction joins it.
  unfoldable pub execute : Env → Exec A → Exec A
  unfolding call
  execute env fn w =
      if w.in_tx
      then fn w
      else continue (call env w) λ t s. finish env w.db (fn (record s { in_tx = true }))

  unfoldable pub atomically : Env → Exec A → Exec A
  unfolding execute
  atomically env fn = if env.transactional then execute env fn else fn

  -- With a unit of work and no transaction of the caller's: no transaction is left open; an
  -- `atomically` that returns an error has left every table and the outbox as they were, whatever
  -- its body did and whichever calls failed; and one that returns a value has the value and the
  -- tables of the body's own run in the transaction.
  pub atomically-all_or_nothing :
      (env : Env) (fn : Exec A) (w : World)
      → env.transactional ≡ true
      → w.in_tx ≡ false
      → let (r, w') = atomically env fn w in
        let body = fn (record w { in_tx = true; calls = suc w.calls }) in
        (w'.in_tx ≡ false)
        × ((e : Error) → r ≡ err e → w'.db ≡ w.db)
        × ((a : A) → r ≡ ok a → (body.0 ≡ ok a) × (w'.db ≡ body.1.db))
  unfolding atomically
  atomically-all_or_nothing env fn w wired top =
      (ground arith, λ e h. ground arith, λ a h. ground arith)

  -- Without a unit of work, or in a transaction of the caller's, `atomically` is its body: an error
  -- rolls nothing back here.
  pub atomically-joins :
      (env : Env) (fn : Exec A) (w : World)
      → (env.transactional ≡ false) ⊎ (w.in_tx ≡ true)
      → atomically env fn w ≡ fn w
  unfolding atomically
  atomically-joins env fn w h = ground arith
