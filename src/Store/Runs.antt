-- ===== src/Store/Runs.antt =====
-- What a successful run of a method on the store has done: a run of a sequence is a run of each
-- part, a read changes no table, and a save replaces one row.
use mathlib.Core.Path.{subst}
use mathlib.Core.Option
use inventory_storage.Prelude.{
  ℕ, suc, ◌≡◌, ◌⊎◌, sym, refl, ap, ◌∙◌, true, false, inl, inr, String, Bool, Option, List, [], ◌∷◌,
  Result, ok, err, arith, ltb, Error, Bool-cases, Option-cases, Result-cases,
}
use inventory_storage.Shared.Events.{DomainEvent}
use inventory_storage.Stock.{StockUnit}
use inventory_storage.Location.{Bin}
use inventory_storage.Reservation.{Allocation, Reservation}
use inventory_storage.Store.Table.{find, upsert}
use inventory_storage.Store.UnitOfWork.{atomically, atomically-joins, atomically-all_or_nothing}
use inventory_storage.Store.World.{
  Db, Env, World, Exec, pure, lift, gets, modify, ◌>>=◌, continue, call, tick,
}
use inventory_storage.Store.Repos.{
  max_integer, unit_key, bin_key, reservation_key, check_columns, guarded_version, stored_version,
  written_reservation, save_unit, save_bin, save_reservation, find_unit, find_bin, begin_or_join,
  statements, publish, find_reservation, load_reservation, loaded,
}

module _ {A B : Type 0} where
  -- A run of a sequence that fails is one in which its first part fails, or the rest.
  pub run-bind_err :
      (m : Exec A) (f : A → Exec B) (w : World) {x : Error} {w'' : World}
      → (m >>= f) w ≡ (err x, w'')
      → (m w ≡ (err x, w''))
        ⊎ ((a : A) × (w' : World) × (m w ≡ (ok a, w')) × (f a w' ≡ (err x, w'')))
  unfolding ◌>>=◌
  run-bind_err m f w {x} {w''} h = go (m w) refl h
    where
      go :
          (p : Result A × World)
          → m w ≡ p
          → continue p f ≡ (err x, w'')
          → (m w ≡ (err x, w''))
            ⊎ ((a : A) × (w' : World) × (m w ≡ (ok a, w')) × (f a w' ≡ (err x, w'')))
      go (ok a, w') e k = inr (a, w', e, k)
      go (err y, w') e k =
          let same : y ≡ x = cc in
          let there : w' ≡ w'' = ap (λ q. q.1) k in
          inl (e ∙ ap (λ y. (err y, w')) same ∙ ap (λ s. (err x, s)) there)

  -- A run of a sequence that succeeds is a run of its first part that succeeds, and one of the rest.
  pub run-bind :
      (m : Exec A) (f : A → Exec B) (w : World) {b : B} {w'' : World}
      → (m >>= f) w ≡ (ok b, w'')
      → (a : A) × (w' : World) × (m w ≡ (ok a, w')) × (f a w' ≡ (ok b, w''))
  unfolding ◌>>=◌
  run-bind m f w {b} {w''} h = go (m w) refl h
    where
      go :
          (p : Result A × World)
          → m w ≡ p
          → continue p f ≡ (ok b, w'')
          → (a : A) × (w' : World) × (m w ≡ (ok a, w')) × (f a w' ≡ (ok b, w''))
      go (ok a, w') e k = (a, w', e, k)
      go (err x, w') e k = cc

run-check_columns :
    (b : Bool) (w : World) {t : Unit {0}} {w' : World}
    → check_columns b w ≡ (ok t, w')
    → w'.db ≡ w.db
unfolding check_columns
run-check_columns b w h = ground arith

module _ {A : Type 0} where
  run-gets :
      (f : World → A) (w : World) {a : A} {w' : World}
      → gets f w ≡ (ok a, w')
      → (a ≡ f w) × (w'.db ≡ w.db)
  unfolding gets
  run-gets f w h = (ground arith, ground arith)

  pub run-lift :
      (r : Result A) (w : World) {a : A} {w' : World}
      → lift r w ≡ (ok a, w')
      → (r ≡ ok a) × (w' ≡ w)
  unfolding lift
  run-lift r w h = (ground arith, ground arith)

run-modify :
    (f : Db → Db) (w : World) {t : Unit {0}} {w' : World} → modify f w ≡ (ok t, w') → w'.db ≡ f w.db
unfolding modify
run-modify f w h = ground arith

module _ (env : Env) where
  pub run-find_unit :
      (id : String) (w : World) {o : Option StockUnit} {w' : World}
      → find_unit env id w ≡ (ok o, w')
      → (o ≡ find unit_key id w.db.units) × (w'.db ≡ w.db)
  unfolding find_unit call ◌>>=◌ gets
  run-find_unit id w h = (ground arith, ground arith)

  pub run-find_bin :
      (id : String) (w : World) {o : Option Bin} {w' : World}
      → find_bin env id w ≡ (ok o, w')
      → (o ≡ find bin_key id w.db.bins) × (w'.db ≡ w.db)
  unfolding find_bin call ◌>>=◌ gets
  run-find_bin id w h = (ground arith, ground arith)

  pub run-publish :
      (e : DomainEvent) (w : World) {w' : World}
      → publish env e w ≡ (ok tt, w')
      → (w'.db.units ≡ w.db.units)
        × (w'.db.bins ≡ w.db.bins)
        × (w'.db.reservations ≡ w.db.reservations)
  unfolding publish call ◌>>=◌ modify
  run-publish e w h = (ground arith, ground arith, ground arith)

  pub run-save_unit :
      (u : StockUnit) (w : World) {w' : World}
      → save_unit env u w ≡ (ok tt, w')
      → (n : ℕ) × (guarded_version
            (stored_version (λ o. o.version) (find unit_key u.id w.db.units))
            u.version
          ≡ ok n)
        × (w'.db ≡ record w.db { units = upsert unit_key (record u { version = n }) w.db.units })
  unfolding save_unit call ◌>>=◌ gets lift modify check_columns
  run-save_unit u w h =
      let old = find unit_key u.id w.db.units in
      elim (Result-cases (guarded_version (stored_version (λ o. o.version) old) u.version)) [
        | inr (n, e) ↦ (n, e, ground (arith, e))
        | inl (x, e) ↦ ground (arith, e)
      ]

  pub run-save_bin :
      (b : Bin) (w : World) {w' : World}
      → save_bin env b w ≡ (ok tt, w')
      → (n : ℕ) × (guarded_version
            (stored_version (λ o. o.version) (find bin_key b.id w.db.bins))
            b.version
          ≡ ok n)
        × (w'.db ≡ record w.db { bins = upsert bin_key (record b { version = n }) w.db.bins })
        × (ltb b.occupied max_integer ≡ true)
  unfolding save_bin call ◌>>=◌ gets lift modify check_columns
  run-save_bin b w h =
      let old = find bin_key b.id w.db.bins in
      elim (Result-cases (guarded_version (stored_version (λ o. o.version) old) b.version)) [
        | inr (n, e) ↦ (n, e, ground (arith, e), ground (arith, e))
        | inl (x, e) ↦ ground (arith, e)
      ]

  run-begin_or_join : (w : World) {w' : World} → begin_or_join env w ≡ (ok tt, w') → w'.db ≡ w.db
  unfolding begin_or_join call
  run-begin_or_join w h = ground arith

  run-call : (w : World) {t : Unit {0}} {w' : World} → call env w ≡ (ok t, w') → w'.db ≡ w.db
  unfolding call
  run-call w h = ground arith

  run-statements :
      (l : List Allocation) (w : World) {w' : World}
      → statements env l w ≡ (ok tt, w')
      → w'.db ≡ w.db
  unfolding statements pure call ◌>>=◌ check_columns
  run-statements [] w h = ground arith
  run-statements (a ∷ l) w {w'} h =
      let next : World = tick w in
      let later : statements env l next ≡ (ok tt, w') = ground arith in run-statements l next later

  pub run-save_reservation :
      (r : Reservation) (w : World) {w' : World}
      → save_reservation env r w ≡ (ok tt, w')
      → let old = find reservation_key r.id w.db.reservations in
        (n : ℕ) × (guarded_version (stored_version (λ o. o.version) old) r.version ≡ ok n)
        × (w'.db ≡ record w.db {
          reservations = upsert reservation_key (written_reservation old r n) w.db.reservations;
        })
  unfolding save_reservation
  run-save_reservation r w h =
      let (_, w1, e1, k1) = run-bind (begin_or_join env) _ w h in
      let (_, w2, e2, k2) = run-bind (call env) _ w1 k1 in
      let (_, w3, e3, k3) = run-bind (check_columns _) _ w2 k2 in
      let (old, w4, e4, k4) = run-bind (gets _) _ w3 k3 in
      let (n, w5, e5, k5) = run-bind (lift _) _ w4 k4 in
      let (_, w6, e6, k6) = run-bind (statements env r.allocations) _ w5 k5 in
      let (_, w7, e7, k7) = run-bind (begin_or_join env) _ w6 k6 in
      let (here, before) = run-gets _ w3 e4 in
      let there : w3.db ≡ w.db =
        run-check_columns _ w2 e3 ∙ run-call w1 e2 ∙ run-begin_or_join w e1 in
      let same : w7.db ≡ w.db =
        run-begin_or_join w6 e7
        ∙ run-statements r.allocations w5 e6
        ∙ ap (λ x. x.db) (run-lift _ w4 e5).1
        ∙ before
        ∙ there in
      let guard = (run-lift _ w4 e5).0 in
      (
        n,
        subst (λ o. guarded_version (stored_version (λ o. o.version) o) r.version ≡ ok n)
            (here ∙ ap (λ d. find reservation_key r.id d.reservations) there) guard,
        run-modify _ w7 k7 ∙ rw (same, here, there) refl,
      )

  pub run-find_reservation :
      (id : String) (w : World) {r : Result (Option Reservation)} {w' : World}
      → find_reservation env id w ≡ (r, w')
      → (w'.db ≡ w.db)
        × (w'.in_tx ≡ w.in_tx)
        × ((o : Option Reservation)
            → r ≡ ok o
            → o ≡ Option.map (loaded env) (find reservation_key id w.db.reservations))
  unfolding find_reservation load_reservation call ◌>>=◌ gets pure
  run-find_reservation id w {r} {w'} h =
      elim (Option-cases (find reservation_key id w.db.reservations)) [
        | inl e ↦ (ground (arith, e), ground (arith, e), λ o k. ground (arith, e))
        | inr (res, e) ↦ (ground (arith, e), ground (arith, e), λ o k. ground (arith, e))
      ]

  -- A transaction that is not committed leaves the tables as they were.
  pub run-atomically_err :
      {A : Type 0} (m : Exec A) (w : World) {x : Error} {w' : World}
      → env.transactional ≡ true
      → w.in_tx ≡ false
      → atomically env m w ≡ (err x, w')
      → w'.db ≡ w.db
  run-atomically_err m w {x} {w'} wired top h =
      ap (λ p. p.1.db) (sym h) ∙ (atomically-all_or_nothing env m w wired top).1 x (ap (λ p. p.0) h)

  -- A transaction that commits is a run of its body from the tables as they were, and leaves the
  -- tables of that run.
  pub run-atomically :
      {A : Type 0} (m : Exec A) (w : World) {a : A} {w' : World}
      → atomically env m w ≡ (ok a, w')
      → (s : World) × (s' : World) × (m s ≡ (ok a, s')) × (s.db ≡ w.db) × (w'.db ≡ s'.db)
  run-atomically {A} m w {a} {w'} h =
      let joined : (env.transactional ≡ false) ⊎ (w.in_tx ≡ true)
          → (s : World) × (s' : World) × (m s ≡ (ok a, s')) × (s.db ≡ w.db) × (w'.db ≡ s'.db) =
        λ j. (w, w', sym (atomically-joins env m w j) ∙ h, refl, refl) in
      elim (Bool-cases env.transactional) [
        | inr unwired ↦ joined (inl unwired)
        | inl wired ↦ elim (Bool-cases w.in_tx) [
          | inl inside ↦ joined (inr inside)
          | inr top ↦
              let s : World = record w { in_tx = true; calls = suc w.calls } in
              let body = (atomically-all_or_nothing env m w wired top).2 a (ap (λ p. p.0) h) in
              (s, (m s).1, ap (λ r. (r, (m s).1)) body.0, refl, ap (λ p. p.1.db) (sym h) ∙ body.1)
        ]
      ]
