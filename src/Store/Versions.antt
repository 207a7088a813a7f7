-- ===== src/Store/Versions.antt =====
-- Optimistic concurrency: the guard on the version column in the `Save` methods.
use inventory_storage.Prelude.{
  ℕ, ◌≡◌, ◌≢◌, sym, ap, ◌∙◌, some, ok, arith, str_eq, eq_refl, if◌then◌else◌,
}
use inventory_storage.Stock.{StockUnit}
use inventory_storage.Reservation.{Reservation}
use inventory_storage.Store.Table.{find, upsert, find-upsert, key-find}
use inventory_storage.Store.World.{World, Env}
use inventory_storage.Store.Repos.{
  unit_key, reservation_key, guarded_version, stored_version, save_unit, save_reservation,
  written_reservation,
}
use inventory_storage.Store.Runs.{run-save_unit, run-save_reservation}

-- A row that was written over version `mine` has another version than `mine`.
guard-refuses :
    (stored mine n m : ℕ)
    → guarded_version (some stored) mine ≡ ok n
    → guarded_version (some n) mine ≢ ok m
unfolding guarded_version
guard-refuses stored mine n m h k = ground arith

module _ (env : Env) where
  -- Two writers have read a stock unit at one version, and the table has a row of that unit. When
  -- the first has saved, the second cannot: as long as the row is what the first wrote, its save
  -- does not succeed, whatever else has changed.
  pub save_unit-refuses_stale :
      (u v : StockUnit) {old : StockUnit} (w w1 w2 w3 : World)
      → find unit_key u.id w.db.units ≡ some old
      → v.id ≡ u.id
      → v.version ≡ u.version
      → save_unit env u w ≡ (ok tt, w1)
      → find unit_key u.id w2.db.units ≡ find unit_key u.id w1.db.units
      → save_unit env v w2 ≢ (ok tt, w3)
  save_unit-refuses_stale u v {old} w w1 w2 w3 row id version first kept second =
      let (n, g, e) = run-save_unit env u w first in
      let (m, g', e') = run-save_unit env v w2 second in
      let new : StockUnit = record u { version = n } in
      let there : find unit_key u.id w1.db.units ≡ some new =
        ap (λ d. find unit_key u.id d.units) e
        ∙ find-upsert unit_key u.id new w.db.units
        ∙ ap (λ b. if b then some new else find unit_key u.id w.db.units) (eq_refl u.id) in
      let stored : find unit_key v.id w2.db.units ≡ some new =
        ap (λ i. find unit_key i w2.db.units) id ∙ kept ∙ there in
      guard-refuses old.version u.version n m
        (ap (λ o. guarded_version (stored_version (λ o. o.version) o) u.version) (sym row) ∙ g)
        (ap (λ k. guarded_version (some n) k) (sym version)
          ∙ ap (λ o. guarded_version (stored_version (λ o. o.version) o) v.version) (sym stored)
          ∙ g')

  -- Two writers have read a reservation at one version, and the table has a row of it. When the
  -- first has saved it, resolved to whatever status, the second cannot save its own: as long as the
  -- row is what the first wrote, its save does not succeed, whatever else has changed.
  pub save_reservation-refuses_stale :
      (r s : Reservation) {old : Reservation} (w w1 w2 w3 : World)
      → find reservation_key r.id w.db.reservations ≡ some old
      → s.id ≡ r.id
      → s.version ≡ r.version
      → save_reservation env r w ≡ (ok tt, w1)
      → find reservation_key r.id w2.db.reservations ≡ find reservation_key r.id w1.db.reservations
      → save_reservation env s w2 ≢ (ok tt, w3)
  unfolding written_reservation
  save_reservation-refuses_stale r s {old} w w1 w2 w3 row id version first kept second =
      let (n, g, e) = run-save_reservation env r w first in
      let (m, g', e') = run-save_reservation env s w2 second in
      let new : Reservation = written_reservation (some old) r n in
      let same : new.id ≡ r.id = key-find reservation_key r.id w.db.reservations row in
      let there : find reservation_key r.id w1.db.reservations ≡ some new =
        ap (λ d. find reservation_key r.id d.reservations) e
        ∙ ap
            (λ o.
              find reservation_key r.id
                (upsert reservation_key (written_reservation o r n) w.db.reservations))
            row
        ∙ find-upsert reservation_key r.id new w.db.reservations
        ∙ ap (λ i. if str_eq i r.id then some new else find reservation_key r.id w.db.reservations)
            same
        ∙ ap (λ b. if b then some new else find reservation_key r.id w.db.reservations)
            (eq_refl r.id) in
      let stored : find reservation_key s.id w2.db.reservations ≡ some new =
        ap (λ i. find reservation_key i w2.db.reservations) id ∙ kept ∙ there in
      guard-refuses old.version r.version n m
        (ap (λ o. guarded_version (stored_version (λ o. o.version) o) r.version) (sym row) ∙ g)
        (ap (λ k. guarded_version (some n) k) (sym version)
          ∙ ap (λ o. guarded_version (stored_version (λ o. o.version) o) s.version) (sym stored)
          ∙ g')
