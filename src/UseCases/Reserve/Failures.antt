-- ===== src/UseCases/Reserve/Failures.antt =====
-- What a reservation that cannot be recorded leaves behind: reserve_stock.go saves the touched units
-- before the transaction that saves the reservation.
use mathlib.Core.Path.{subst}
use inventory_storage.Prelude.{
  ◌+◌, ◌≡◌, ◌≢◌, Bool, Result-cases, ◌<◌, ap, sym, ◌∙◌, refl, true, false, inl, inr, String, List,
  [], ◌∷◌, All, sum_by, ok, err, Error, arith, str_eq, select, All-select, ltb, Bool-cases,
}
use inventory_storage.Shared.Events.{Time}
use inventory_storage.Shared.Int.{IsNonneg, sign}
use inventory_storage.Shared.Quantity.{Quantity}
use inventory_storage.Stock.{StockUnit, usable}
use inventory_storage.Stock.Invariant.{IsValid}
use inventory_storage.Reservation
use inventory_storage.Reservation.{Reservation, Allocation}
use inventory_storage.Store.Table.{find, IsKeyed, IsKeyed-select, IsKeyed-Stands, Stands}
use inventory_storage.Store.World.{
  Env, World, Exec, pure, lift, call, gets, now, new_uuid, modify, ◌>>=◌,
}
use inventory_storage.Store.Repos.{
  unit_key, find_units_by_sku, save_unit, check_columns, next_reservation_id, guarded_version,
  stored_version,
}
use inventory_storage.Store.Keeps.{IsWellformed}
use inventory_storage.Store.UnitOfWork.{atomically}
use inventory_storage.Store.Runs.{run-bind, run-bind_err, run-lift, run-atomically_err}
use inventory_storage.UseCases.Allocate.{Drawn, allocate}
use inventory_storage.UseCases.Allocate.Draws.{Draws, allocated, allocate-Draws}
use inventory_storage.UseCases.Conservation.{reserved_in_all, stock_in_all}
use inventory_storage.UseCases.Reserve.{save_all, record_reservation, reserve_new}
use inventory_storage.UseCases.Reserve.Saved.{usable-select, save_all-Draws}

-- A successful draw of what is asked adds up to it.
allocate-sum :
    (us : List StockUnit) (q : Quantity) (d : Drawn)
    → All IsValid us
    → sum_by usable us < sign
    → IsNonneg q
    → allocate us q ≡ ok d
    → Draws us d.allocations d.touched × (sum_by allocated d.allocations ≡ q)
allocate-sum us q d v small hq h =
    let (enough, short) = allocate-Draws us q v small hq in
    elim (Bool-cases (ltb (sum_by usable us) q)) [
      | inl lacking ↦ let refused = short (ground (arith, lacking)) in cc
      | inr covered ↦
          let (d', e, draws, sum) = enough (ground (arith, covered)) in
          let same : d' ≡ d = cc in
          subst (λ d. Draws us d.allocations d.touched × (sum_by allocated d.allocations ≡ q)) same
            (draws, sum)
    ]

module _ (env : Env) where
  run-find_units_by_sku :
      (sku : String) (w : World) {us : List StockUnit} {w' : World}
      → find_units_by_sku env sku w ≡ (ok us, w')
      → (us ≡ select (λ u. str_eq u.sku sku) w.db.units) × (w'.db ≡ w.db) × (w'.in_tx ≡ w.in_tx)
  unfolding find_units_by_sku call ◌>>=◌ gets
  run-find_units_by_sku sku w h = (ground arith, ground arith, ground arith)

  in_tx-save_unit :
      (u : StockUnit) (w w' : World) → save_unit env u w ≡ (ok tt, w') → w'.in_tx ≡ w.in_tx
  unfolding save_unit call ◌>>=◌ gets lift modify check_columns
  in_tx-save_unit u w w' h =
      let old = find unit_key u.id w.db.units in
      elim (Result-cases (guarded_version (stored_version (λ o. o.version) old) u.version)) [
        | inr (n, e) ↦ ground (arith, e)
        | inl (x, e) ↦ ground (arith, e)
      ]

  in_tx-save_all :
      (l : List StockUnit) (w w' : World) → save_all env l w ≡ (ok tt, w') → w'.in_tx ≡ w.in_tx
  unfolding save_all pure
  in_tx-save_all [] w w' h = ap (λ p. p.1.in_tx) (sym h)
  in_tx-save_all (u ∷ l) w w' h =
      let (_, w1, e1, k1) = run-bind (save_unit env u) _ w h in
      in_tx-save_all l w1 w' k1 ∙ in_tx-save_unit u w w1 e1

  -- The steps of `Reserve` up to the saved stock, and those after it.
  abbrev pub draw_and_save : String → Quantity → Exec (Unit {0})
  draw_and_save sku qty = do
    units ← find_units_by_sku env sku
    drawn ← lift (allocate units qty)
    save_all env drawn.touched

  abbrev record_new : String → Quantity → String → Drawn → Exec Reservation
  record_new sku qty ref drawn = do
    id ← next_reservation_id env
    t ← now env
    res ← lift (Reservation.new id sku qty ref drawn.allocations t env.timeout)
    atomically env (record_reservation env t res)

  same_world :
      (w w1 w2 : World) {id : String} {t : Time}
      → next_reservation_id env w ≡ (ok id, w1)
      → now env w1 ≡ (ok t, w2)
      → (w2.db ≡ w.db) × (w2.in_tx ≡ w.in_tx)
  unfolding next_reservation_id new_uuid now pure ◌>>=◌
  same_world w w1 w2 h k = (ground arith, ground arith)

  saved_draw :
      (sku : String) (qty : Quantity) (us : List StockUnit) (d : Drawn) (w w1 w2 : World)
      → IsWellformed w.db
      → IsKeyed unit_key w.db.units
      → stock_in_all w.db < sign
      → IsNonneg qty
      → us ≡ select (λ u. str_eq u.sku sku) w.db.units
      → w1.db ≡ w.db
      → allocate us qty ≡ ok d
      → save_all env d.touched w1 ≡ (ok tt, w2)
      → (reserved_in_all w2.db ≡ reserved_in_all w.db + qty)
        × (stock_in_all w2.db ≡ stock_in_all w.db)
        × (w2.db.bins ≡ w.db.bins)
        × (w2.db.reservations ≡ w.db.reservations)
  saved_draw sku qty us d w w1 w2 v keyed small hq rows same drawn saved =
      let of_sku : StockUnit → Bool = λ u. str_eq u.sku sku in
      let stands : All (Stands unit_key w.db.units) us =
        subst (All (Stands unit_key w.db.units)) (sym rows)
          (All-select _ of_sku w.db.units (IsKeyed-Stands unit_key w.db.units keyed)) in
      let few : sum_by usable us < sign =
        omega (arith, usable-select of_sku w.db.units v.units, ap (sum_by usable) rows, small) in
      let (draws, sum) =
        allocate-sum us qty d
          (subst (All IsValid) (sym rows) (All-select _ of_sku w.db.units v.units)) few hq drawn in
      let (reserved, stock, bins, res) =
        save_all-Draws env us d.allocations d.touched w1 w2 draws
          (subst (IsKeyed unit_key) (sym rows) (IsKeyed-select unit_key of_sku w.db.units keyed))
          (subst (λ db. All (Stands unit_key db.units) us) (sym same) stands) saved in
      (
        omega (arith, reserved, sum, ap reserved_in_all same),
        stock ∙ ap stock_in_all same,
        bins ∙ ap (λ d. d.bins) same,
        res ∙ ap (λ d. d.reservations) same,
      )

  reserve_new-record_new :
      (sku : String) (qty : Quantity) (ref : String) (us : List StockUnit) (d : Drawn)
      (w w1 w2 : World)
      → find_units_by_sku env sku w ≡ (ok us, w1)
      → allocate us qty ≡ ok d
      → save_all env d.touched w1 ≡ (ok tt, w2)
      → reserve_new env sku qty ref w ≡ record_new sku qty ref d w2
  unfolding reserve_new ◌>>=◌ lift
  reserve_new-record_new sku qty ref us d w w1 w2 e1 e2 e3 = rw (e1, e2, e3) refl

  next_reservation_id-succeeds :
      (w : World) {x : Error} {w' : World} → next_reservation_id env w ≢ (err x, w')
  unfolding next_reservation_id new_uuid pure ◌>>=◌
  next_reservation_id-succeeds w h = cc

  now-succeeds : (w : World) {x : Error} {w' : World} → now env w ≢ (err x, w')
  unfolding now
  now-succeeds w h = cc

  -- Where the steps after the saved stock fail, they have changed no table.
  record_new-failure :
      (sku : String) (qty : Quantity) (ref : String) (d : Drawn) (w w' : World) {x : Error}
      → env.transactional ≡ true
      → w.in_tx ≡ false
      → record_new sku qty ref d w ≡ (err x, w')
      → w'.db ≡ w.db
  record_new-failure sku qty ref d w w' wired top h = elim (run-bind_err _ _ w h) [
    | inl h1 ↦ absurd (next_reservation_id-succeeds w h1)
    | inr (id, w1, e1, h1) ↦ elim (run-bind_err _ _ w1 h1) [
      | inl h2 ↦ absurd (now-succeeds w1 h2)
      | inr (t, w2, e2, h2) ↦
          let (db, tx) = same_world w w1 w2 e1 e2 in
          elim (run-bind_err _ _ w2 h2) [
            | inl h3 ↦ unfold lift in ap (λ p. p.1.db) (sym h3) ∙ db
            | inr (res, w3, e3, h3) ↦
                let (made, here) = run-lift _ w2 e3 in
                run-atomically_err env (record_reservation env t res) w3 wired
                  (ap (λ w. w.in_tx) here ∙ tx ∙ top) h3
                ∙ ap (λ w. w.db) here
                ∙ db
          ]
    ]
  ]

  -- With a unit of work, outside a transaction, in a well-formed database whose units have distinct
  -- ids and add up below 2 ^ 63, and for a quantity that is not negative: where the stock was drawn
  -- and saved, and `Reserve` then fails, for whatever reason, exactly the quantity asked for stays
  -- reserved, though no reservation was added or changed; the quantity at hand and the bins are as
  -- they were.
  pub reserve_failure-leaves_stock_reserved :
      (sku : String) (qty : Quantity) (ref : String) (w w2 w' : World) {x : Error}
      → env.transactional ≡ true
      → w.in_tx ≡ false
      → IsWellformed w.db
      → IsKeyed unit_key w.db.units
      → stock_in_all w.db < sign
      → IsNonneg qty
      → draw_and_save sku qty w ≡ (ok tt, w2)
      → reserve_new env sku qty ref w ≡ (err x, w')
      → (reserved_in_all w'.db ≡ reserved_in_all w.db + qty)
        × (stock_in_all w'.db ≡ stock_in_all w.db)
        × (w'.db.bins ≡ w.db.bins)
        × (w'.db.reservations ≡ w.db.reservations)
  reserve_failure-leaves_stock_reserved sku qty ref w w2 w' wired top v keyed small hq saved h =
      let (us, w1, e1, k1) = run-bind (find_units_by_sku env sku) _ w saved in
      let (d, w1', e2, k2) = run-bind (lift (allocate us qty)) _ w1 k1 in
      let (drawn, here) = run-lift (allocate us qty) w1 e2 in
      let e3 : save_all env d.touched w1 ≡ (ok tt, w2) =
        ap (save_all env d.touched) (sym here) ∙ k2 in
      let (rows, db1, tx1) = run-find_units_by_sku sku w e1 in
      let (reserved, stock, bins, res) =
        saved_draw sku qty us d w w1 w2 v keyed small hq rows db1 drawn e3 in
      let kept : w'.db ≡ w2.db =
        record_new-failure sku qty ref d w2 w' wired (in_tx-save_all d.touched w1 w2 e3 ∙ tx1 ∙ top)
          (sym (reserve_new-record_new sku qty ref us d w w1 w2 e1 drawn e3) ∙ h) in
      (
        ap reserved_in_all kept ∙ reserved,
        ap stock_in_all kept ∙ stock,
        ap (λ d. d.bins) kept ∙ bins,
        ap (λ d. d.reservations) kept ∙ res,
      )
