-- ===== src/UseCases/Reserve/Saved.antt =====
-- What saving the units that `allocate` has touched does to the whole stock.
use mathlib.Core.Path.{subst}
use inventory_storage.Prelude.{
  ◌+◌, ◌≡◌, ◌≤◌, ap, sym, ◌∙◌, List, [], ◌∷◌, All, sum_by, ok, arith, Bool, false, str_eq, select,
  Bool-cases, inl, inr,
}
use inventory_storage.Stock.{StockUnit, usable}
use inventory_storage.Stock.Invariant.{IsValid, usable-le}
use inventory_storage.Reservation.{Allocation}
use inventory_storage.Store.Table.{Stands, Stands-upsert, IsKeyed}
use inventory_storage.Store.World.{Env, World, pure}
use inventory_storage.Store.Repos.{unit_key, save_unit}
use inventory_storage.Store.Runs.{run-bind, run-save_unit}
use inventory_storage.UseCases.Allocate.Draws.{Draws, stop, skip, take, allocated}
use inventory_storage.UseCases.Conservation.{reserved_in_all, stock_in_all, saved_over}
use inventory_storage.UseCases.Reserve.{save_all}

-- What is usable in some of the rows is at hand in all.
pub usable-select :
    (p : StockUnit → Bool) (us : List StockUnit)
    → All IsValid us
    → sum_by usable (select p us) ≤ sum_by (λ u. u.quantity) us
usable-select p [] v = omega arith
usable-select p (u ∷ us) v = elim (Bool-cases (p u)) [
  | inl kept ↦ rw kept (omega (arith, usable-le u v.0, usable-select p us v.1))
  | inr dropped ↦ rw dropped (omega (arith, usable-select p us v.1))
]

module _ (env : Env) where
  Stands-save_unit :
      (u : StockUnit) (l : List StockUnit) (w w' : World)
      → save_unit env u w ≡ (ok tt, w')
      → All (λ v. str_eq u.id v.id ≡ false) l
      → All (Stands unit_key w.db.units) l
      → All (Stands unit_key w'.db.units) l
  Stands-save_unit u l w w' h apart s =
      let (n, g, saved) = run-save_unit env u w h in
      subst (λ rows. All (Stands unit_key rows) l) (sym (ap (λ d. d.units) saved))
        (Stands-upsert unit_key (record u { version = n }) w.db.units l apart s)

  -- The touched units of a draw from rows of the table, saved one after the other, have exactly the
  -- allocated quantities more reserved; the quantity at hand, the bins and the reservations are as
  -- they were.
  pub save_all-Draws :
      (us : List StockUnit) (l : List Allocation) (ts : List StockUnit) (w w' : World)
      → Draws us l ts
      → IsKeyed unit_key us
      → All (Stands unit_key w.db.units) us
      → save_all env ts w ≡ (ok tt, w')
      → (reserved_in_all w'.db ≡ reserved_in_all w.db + sum_by allocated l)
        × (stock_in_all w'.db ≡ stock_in_all w.db)
        × (w'.db.bins ≡ w.db.bins)
        × (w'.db.reservations ≡ w.db.reservations)
  unfolding save_all pure
  save_all-Draws _ _ _ w w' (stop us) k s h =
      let e : w.db ≡ w'.db = ap (λ p. p.1.db) h in
      (
        omega (arith, ap reserved_in_all e),
        sym (ap stock_in_all e),
        sym (ap (λ d. d.bins) e),
        sym (ap (λ d. d.reservations) e),
      )
  save_all-Draws _ _ _ w w' (skip u us l ts d) k s h = save_all-Draws us l ts w w' d k.1 s.1 h
  save_all-Draws _ _ _ w w' (take u t us a l ts i b pos fits e d) k s h =
      let (_, w1, e1, k1) = run-bind (save_unit env t) _ w h in
      let id : u.id ≡ t.id = sym (ap (λ u. u.id) e) in
      let (reserved, stock, bins) = saved_over env u t u.id w w1 s.0 (sym id) e1 in
      let (n, g, saved) = run-save_unit env t w e1 in
      let apart = subst (λ i. All (λ v. str_eq i v.id ≡ false) us) id k.0 in
      let later = Stands-save_unit t us w w1 e1 apart s.1 in
      let (reserved', stock', bins', rows') = save_all-Draws us l ts w1 w' d k.1 later k1 in
      let more : t.reserved ≡ u.reserved + a.quantity = ap (λ u. u.reserved) e in
      let same : t.quantity ≡ u.quantity = ap (λ u. u.quantity) e in
      (
        omega (arith, reserved, reserved', more),
        stock' ∙ omega (arith, stock, same),
        bins' ∙ bins,
        rows' ∙ ap (λ d. d.reservations) saved,
      )
