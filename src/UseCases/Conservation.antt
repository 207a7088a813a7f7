-- ===== src/UseCases/Conservation.antt =====
-- What the loops over allocations do to the whole stock: release_allocations of
-- reservation_expiry.go, the save loop of reserve_stock.go, and pickFromBin of confirm_pick.go.
use mathlib.Core.Path.{subst}
use inventory_storage.Prelude.{
  ◌+◌, ◌≡◌, ap, sym, ◌∙◌, String, Option, none, some, List, [], ◌∷◌, All, sum_by, ok, arith,
}
use inventory_storage.Shared.Int.{IsNonneg}
use inventory_storage.Shared.Quantity.{Quantity}
use inventory_storage.Stock.{StockUnit, release_reservation, pick}
use inventory_storage.Stock.Invariant
use inventory_storage.Location.{Bin, release}
use inventory_storage.Location.Capacity
use inventory_storage.Reservation.{Allocation}
use inventory_storage.Store.Table.{find, key-find, sum_by-upsert, All-find}
use inventory_storage.Store.World.{Db, Env, World, pure, fail, lift}
use inventory_storage.Store.Repos.{unit_key, bin_key, save_unit, save_bin, find_unit, find_bin}
use inventory_storage.Store.Keeps.{IsWellformed, IsCounted}
use inventory_storage.Store.Keeps.Rows.{IfFound, IfFound-find, Keeps-save_unit}
use inventory_storage.Stock.Lifecycle
use inventory_storage.Store.Runs.{
  run-bind, run-lift, run-find_unit, run-find_bin, run-save_unit, run-save_bin,
}
use inventory_storage.UseCases.Expiry.{release_from, release_allocations}
use inventory_storage.UseCases.ConfirmPick.{release_bin, pick_unit, pick_from_bin, pick_all}
use inventory_storage.UseCases.Allocate.Draws.{allocated}
use inventory_storage.UseCases.Wellformed.Reservations.{Keeps-release_from, Keeps-pick_unit}

abbrev pub reserved_in_all : Db → Quantity
reserved_in_all db = sum_by (λ u. u.reserved) db.units

abbrev pub stock_in_all : Db → Quantity
stock_in_all db = sum_by (λ u. u.quantity) db.units

abbrev pub occupied_in_all : Db → Quantity
occupied_in_all db = sum_by (λ b. b.occupied) db.bins

module _ (env : Env) where
  -- A unit saved over the row that it was found in.
  pub saved_over :
      (u u' : StockUnit) (k : String) (w w' : World)
      → find unit_key k w.db.units ≡ some u
      → u'.id ≡ u.id
      → save_unit env u' w ≡ (ok tt, w')
      → (reserved_in_all w'.db + u.reserved ≡ reserved_in_all w.db + u'.reserved)
        × (stock_in_all w'.db + u.quantity ≡ stock_in_all w.db + u'.quantity)
        × (w'.db.bins ≡ w.db.bins)
  saved_over u u' k w w' found same h =
      let (n, guard, e) = run-save_unit env u' w h in
      let new : StockUnit = record u' { version = n } in
      let there : find unit_key new.id w.db.units ≡ some u =
        ap (λ i. find unit_key i w.db.units) (same ∙ key-find unit_key k w.db.units found)
        ∙ found in
      let r = sum_by-upsert unit_key (λ u. u.reserved) new w.db.units there in
      let q = sum_by-upsert unit_key (λ u. u.quantity) new w.db.units there in
      (
        ap (λ d. reserved_in_all d + u.reserved) e ∙ r,
        ap (λ d. stock_in_all d + u.quantity) e ∙ q,
        ap (λ d. d.bins) e,
      )

  release_one :
      (q : Quantity) (k : String) (o : Option StockUnit) (w w' : World)
      → IsNonneg q
      → IsWellformed w.db
      → o ≡ find unit_key k w.db.units
      → release_from env q o w ≡ (ok tt, w')
      → (reserved_in_all w'.db + q ≡ reserved_in_all w.db)
        × (stock_in_all w'.db ≡ stock_in_all w.db)
        × (w'.db.bins ≡ w.db.bins)
  unfolding release_from fail
  release_one q k none w w' hq v found h = cc
  release_one q k (some u) w w' hq v found h =
      let (u', w1, e, rest) = run-bind (lift _) _ w h in
      let (done, here) = run-lift (release_reservation u q) w e in
      let valid = All-find unit_key Invariant.IsValid k w.db.units v.units (sym found) in
      let lem = Invariant.release-lem u valid q hq in
      let (r, s, b) =
        saved_over u u' k w w' (sym found) (ground (arith, lem))
          (ap (save_unit env u') (sym here) ∙ rest) in
      let left : u'.reserved + q ≡ u.reserved = ground (arith, lem) in
      let kept : u'.quantity ≡ u.quantity = ground (arith, lem) in
      (omega (arith, r, left), omega (arith, s, kept), b)

  -- Releasing the allocations of a reservation in a well-formed database, when it succeeds, takes
  -- exactly their quantities from what is reserved in all units together, and leaves the quantity
  -- at hand and the bins as they were.
  pub release_allocations_conserves :
      (l : List Allocation) (w w' : World)
      → All IsCounted l
      → IsWellformed w.db
      → release_allocations env l w ≡ (ok tt, w')
      → (reserved_in_all w'.db + sum_by allocated l ≡ reserved_in_all w.db)
        × (stock_in_all w'.db ≡ stock_in_all w.db)
        × (w'.db.bins ≡ w.db.bins)
  unfolding release_allocations pure
  release_allocations_conserves [] w w' c v h =
      let e : w ≡ w' = ap (λ p. p.1) h in
      (
        omega (arith, ap (λ x. reserved_in_all x.db) e),
        omega (arith, ap (λ x. stock_in_all x.db) e),
        sym (ap (λ x. x.db.bins) e),
      )
  release_allocations_conserves (a ∷ l) w w' c v h =
      let (o, w1, e1, k1) = run-bind (find_unit env a.stock_unit_id) _ w h in
      let (found, here) = run-find_unit env a.stock_unit_id w e1 in
      let (_, w2, e2, k2) = run-bind (release_from env a.quantity o) _ w1 k1 in
      let v1 : IsWellformed w1.db = subst IsWellformed (sym here) v in
      let found1 = found ∙ ap (λ d. find unit_key a.stock_unit_id d.units) (sym here) in
      let (r, s, b) = release_one a.quantity a.stock_unit_id o w1 w2 c.0 v1 found1 e2 in
      let valid : IfFound Invariant.IsValid o =
        subst (IfFound Invariant.IsValid) (sym found)
          (IfFound-find unit_key Invariant.IsValid a.stock_unit_id w.db.units v.units) in
      let v2 : IsWellformed w2.db =
        subst (λ p. IsWellformed p.1.db) e2
          ((Keeps-release_from env a.quantity o c.0 valid).from w1 v1).0 in
      let (r', s', b') = release_allocations_conserves l w2 w' c.1 v2 k2 in
      (
        omega (arith, r, r', ap reserved_in_all here),
        s' ∙ s ∙ ap stock_in_all here,
        b' ∙ b ∙ ap (λ d. d.bins) here,
      )

  -- Picking
  release_bin-lem :
      (q : Quantity) (k : String) (o : Option Bin) (w w' : World)
      → IsNonneg q
      → IsWellformed w.db
      → o ≡ find bin_key k w.db.bins
      → release_bin env q o w ≡ (ok tt, w')
      → (occupied_in_all w'.db + q ≡ occupied_in_all w.db) × (w'.db.units ≡ w.db.units)
  unfolding release_bin fail
  release_bin-lem q k none w w' hq v found h = cc
  release_bin-lem q k (some b) w w' hq v found h =
      let (b', w1, e, rest) = run-bind (lift _) _ w h in
      let (done, here) = run-lift (release b q) w e in
      let valid = All-find bin_key Capacity.IsValid k w.db.bins v.bins (sym found) in
      let lem = Capacity.release-lem b valid q hq in
      let (n, guard, saved, small) =
        run-save_bin env b' w (ap (save_bin env b') (sym here) ∙ rest) in
      let new : Bin = record b' { version = n } in
      let same : b'.id ≡ b.id = ground (arith, lem) in
      let there : find bin_key new.id w.db.bins ≡ some b =
        ap (λ i. find bin_key i w.db.bins) (same ∙ key-find bin_key k w.db.bins (sym found))
        ∙ sym found in
      let o = sum_by-upsert bin_key (λ b. b.occupied) new w.db.bins there in
      let left : b'.occupied + q ≡ b.occupied = ground (arith, lem) in
      (omega (arith, ap occupied_in_all saved, o, left), ap (λ d. d.units) saved)

  pick_one :
      (q : Quantity) (k : String) (o : Option StockUnit) (w w' : World)
      → IsNonneg q
      → IsWellformed w.db
      → o ≡ find unit_key k w.db.units
      → pick_unit env q o w ≡ (ok tt, w')
      → (reserved_in_all w'.db + q ≡ reserved_in_all w.db)
        × (stock_in_all w'.db + q ≡ stock_in_all w.db)
        × (occupied_in_all w'.db + q ≡ occupied_in_all w.db)
  unfolding pick_unit fail
  pick_one q k none w w' hq v found h = cc
  pick_one q k (some u) w w' hq v found h =
      let (u', w1, e, k1) = run-bind (lift _) _ w h in
      let (done, here) = run-lift (pick u q) w e in
      let (_, w2, e2, k2) = run-bind (save_unit env u') _ w1 k1 in
      let (o, w3, e3, k3) = run-bind (find_bin env u.bin_id) _ w2 k2 in
      let (found', there) = run-find_bin env u.bin_id w2 e3 in
      let valid = All-find unit_key Invariant.IsValid k w.db.units v.units (sym found) in
      let lem = Invariant.pick-lem u valid q hq in
      let (r, s, b) =
        saved_over u u' k w w2 (sym found) (ground (arith, lem))
          (ap (save_unit env u') (sym here) ∙ e2) in
      let v' = Lifecycle.Step-IsValid u u' valid (Lifecycle.picking q hq done) in
      let v1 : IsWellformed w1.db = subst (λ x. IsWellformed x.db) (sym here) v in
      let v2 : IsWellformed w2.db =
        subst (λ p. IsWellformed p.1.db) e2 ((Keeps-save_unit env u' v').from w1 v1).0 in
      let (c, us) =
        release_bin-lem q u.bin_id o w3 w' hq (subst IsWellformed (sym there) v2)
          (found' ∙ ap (λ d. find bin_key u.bin_id d.bins) (sym there)) k3 in
      let left : u'.reserved + q ≡ u.reserved = ground (arith, lem) in
      let taken : u'.quantity + q ≡ u.quantity = ground (arith, lem, valid.within) in
      let us' = us ∙ ap (λ d. d.units) there in
      (
        omega (arith, r, left, ap (sum_by λ u. u.reserved) us'),
        omega (arith, s, taken, ap (sum_by λ u. u.quantity) us'),
        omega (arith, c, ap (sum_by λ b. b.occupied) b, ap occupied_in_all there),
      )

  -- Picking the allocations of a reservation in a well-formed database, when it succeeds, takes
  -- exactly their quantities from what is reserved, from the quantity at hand and from what the
  -- bins hold, each over all units and bins together.
  pub pick_all_conserves :
      (l : List Allocation) (w w' : World)
      → All IsCounted l
      → IsWellformed w.db
      → pick_all env l w ≡ (ok tt, w')
      → (reserved_in_all w'.db + sum_by allocated l ≡ reserved_in_all w.db)
        × (stock_in_all w'.db + sum_by allocated l ≡ stock_in_all w.db)
        × (occupied_in_all w'.db + sum_by allocated l ≡ occupied_in_all w.db)
  unfolding pick_all pick_from_bin pure
  pick_all_conserves [] w w' c v h =
      let e : w ≡ w' = ap (λ p. p.1) h in
      (
        omega (arith, ap (λ x. reserved_in_all x.db) e),
        omega (arith, ap (λ x. stock_in_all x.db) e),
        omega (arith, ap (λ x. occupied_in_all x.db) e),
      )
  pick_all_conserves (a ∷ l) w w' c v h =
      let (_, w2, e, k) = run-bind (pick_from_bin env a.stock_unit_id a.quantity) _ w h in
      let (o, w1, e1, e2) = run-bind (find_unit env a.stock_unit_id) _ w e in
      let (found, here) = run-find_unit env a.stock_unit_id w e1 in
      let v1 : IsWellformed w1.db = subst IsWellformed (sym here) v in
      let found1 = found ∙ ap (λ d. find unit_key a.stock_unit_id d.units) (sym here) in
      let (r, s, b) = pick_one a.quantity a.stock_unit_id o w1 w2 c.0 v1 found1 e2 in
      let valid : IfFound Invariant.IsValid o =
        subst (IfFound Invariant.IsValid) (sym found)
          (IfFound-find unit_key Invariant.IsValid a.stock_unit_id w.db.units v.units) in
      let v2 : IsWellformed w2.db =
        subst (λ p. IsWellformed p.1.db) e2
          ((Keeps-pick_unit env a.quantity o c.0 valid).from w1 v1).0 in
      let (r', s', b') = pick_all_conserves l w2 w' c.1 v2 k in
      (
        omega (arith, r, r', ap reserved_in_all here),
        omega (arith, s, s', ap stock_in_all here),
        omega (arith, b, b', ap occupied_in_all here),
      )
