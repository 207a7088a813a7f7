-- ===== src/Store/Keeps/Rows.antt =====
-- The repositories of internal/adapters/outbound/postgres keep the rows well-formed, and give back
-- well-formed ones.
use mathlib.Core.Path.{subst}
use inventory_storage.Prelude.{
  ℕ, ◌≡◌, refl, sym, true, false, String, Bool, Option, none, some, List, [], ◌∷◌, All, arith, ltb,
  str_eq, All-Rearranged, All-select, Bool-cases, Option-cases, inl, inr,
}
use inventory_storage.Shared.Events.{DomainEvent}
use inventory_storage.Stock.{StockUnit}
use inventory_storage.Stock.Invariant
use inventory_storage.Location.{Bin}
use inventory_storage.Location.Capacity
use inventory_storage.Reservation.{Allocation, Reservation}
use inventory_storage.Product.Classification.{ProductClassification}
use inventory_storage.Store.Table.{find, All-find, All-upsert}
use inventory_storage.Store.World.{Env, Exec, call, new_uuid, ◌>>=◌}
use inventory_storage.Store.Repos.{
  max_integer, unit_key, bin_key, reservation_key, check_columns, upsert_allocation,
  upsert_allocations, written_reservation, insert_by_time, by_created_at, save_unit, find_unit,
  find_units_by_sku, find_units_by_bin, next_unit_id, save_bin, find_bin, begin_or_join, statements,
  save_reservation, loaded, load_reservation, find_reservation, load_reservations,
  find_by_demand_ref, next_reservation_id, save_classification, find_classification, publish,
}
use inventory_storage.Store.Keeps.{
  IsCounted, IsDrawable, IsOrdering, Keeps, Anything, Keeps-pure, Keeps-lift, Keeps-bind,
  Keeps-call, Keeps-gets, Keeps-modify,
}

-- What a lookup by key has found is well-formed.
abbrev pub IfFound : {A : Type 0} → (A → Type 0) → Option A → Type 0
IfFound P none = Unit
IfFound P (some a) = P a

pub IfFound-find :
    {A : Type 0} (key : A → String) (P : A → Type 0) (k : String) (rows : List A)
    → All P rows
    → IfFound P (find key k rows)
IfFound-find key P k rows h = elim (Option-cases (find key k rows)) [
  | inl e ↦ rw e tt
  | inr (a, e) ↦ subst (IfFound P) (sym e) (All-find key P k rows h e)
]

Keeps-check_columns : (b : Bool) → Keeps (λ t. b ≡ true) (check_columns b)
unfolding check_columns
Keeps-check_columns true = record { from = λ w v. (v, λ a h. refl) }
Keeps-check_columns false = record { from = λ w v. (v, λ a h. cc) }

upsert_allocation-IsCounted :
    (a : Allocation) (rows : List Allocation)
    → IsCounted a
    → All IsCounted rows
    → All IsCounted (upsert_allocation a rows)
unfolding upsert_allocation
upsert_allocation-IsCounted a [] h v = (h, tt)
upsert_allocation-IsCounted a (b ∷ rows) h v =
    elim (Bool-cases (str_eq b.stock_unit_id a.stock_unit_id)) [
      | inl same ↦ rw same (h, v.1)
      | inr ne ↦ rw ne (v.0, upsert_allocation-IsCounted a rows h v.1)
    ]

upsert_allocations-IsCounted :
    (l rows : List Allocation)
    → All IsCounted l
    → All IsCounted rows
    → All IsCounted (upsert_allocations l rows)
unfolding upsert_allocations
upsert_allocations-IsCounted [] rows h v = v
upsert_allocations-IsCounted (a ∷ l) rows h v =
    upsert_allocations-IsCounted l (upsert_allocation a rows) h.1
      (upsert_allocation-IsCounted a rows h.0 v)

written-IsDrawable :
    (old : Option Reservation) (r : Reservation) (v : ℕ)
    → IfFound IsDrawable old
    → IsDrawable r
    → IsDrawable (written_reservation old r v)
unfolding written_reservation
written-IsDrawable none r v d h = upsert_allocations-IsCounted r.allocations [] h tt
written-IsDrawable (some o) r v d h = upsert_allocations-IsCounted r.allocations o.allocations h d

insert_by_time-IsDrawable :
    (r : Reservation) (l : List Reservation)
    → IsDrawable r
    → All IsDrawable l
    → All IsDrawable (insert_by_time r l)
unfolding insert_by_time
insert_by_time-IsDrawable r [] h v = (h, tt)
insert_by_time-IsDrawable r (s ∷ l) h v = elim (Bool-cases (ltb s.created_at r.created_at)) [
  | inl before ↦ rw before (v.0, insert_by_time-IsDrawable r l h v.1)
  | inr after ↦ rw after (h, v)
]

by_created_at-IsDrawable :
    (l : List Reservation) → All IsDrawable l → All IsDrawable (by_created_at l)
unfolding by_created_at
by_created_at-IsDrawable [] v = tt
by_created_at-IsDrawable (r ∷ l) v =
    insert_by_time-IsDrawable r (by_created_at l) v.0 (by_created_at-IsDrawable l v.1)

unit-versioned :
    (u : StockUnit) (n : ℕ) → Invariant.IsValid u → Invariant.IsValid (record u { version = n })
unit-versioned u n v = record {
  in_range = v.in_range;
  within = v.within;
  removed_empty = v.removed_empty;
  available_free = v.available_free;
}

bin-versioned : (b : Bin) (n : ℕ) → Capacity.IsValid b → Capacity.IsValid (record b { version = n })
bin-versioned b n v = record { in_range = v.in_range; fits = v.fits; nonempty = v.nonempty }

module _ (env : Env) where
  -- After a call that the server has answered.
  Keeps-after_call :
      {A : Type 0} (Q : A → Type 0) (k : Exec A) → Keeps Q k → Keeps Q (call env >>= λ _. k)
  Keeps-after_call Q k h = Keeps-bind Anything Q (call env) (λ _. k) (Keeps-call env) (λ a q. h)

  pub Keeps-save_unit : (u : StockUnit) → Invariant.IsValid u → Keeps Anything (save_unit env u)
  unfolding save_unit
  Keeps-save_unit u h = Keeps-after_call Anything _ (
      Keeps-bind _ Anything _ _ (Keeps-check_columns _) λ c fits.
        Keeps-bind (λ o. Unit) Anything _ _ (Keeps-gets (λ o. Unit) _ (λ w v. tt))
          λ old some_row.
            Keeps-bind (λ v. Unit) Anything _ _ (Keeps-lift (λ v. Unit) _ (λ a e. tt))
              λ n some_version. Keeps-modify _ λ db v. record {
                bins = v.bins;
                reservations = v.reservations;
                units =
                    All-upsert unit_key Invariant.IsValid (record u { version = n }) db.units
                      (unit-versioned u n h) v.units;
              })

  -- The columns refuse what an `int` holds as a negative number.
  pub Keeps-save_bin :
      (b : Bin)
      → (ltb b.occupied max_integer ≡ true → Capacity.IsValid b)
      → Keeps Anything (save_bin env b)
  unfolding save_bin
  Keeps-save_bin b h = Keeps-after_call Anything _ (
      Keeps-bind _ Anything _ _ (Keeps-check_columns _) λ c fits.
        Keeps-bind (λ o. Unit) Anything _ _ (Keeps-gets (λ o. Unit) _ (λ w v. tt))
          λ old some_row.
            Keeps-bind (λ v. Unit) Anything _ _ (Keeps-lift (λ v. Unit) _ (λ a e. tt))
              λ n some_version. Keeps-modify _ λ db v. record {
                units = v.units;
                reservations = v.reservations;
                bins =
                    All-upsert bin_key Capacity.IsValid (record b { version = n }) db.bins
                      (bin-versioned b n (h (ground arith))) v.bins;
              })

  Keeps-begin_or_join : Keeps Anything (begin_or_join env)
  unfolding begin_or_join call
  Keeps-begin_or_join = record {
    from = λ w v. elim (Bool-cases w.in_tx) [
      | inl inside ↦ rw inside (v, λ a h. tt)
      | inr top ↦ rw top (v, λ a h. tt)
    ];
  }

  Keeps-statements : (l : List Allocation) → Keeps Anything (statements env l)
  unfolding statements
  Keeps-statements [] = Keeps-pure Anything tt tt
  Keeps-statements (a ∷ l) =
      Keeps-after_call Anything _
        (Keeps-bind _ Anything _ _ (Keeps-check_columns _) λ c fits. Keeps-statements l)

  pub Keeps-save_reservation :
      (r : Reservation) → IsDrawable r → Keeps Anything (save_reservation env r)
  unfolding save_reservation
  Keeps-save_reservation r h = Keeps-bind Anything Anything _ _ Keeps-begin_or_join λ t some_begin.
      Keeps-after_call Anything _ (
        Keeps-bind _ Anything _ _ (Keeps-check_columns _) λ c fits.
          Keeps-bind (IfFound IsDrawable) Anything _ _
            (Keeps-gets _ _
              λ w v. IfFound-find reservation_key IsDrawable r.id w.db.reservations v.reservations)
            λ old d.
              Keeps-bind (λ v. Unit) Anything _ _ (Keeps-lift (λ v. Unit) _ (λ a e. tt))
                λ n nth. Keeps-bind Anything Anything _ _ (Keeps-statements r.allocations) λ s all.
                  Keeps-bind Anything Anything _ _ Keeps-begin_or_join λ e some_commit.
                    Keeps-modify _ λ db v. record {
                      units = v.units;
                      bins = v.bins;
                      reservations =
                          All-upsert reservation_key IsDrawable (written_reservation old r n)
                            db.reservations (written-IsDrawable old r n d h) v.reservations;
                    })

  pub Keeps-find_unit : (id : String) → Keeps (IfFound Invariant.IsValid) (find_unit env id)
  unfolding find_unit
  Keeps-find_unit id =
      Keeps-after_call (IfFound Invariant.IsValid) _
        (Keeps-gets _ _ λ w v. IfFound-find unit_key Invariant.IsValid id w.db.units v.units)

  pub Keeps-find_bin : (id : String) → Keeps (IfFound Capacity.IsValid) (find_bin env id)
  unfolding find_bin
  Keeps-find_bin id =
      Keeps-after_call (IfFound Capacity.IsValid) _
        (Keeps-gets _ _ λ w v. IfFound-find bin_key Capacity.IsValid id w.db.bins v.bins)

  pub Keeps-find_units_by_sku :
      (sku : String) → Keeps (All Invariant.IsValid) (find_units_by_sku env sku)
  unfolding find_units_by_sku
  Keeps-find_units_by_sku sku =
      Keeps-after_call (All Invariant.IsValid) _
        (Keeps-gets _ _ λ w v. All-select Invariant.IsValid _ w.db.units v.units)

  pub Keeps-find_units_by_bin :
      (bin : String) → Keeps (All Invariant.IsValid) (find_units_by_bin env bin)
  unfolding find_units_by_bin
  Keeps-find_units_by_bin bin =
      Keeps-after_call (All Invariant.IsValid) _
        (Keeps-gets _ _ λ w v. All-select Invariant.IsValid _ w.db.units v.units)

  pub Keeps-publish : (e : DomainEvent) → Keeps Anything (publish env e)
  unfolding publish
  Keeps-publish e = Keeps-after_call Anything _ (
      Keeps-modify _
        λ db v. record { units = v.units; bins = v.bins; reservations = v.reservations })

  pub Keeps-next_unit_id : Keeps (λ id. Unit) (next_unit_id env)
  unfolding next_unit_id new_uuid
  Keeps-next_unit_id =
      Keeps-bind (λ id. Unit) (λ id. Unit) _ _ (record { from = λ w v. (v, λ a h. tt) })
        λ id t. Keeps-pure (λ id. Unit) _ tt

  pub Keeps-next_reservation_id : Keeps (λ id. Unit) (next_reservation_id env)
  unfolding next_reservation_id new_uuid
  Keeps-next_reservation_id =
      Keeps-bind (λ id. Unit) (λ id. Unit) _ _ (record { from = λ w v. (v, λ a h. tt) })
        λ id t. Keeps-pure (λ id. Unit) _ tt

  pub Keeps-find_classification : (sku : String) → Keeps (λ c. Unit) (find_classification env sku)
  unfolding find_classification
  Keeps-find_classification sku =
      Keeps-after_call (λ c. Unit) _
        (Keeps-bind (λ row. Unit) (λ c. Unit) _ _ (Keeps-gets (λ row. Unit) _ (λ w v. tt))
          λ row t. Keeps-pure (λ c. Unit) _ tt)

  pub Keeps-save_classification :
      (c : ProductClassification) → Keeps Anything (save_classification env c)
  unfolding save_classification
  Keeps-save_classification c = Keeps-after_call Anything _ (
      Keeps-modify _
        λ db v. record { units = v.units; bins = v.bins; reservations = v.reservations })

  module _ (ordering : IsOrdering env) where
    pub loaded-IsDrawable : (r : Reservation) → IsDrawable r → IsDrawable (loaded env r)
    loaded-IsDrawable r h =
        All-Rearranged IsCounted (env.in_order r.allocations) r.allocations (ordering r.allocations)
          h

    Keeps-load_reservation :
        (o : Option Reservation)
        → IfFound IsDrawable o
        → Keeps (IfFound IsDrawable) (load_reservation env o)
    unfolding load_reservation
    Keeps-load_reservation none d = Keeps-pure (IfFound IsDrawable) none tt
    Keeps-load_reservation (some r) d =
        Keeps-after_call (IfFound IsDrawable) _
          (Keeps-pure (IfFound IsDrawable) (some (loaded env r)) (loaded-IsDrawable r d))

    pub Keeps-find_reservation :
        (id : String) → Keeps (IfFound IsDrawable) (find_reservation env id)
    unfolding find_reservation
    Keeps-find_reservation id = Keeps-after_call (IfFound IsDrawable) _ (
        Keeps-bind (IfFound IsDrawable) (IfFound IsDrawable) _ _
          (Keeps-gets _ _
            λ w v. IfFound-find reservation_key IsDrawable id w.db.reservations v.reservations)
          Keeps-load_reservation)

    Keeps-load_reservations :
        (l : List Reservation) → All IsDrawable l → Keeps (All IsDrawable) (load_reservations env l)
    unfolding load_reservations
    Keeps-load_reservations [] d = Keeps-pure (All IsDrawable) [] tt
    Keeps-load_reservations (r ∷ l) d = Keeps-after_call (All IsDrawable) _ (
        Keeps-bind (All IsDrawable) (All IsDrawable) _ _ (Keeps-load_reservations l d.1)
          λ m h. Keeps-pure (All IsDrawable) (loaded env r ∷ m) (loaded-IsDrawable r d.0, h))

    pub Keeps-find_by_demand_ref :
        (ref : String) → Keeps (All IsDrawable) (find_by_demand_ref env ref)
    unfolding find_by_demand_ref
    Keeps-find_by_demand_ref ref = Keeps-after_call (All IsDrawable) _ (
        Keeps-bind (All IsDrawable) (All IsDrawable) _ _
          (Keeps-gets _ _ λ w v. All-select IsDrawable _ w.db.reservations v.reservations)
          λ l d. Keeps-load_reservations (by_created_at l) (by_created_at-IsDrawable l d))
