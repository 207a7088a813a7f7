-- ===== src/UseCases/Wellformed/Reservations.antt =====
-- The use cases on reservations (reservation_expiry.go, reserve_stock.go, revoke_reservation.go and
-- confirm_pick.go) keep the database well-formed.
use mathlib.Core.Path.{subst}
use inventory_storage.Prelude.{◌≡◌, String, Option, none, some, List, [], ◌∷◌, All, ok, arith}
use inventory_storage.Shared.Int.{IsNonneg}
use inventory_storage.Shared.Events.{Time}
use inventory_storage.Shared.Quantity.{Quantity, is_not_positive}
use inventory_storage.Stock.{StockUnit}
use inventory_storage.Stock.Invariant
use inventory_storage.Stock.Lifecycle
use inventory_storage.Location.{Bin}
use inventory_storage.Location.Capacity
use inventory_storage.Reservation
use inventory_storage.Reservation.{
  Allocation, Reservation, is_active, is_expired, expire, revoke, confirm,
}
use inventory_storage.Store.World.{Env}
use inventory_storage.Store.Keeps.{
  IsCounted, IsDrawable, IsOrdering, Keeps, Anything, Keeps-pure, Keeps-lift, Keeps-fail, Keeps-if,
  Keeps-bind, Keeps-atomically, Keeps-now,
}
use inventory_storage.Store.Keeps.Rows.{
  IfFound, Keeps-save_unit, Keeps-save_bin, Keeps-save_reservation, Keeps-find_unit, Keeps-find_bin,
  Keeps-find_units_by_sku, Keeps-publish, Keeps-next_reservation_id, Keeps-find_reservation,
  Keeps-find_by_demand_ref,
}
use inventory_storage.UseCases.Expiry.{
  release_from, release_allocations, expire_at, expire_if_due, expire_all_if_due,
}
use inventory_storage.UseCases.Reserve
use inventory_storage.UseCases.Allocate.Draws.{Draws-IsValid}
use inventory_storage.UseCases.Allocate.Draws.Sound.{allocate-IsDrawn, Draws-IsCounted}
use inventory_storage.UseCases.Queries.{get_reservations_by_demand_ref}
use inventory_storage.UseCases.Revoke
use inventory_storage.UseCases.ConfirmPick

expire-IsDrawable :
    (r : Reservation) → IsDrawable r → (r' : Reservation) → expire r ≡ ok r' → IsDrawable r'
unfolding expire
expire-IsDrawable r d r' e =
    let same : r.allocations ≡ r'.allocations = ground arith in subst (All IsCounted) same d

revoke-IsDrawable :
    (r : Reservation) → IsDrawable r → (r' : Reservation) → revoke r ≡ ok r' → IsDrawable r'
unfolding revoke
revoke-IsDrawable r d r' e =
    let same : r.allocations ≡ r'.allocations = ground arith in subst (All IsCounted) same d

confirm-IsDrawable :
    (r : Reservation) (t : Time)
    → IsDrawable r
    → (r' : Reservation) → confirm r t ≡ ok r'
    → IsDrawable r'
unfolding confirm
confirm-IsDrawable r t d r' e =
    let same : r.allocations ≡ r'.allocations = ground arith in subst (All IsCounted) same d

new-IsDrawable :
    (id sku : String) (q : Quantity) (ref : String) (l : List Allocation) (t timeout : Time)
    → All IsCounted l
    → (r : Reservation) → Reservation.new id sku q ref l t timeout ≡ ok r
    → IsDrawable r
unfolding Reservation.new
new-IsDrawable id sku q ref l t timeout d r e =
    let same : l ≡ r.allocations = ground arith in subst (All IsCounted) same d

module _ (env : Env) where
  pub Keeps-release_from :
      (q : Quantity) (o : Option StockUnit)
      → IsNonneg q
      → IfFound Invariant.IsValid o
      → Keeps Anything (release_from env q o)
  unfolding release_from
  Keeps-release_from q none hq v = Keeps-fail Anything _
  Keeps-release_from q (some u) hq v =
      Keeps-bind Invariant.IsValid Anything _ _
        (Keeps-lift Invariant.IsValid _
          λ t e. Lifecycle.Step-IsValid u t v (Lifecycle.releasing q hq e))
        (Keeps-save_unit env)

  Keeps-release_allocations :
      (l : List Allocation) → All IsCounted l → Keeps Anything (release_allocations env l)
  unfolding release_allocations
  Keeps-release_allocations [] h = Keeps-pure Anything tt tt
  Keeps-release_allocations (a ∷ l) h =
      Keeps-bind (IfFound Invariant.IsValid) Anything _ _ (Keeps-find_unit env a.stock_unit_id)
        λ o v.
          Keeps-bind Anything Anything _ _ (Keeps-release_from a.quantity o h.0 v)
            λ t s. Keeps-release_allocations l h.1

  Keeps-expire_at :
      (t : Time) (r : Reservation) → IsDrawable r → Keeps IsDrawable (expire_at env t r)
  unfolding expire_at
  Keeps-expire_at t r d =
      Keeps-bind Anything IsDrawable _ _ (Keeps-release_allocations r.allocations d) λ s released.
        Keeps-bind IsDrawable IsDrawable _ _ (Keeps-lift IsDrawable _ (expire-IsDrawable r d))
          λ r' d'. Keeps-bind Anything IsDrawable _ _ (Keeps-save_reservation env r' d') λ _ saved.
            Keeps-bind Anything IsDrawable _ _ (Keeps-publish env _)
              λ _ published. Keeps-pure IsDrawable r' d'

  Keeps-expire_if_due : (r : Reservation) → IsDrawable r → Keeps IsDrawable (expire_if_due env r)
  unfolding expire_if_due
  Keeps-expire_if_due r d =
      Keeps-if IsDrawable (is_active r.status) _ _
        (λ live. Keeps-bind _ IsDrawable _ _ (Keeps-now env) λ t read.
          Keeps-if IsDrawable (is_expired r t) _ _
            (λ due. Keeps-atomically env IsDrawable _ (Keeps-expire_at t r d))
            (λ early. Keeps-pure IsDrawable r d))
        (λ resolved. Keeps-pure IsDrawable r d)

  Keeps-expire_all_if_due :
      (l : List Reservation) → All IsDrawable l → Keeps (All IsDrawable) (expire_all_if_due env l)
  unfolding expire_all_if_due
  Keeps-expire_all_if_due [] d = Keeps-pure (All IsDrawable) [] tt
  Keeps-expire_all_if_due (r ∷ l) d =
      Keeps-bind IsDrawable (All IsDrawable) _ _ (Keeps-expire_if_due r d.0) λ r' h.
        Keeps-bind (All IsDrawable) (All IsDrawable) _ _ (Keeps-expire_all_if_due l d.1)
          λ l' t. Keeps-pure (All IsDrawable) (r' ∷ l') (h, t)

  Keeps-give_back : (r : Reservation) → IsDrawable r → Keeps Anything (Revoke.give_back env r)
  unfolding Revoke.give_back
  Keeps-give_back r d =
      Keeps-bind Anything Anything _ _ (Keeps-release_allocations r.allocations d) λ _ released.
        Keeps-bind Anything Anything _ _ (Keeps-save_reservation env r d)
          λ _ saved. Keeps-bind _ Anything _ _ (Keeps-now env) λ t read. Keeps-publish env _

  -- Revoking
  Keeps-revoke_found :
      (o : Option Reservation) → IfFound IsDrawable o → Keeps Anything (Revoke.revoke_found env o)
  unfolding Revoke.revoke_found
  Keeps-revoke_found none d = Keeps-fail Anything _
  Keeps-revoke_found (some r) d =
      Keeps-bind IsDrawable Anything _ _ (Keeps-expire_if_due r d) λ s h.
        Keeps-bind IsDrawable Anything _ _ (Keeps-lift IsDrawable _ (revoke-IsDrawable s h))
          λ t k. Keeps-atomically env Anything _ (Keeps-give_back t k)

  -- Confirming
  Keeps-release_bin :
      (q : Quantity) (o : Option Bin)
      → IsNonneg q
      → IfFound Capacity.IsValid o
      → Keeps Anything (ConfirmPick.release_bin env q o)
  unfolding ConfirmPick.release_bin
  Keeps-release_bin q none hq v = Keeps-fail Anything _
  Keeps-release_bin q (some b) hq v =
      Keeps-bind Capacity.IsValid Anything _ _
        (Keeps-lift Capacity.IsValid _ λ t e. Capacity.Step-IsValid b t v (Capacity.freeing q hq e))
        λ t k. Keeps-save_bin env t (λ fits. k)

  pub Keeps-pick_unit :
      (q : Quantity) (o : Option StockUnit)
      → IsNonneg q
      → IfFound Invariant.IsValid o
      → Keeps Anything (ConfirmPick.pick_unit env q o)
  unfolding ConfirmPick.pick_unit
  Keeps-pick_unit q none hq v = Keeps-fail Anything _
  Keeps-pick_unit q (some u) hq v =
      Keeps-bind Invariant.IsValid Anything _ _
        (Keeps-lift Invariant.IsValid _
          λ t e. Lifecycle.Step-IsValid u t v (Lifecycle.picking q hq e))
        λ t k. Keeps-bind Anything Anything _ _ (Keeps-save_unit env t k) λ _ saved.
          Keeps-bind (IfFound Capacity.IsValid) Anything _ _ (Keeps-find_bin env u.bin_id)
            λ b h. Keeps-release_bin q b hq h

  Keeps-pick_all :
      (l : List Allocation) → All IsCounted l → Keeps Anything (ConfirmPick.pick_all env l)
  unfolding ConfirmPick.pick_all ConfirmPick.pick_from_bin
  Keeps-pick_all [] h = Keeps-pure Anything tt tt
  Keeps-pick_all (a ∷ l) h =
      Keeps-bind Anything Anything _ _
        (Keeps-bind (IfFound Invariant.IsValid) Anything _ _ (Keeps-find_unit env a.stock_unit_id)
          λ o v. Keeps-pick_unit a.quantity o h.0 v)
        λ _ picked. Keeps-pick_all l h.1

  Keeps-carry_out :
      (t : Time) (r : Reservation) → IsDrawable r → Keeps Anything (ConfirmPick.carry_out env t r)
  unfolding ConfirmPick.carry_out
  Keeps-carry_out t r d =
      Keeps-bind Anything Anything _ _ (Keeps-pick_all r.allocations d) λ _ picked.
        Keeps-bind Anything Anything _ _ (Keeps-save_reservation env r d)
          λ _ saved. Keeps-publish env _

  Keeps-confirm_found :
      (o : Option Reservation)
      → IfFound IsDrawable o
      → Keeps Anything (ConfirmPick.confirm_found env o)
  unfolding ConfirmPick.confirm_found
  Keeps-confirm_found none d = Keeps-fail Anything _
  Keeps-confirm_found (some r) d =
      Keeps-bind IsDrawable Anything _ _ (Keeps-expire_if_due r d) λ s h.
        Keeps-bind _ Anything _ _ (Keeps-now env) λ t read.
          Keeps-bind IsDrawable Anything _ _ (Keeps-lift IsDrawable _ (confirm-IsDrawable s t h))
            λ r' k. Keeps-atomically env Anything _ (Keeps-carry_out t r' k)

  -- Reserving
  Keeps-save_all :
      (l : List StockUnit) → All Invariant.IsValid l → Keeps Anything (Reserve.save_all env l)
  unfolding Reserve.save_all
  Keeps-save_all [] v = Keeps-pure Anything tt tt
  Keeps-save_all (u ∷ l) v =
      Keeps-bind Anything Anything _ _ (Keeps-save_unit env u v.0) λ _ saved. Keeps-save_all l v.1

  Keeps-record_reservation :
      (t : Time) (r : Reservation)
      → IsDrawable r
      → Keeps (λ _. Unit) (Reserve.record_reservation env t r)
  unfolding Reserve.record_reservation
  Keeps-record_reservation t r d =
      Keeps-bind Anything _ _ _ (Keeps-save_reservation env r d) λ _ saved.
        Keeps-bind Anything _ _ _ (Keeps-publish env _) λ _ published. Keeps-pure (λ _. Unit) r tt

  Keeps-reserve_new :
      (sku : String) (q : Quantity) (ref : String)
      → IsNonneg q
      → Keeps (λ _. Unit) (Reserve.reserve_new env sku q ref)
  unfolding Reserve.reserve_new
  Keeps-reserve_new sku q ref hq =
      Keeps-bind (All Invariant.IsValid) _ _ _ (Keeps-find_units_by_sku env sku) λ us v.
        Keeps-bind (λ d. All Invariant.IsValid d.touched × All IsCounted d.allocations) _ _ _
          (Keeps-lift _ _ λ d e.
            let from = allocate-IsDrawn us q d v hq e in
            (Draws-IsValid us _ _ v from, Draws-IsCounted us _ _ v from))
          λ d (touched, counted).
            Keeps-bind Anything _ _ _ (Keeps-save_all d.touched touched) λ _ saved.
              Keeps-bind _ _ _ _ (Keeps-next_reservation_id env) λ id some_id.
                Keeps-bind _ _ _ _ (Keeps-now env) λ t read.
                  Keeps-bind IsDrawable _ _ _
                    (Keeps-lift _ _
                      (new-IsDrawable id sku q ref d.allocations t env.timeout counted))
                    λ r k. Keeps-atomically env _ _ (Keeps-record_reservation t r k)

  Keeps-replay_or_new :
      (sku : String) (q : Quantity) (ref : String) (o : Option Reservation)
      → IsNonneg q
      → Keeps (λ _. Unit) (Reserve.replay_or_new env sku q ref o)
  unfolding Reserve.replay_or_new
  Keeps-replay_or_new sku q ref none hq = Keeps-reserve_new sku q ref hq
  Keeps-replay_or_new sku q ref (some r) hq = Keeps-pure (λ _. Unit) r tt

  module _ (ordering : IsOrdering env) where
    pub Keeps-revoke : (id : String) → Keeps Anything (Revoke.execute env id)
    unfolding Revoke.execute
    Keeps-revoke id =
        Keeps-bind (IfFound IsDrawable) Anything _ _ (Keeps-find_reservation env ordering id)
          Keeps-revoke_found

    pub Keeps-confirm : (id : String) → Keeps Anything (ConfirmPick.execute env id)
    unfolding ConfirmPick.execute
    Keeps-confirm id =
        Keeps-bind (IfFound IsDrawable) Anything _ _ (Keeps-find_reservation env ordering id)
          Keeps-confirm_found

    pub Keeps-reservations_of :
        (ref : String) → Keeps (All IsDrawable) (get_reservations_by_demand_ref env ref)
    unfolding get_reservations_by_demand_ref
    Keeps-reservations_of ref =
        Keeps-bind (All IsDrawable) (All IsDrawable) _ _ (Keeps-find_by_demand_ref env ordering ref)
          Keeps-expire_all_if_due

    Keeps-active_reservation_for :
        (ref sku : String) (q : Quantity)
        → Keeps (λ _. Unit) (Reserve.active_reservation_for env ref sku q)
    unfolding Reserve.active_reservation_for
    Keeps-active_reservation_for ref sku q =
        Keeps-bind (All IsDrawable) _ _ _ (Keeps-find_by_demand_ref env ordering ref) λ l d.
          Keeps-bind (All IsDrawable) _ _ _ (Keeps-expire_all_if_due l d)
            λ m h. Keeps-pure (λ _. Unit) _ tt

    pub Keeps-reserve :
        (sku : String) (q : Quantity) (ref : String)
        → IsNonneg q
        → Keeps (λ _. Unit) (Reserve.execute env sku q ref)
    unfolding Reserve.execute
    Keeps-reserve sku q ref hq =
        Keeps-if _ (is_not_positive q) _ _ (λ bad. Keeps-fail (λ _. Unit) _)
          (λ good.
            Keeps-bind _ _ _ _ (Keeps-active_reservation_for ref sku q)
              λ o some_found. Keeps-replay_or_new sku q ref o hq)
