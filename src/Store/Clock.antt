-- ===== src/Store/Clock.antt =====
-- The calls of a method are numbered upwards: after it has run, the next number is no smaller.
use inventory_storage.Prelude.{
  ◌≤◌, suc, ℕ, true, false, Bool, List, [], ◌∷◌, Result, ok, err, Error, arith, String,
  if◌then◌else◌,
}
use inventory_storage.Shared.Events.{DomainEvent}
use inventory_storage.Stock.{StockUnit}
use inventory_storage.Reservation.{Allocation, Reservation}
use inventory_storage.Store.World.{
  Db, Env, World, Exec, pure, fail, lift, gets, modify, ◌>>=◌, continue, call, now,
}
use inventory_storage.Store.Repos.{
  check_columns, save_unit, find_unit, begin_or_join, statements, save_reservation,
  load_reservations, find_by_demand_ref, publish,
}
use inventory_storage.Store.UnitOfWork.{atomically, execute, finish}

module _ {A : Type 0} where
  -- The method gives no call a number below the one that it starts from.
  abbrev pub Advances : Exec A → Type 0
  Advances m = (w : World) → w.calls ≤ (m w).1.calls

  pub Advances-pure : (a : A) → Advances (pure a)
  unfolding pure
  Advances-pure a w = omega arith

  pub Advances-lift : (r : Result A) → Advances (lift r)
  unfolding lift
  Advances-lift r w = omega arith

  pub Advances-gets : (f : World → A) → Advances (gets f)
  unfolding gets
  Advances-gets f w = omega arith

  pub Advances-if :
      (b : Bool) (m k : Exec A) → Advances m → Advances k → Advances (if b then m else k)
  Advances-if true m k hm hk = hm
  Advances-if false m k hm hk = hk

  Advances-finish :
      (env : Env) (before : Db) (n : ℕ) (p : Result A × World)
      → n ≤ p.1.calls
      → n ≤ (finish env before p).1.calls
  Advances-finish env before n (ok a, w) h = ground arith
  Advances-finish env before n (err e, w) h = omega arith

  pub Advances-atomically : (env : Env) (m : Exec A) → Advances m → Advances (atomically env m)
  unfolding atomically execute call
  Advances-atomically env m h w =
      let inside : World = record w { in_tx = true; calls = suc w.calls } in
      let end = Advances-finish env w.db (suc w.calls) (m inside) (h inside) in
      ground (arith, end, h w)

pub Advances-fail : (A : Type 0) (e : Error) → Advances (fail {A = A} e)
unfolding fail
Advances-fail A e w = omega arith

module _ {A B : Type 0} where
  Advances-continue :
      (f : A → Exec B) (n : ℕ) (p : Result A × World)
      → ((a : A) → Advances (f a))
      → n ≤ p.1.calls
      → n ≤ (continue p f).1.calls
  Advances-continue f n (ok a, w) hf h = omega (arith, hf a w, h)
  Advances-continue f n (err e, w) hf h = h

  pub Advances-bind :
      (m : Exec A) (f : A → Exec B) → Advances m → ((a : A) → Advances (f a)) → Advances (m >>= f)
  unfolding ◌>>=◌
  Advances-bind m f hm hf w = Advances-continue f w.calls (m w) hf (hm w)

pub Advances-modify : (f : Db → Db) → Advances (modify f)
unfolding modify
Advances-modify f w = omega arith

Advances-check_columns : (b : Bool) → Advances (check_columns b)
unfolding check_columns
Advances-check_columns b w = omega arith

module _ (env : Env) where
  Advances-call : Advances (call env)
  unfolding call
  Advances-call w = omega arith

  pub Advances-now : Advances (now env)
  unfolding now
  Advances-now w = omega arith

  pub Advances-find_unit : (id : String) → Advances (find_unit env id)
  unfolding find_unit
  Advances-find_unit id = Advances-bind _ _ Advances-call λ t. Advances-gets _

  pub Advances-save_unit : (u : StockUnit) → Advances (save_unit env u)
  unfolding save_unit
  Advances-save_unit u = Advances-bind _ _ Advances-call λ t.
      Advances-bind _ _ (Advances-check_columns _) λ t.
        Advances-bind _ _ (Advances-gets _)
          λ old. Advances-bind _ _ (Advances-lift _) λ v. Advances-modify _

  pub Advances-publish : (e : DomainEvent) → Advances (publish env e)
  unfolding publish
  Advances-publish e = Advances-bind _ _ Advances-call λ t. Advances-modify _

  Advances-begin_or_join : Advances (begin_or_join env)
  unfolding begin_or_join call
  Advances-begin_or_join w = ground arith

  Advances-statements : (l : List Allocation) → Advances (statements env l)
  unfolding statements
  Advances-statements [] = Advances-pure tt
  Advances-statements (a ∷ l) =
      Advances-bind _ _ Advances-call
        λ t. Advances-bind _ _ (Advances-check_columns _) λ t. Advances-statements l

  pub Advances-save_reservation : (r : Reservation) → Advances (save_reservation env r)
  unfolding save_reservation
  Advances-save_reservation r = Advances-bind _ _ Advances-begin_or_join λ t.
      Advances-bind _ _ Advances-call λ t. Advances-bind _ _ (Advances-check_columns _) λ t.
        Advances-bind _ _ (Advances-gets _) λ old. Advances-bind _ _ (Advances-lift _) λ v.
          Advances-bind _ _ (Advances-statements r.allocations)
            λ t. Advances-bind _ _ Advances-begin_or_join λ t. Advances-modify _

  Advances-load_reservations : (l : List Reservation) → Advances (load_reservations env l)
  unfolding load_reservations
  Advances-load_reservations [] = Advances-pure []
  Advances-load_reservations (r ∷ l) =
      Advances-bind _ _ Advances-call
        λ t. Advances-bind _ _ (Advances-load_reservations l) λ l. Advances-pure _

  -- What begins with a call takes a number.
  bind_call-Advances :
      {B : Type 0} (f : Unit {0} → Exec B)
      → ((t : Unit {0}) → Advances (f t))
      → (w : World) → suc w.calls ≤ ((call env >>= f) w).1.calls
  unfolding ◌>>=◌ call
  bind_call-Advances f h w = Advances-continue f (suc w.calls) (call env w) h (omega arith)

  pub find_by_demand_ref-Advances :
      (ref : String) (w : World) → suc w.calls ≤ (find_by_demand_ref env ref w).1.calls
  unfolding find_by_demand_ref
  find_by_demand_ref-Advances ref w =
      bind_call-Advances _
        (λ t. Advances-bind _ _ (Advances-gets _) λ rows. Advances-load_reservations _) w
