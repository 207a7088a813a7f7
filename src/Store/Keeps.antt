-- ===== src/Store/Keeps.antt =====
-- Hoare rules for the methods that run on the store: what keeps every row of the database
-- well-formed, whether it succeeds or fails, and what then holds of the value that it returns.
pub mod Rows
use inventory_storage.Prelude.{
  suc, ◌≡◌, ◌<◌, ◌⊎◌, refl, true, false, inl, inr, Bool, Option, none, some, List, [], ◌∷◌, All,
  Result, ok, err, Error, arith, sym, ap, ltb, ◌&&◌, str_eq, Rearranged, All-Rearranged, All-select,
  Bool-cases, Option-cases, if◌then◌else◌, infrastructure,
}
use mathlib.Core.Path.{subst}
use inventory_storage.Shared.Int.{IsNonneg}
use inventory_storage.Stock.{StockUnit}
use inventory_storage.Stock.Invariant
use inventory_storage.Location.{Bin}
use inventory_storage.Location.Capacity
use inventory_storage.Reservation.{Allocation, Reservation}
use inventory_storage.Store.Table.{find, upsert, All-find, All-upsert}
use inventory_storage.Store.World.{
  Db, Env, World, Exec, gets, modify, pure, fail, lift, ◌>>=◌, ◌>>◌, continue, call, now,
}
use inventory_storage.Store.UnitOfWork.{atomically, atomically-joins, execute, finish}

abbrev pub IsCounted : Allocation → Type 0
IsCounted a = IsNonneg a.quantity

abbrev pub IsDrawable : Reservation → Type 0
IsDrawable r = All IsCounted r.allocations

-- Every unit and every bin is valid, and no allocation is of a negative quantity.
pub record IsWellformed (db : Db) : Type 0 where
  pub units : All Invariant.IsValid db.units
  pub bins : All Capacity.IsValid db.bins
  pub reservations : All IsDrawable db.reservations

-- ORDER BY returns the rows that it is given, in some order.
abbrev pub IsOrdering : Env → Type 0
IsOrdering env = (l : List Allocation) → Rearranged (env.in_order l) l

module _ {A : Type 0} where
  abbrev pub Kept : (A → Type 0) → Result A × World → Type 0
  Kept Q p = IsWellformed p.1.db × ((a : A) → p.0 ≡ ok a → Q a)

  -- The method keeps every row well-formed, and `Q` holds of what it returns.
  pub record Keeps (Q : A → Type 0) (m : Exec A) : Type 0 where
    pub from : (w : World) → IsWellformed w.db → Kept Q (m w)

  pub Keeps-pure : (Q : A → Type 0) (a : A) → Q a → Keeps Q (pure a)
  unfolding pure
  Keeps-pure Q a q = record { from = λ w v. (v, λ b h. let e : a ≡ b = cc in subst Q e q) }

  pub Keeps-lift : (Q : A → Type 0) (r : Result A) → ((a : A) → r ≡ ok a → Q a) → Keeps Q (lift r)
  unfolding lift
  Keeps-lift Q r q = record { from = λ w v. (v, q) }

  pub Keeps-fail : (Q : A → Type 0) (e : Error) → Keeps Q (fail e)
  unfolding fail
  Keeps-fail Q e = record { from = λ w v. (v, λ b h. cc) }

  pub Keeps-if :
      (Q : A → Type 0) (b : Bool) (m k : Exec A)
      → (b ≡ true → Keeps Q m)
      → (b ≡ false → Keeps Q k)
      → Keeps Q (if b then m else k)
  Keeps-if Q true m k hm hk = hm refl
  Keeps-if Q false m k hm hk = hk refl

  finish-Keeps :
      (env : Env) (Q : A → Type 0) (before : Db) (p : Result A × World)
      → IsWellformed before
      → IsWellformed p.1.db
      → ((a : A) → p.0 ≡ ok a → Q a)
      → Kept Q (finish env before p)
  finish-Keeps env Q before (ok a, w) v v' q = elim (Bool-cases (env.fails w.calls)) [
    | inl bad ↦ (rw bad v, λ b h. cc)
    | inr good ↦ (rw good v', λ b h. let e : a ≡ b = ground (arith, good) in subst Q e (q a refl))
  ]
  finish-Keeps env Q before (err e, w) v v' q = (v, λ b h. cc)

  -- A transaction that is rolled back gives the tables back as they were.
  pub Keeps-atomically :
      (env : Env) (Q : A → Type 0) (m : Exec A) → Keeps Q m → Keeps Q (atomically env m)
  unfolding atomically execute call
  Keeps-atomically env Q m h = record {
    from = λ w v.
        let joined : (env.transactional ≡ false) ⊎ (w.in_tx ≡ true) → Kept Q (atomically env m w) =
          λ j. subst (Kept Q) (sym (atomically-joins env m w j)) (h.from w v) in
        elim (Bool-cases env.transactional) [
          | inr unwired ↦ joined (inl unwired)
          | inl wired ↦ elim (Bool-cases w.in_tx) [
            | inl inside ↦ joined (inr inside)
            | inr top ↦ elim (Bool-cases (env.fails w.calls)) [
              | inl bad ↦ rw (wired, top, bad) (v, λ a k. cc)
              | inr good ↦
                  let s : World = record w { in_tx = true; calls = suc w.calls } in
                  let body = h.from s v in
                  rw (wired, top, good) (finish-Keeps env Q w.db (m s) v body.0 body.1)
            ]
          ]
        ];
  }

abbrev pub Anything : Unit {0} → Type 0
Anything _ = Unit

continue-Keeps :
    {A B : Type 0} (Q : A → Type 0) (R : B → Type 0) (f : A → Exec B) (p : Result A × World)
    → IsWellformed p.1.db
    → ((a : A) → p.0 ≡ ok a → Q a)
    → ((a : A) → Q a → Keeps R (f a))
    → Kept R (continue p f)
continue-Keeps Q R f (ok a, w) v q h = (h a (q a refl)).from w v
continue-Keeps Q R f (err e, w) v q h = (v, λ b k. cc)

pub Keeps-bind :
    {A B : Type 0} (Q : A → Type 0) (R : B → Type 0) (m : Exec A) (f : A → Exec B)
    → Keeps Q m
    → ((a : A) → Q a → Keeps R (f a))
    → Keeps R (m >>= f)
unfolding ◌>>=◌
Keeps-bind Q R m f h k = record {
  from = λ w v. continue-Keeps Q R f (m w) (h.from w v).0 (h.from w v).1 k;
}

-- Methods that read, or that fail or succeed by a call alone.
pub Keeps-call : (env : Env) → Keeps Anything (call env)
unfolding call
Keeps-call env = record { from = λ w v. (v, λ a h. tt) }

pub Keeps-now : (env : Env) → Keeps (λ t. Unit {0}) (now env)
unfolding now
Keeps-now env = record { from = λ w v. (v, λ a h. tt) }

module _ {A : Type 0} (Q : A → Type 0) where
  pub Keeps-gets : (f : World → A) → ((w : World) → IsWellformed w.db → Q (f w)) → Keeps Q (gets f)
  unfolding gets
  Keeps-gets f q = record { from = λ w v. (v, λ a h. let e : f w ≡ a = cc in subst Q e (q w v)) }

pub Keeps-modify :
    (f : Db → Db) → ((db : Db) → IsWellformed db → IsWellformed (f db)) → Keeps Anything (modify f)
unfolding modify
Keeps-modify f q = record { from = λ w v. (q w.db v, λ a h. tt) }
