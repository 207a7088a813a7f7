-- ===== src/Store/World.antt =====
-- What a use case sees. `Env` is the world outside: the database server's failures, the UUIDs of
-- github.com/google/uuid, the clock, and the location-classification lookup of facility-layout. Each
-- call that leaves the process has a number, by which the environment answers it.
use inventory_storage.Prelude.{
  ℕ, suc, String, Bool, Option, List, Result, ok, err, infrastructure, Error, if◌then◌else◌,
}
use inventory_storage.Shared.Events.{Time, DomainEvent}
use inventory_storage.Stock.{StockUnit}
use inventory_storage.Location.{Bin}
use inventory_storage.Reservation.{Allocation, Reservation}
use inventory_storage.Product.Classification.{ProductClassification, SlotAttributes}

-- The tables, and the events that were published.
pub record Db : Type 0 where
  pub units : List StockUnit
  pub bins : List Bin
  pub reservations : List Reservation
  pub classifications : List ProductClassification
  pub events : List DomainEvent

pub record Env : Type 0 where
  -- The n-th call fails: a statement, a BEGIN or a COMMIT that the server refuses.
  pub fails : ℕ → Bool
  pub uuid : ℕ → String
  pub clock : ℕ → Time
  -- `none` is an unavailable lookup.
  pub slot : ℕ → String → Option SlotAttributes
  -- ORDER BY stock_unit_id, in the collation of the database.
  pub in_order : List Allocation → List Allocation
  -- A `UnitOfWork` is wired.
  pub transactional : Bool
  -- A classification repository is wired into StowStock, and a location lookup.
  pub classifying : Bool
  pub locating : Bool
  -- `ReserveStock.Timeout`, or the default where that is not positive.
  pub timeout : Time

-- The database as this caller sees it, whether its context carries a transaction, and the number of
-- the next call.
pub record World : Type 0 where
  pub db : Db
  pub in_tx : Bool
  pub calls : ℕ

-- A method with a context that may return an error.
abbrev pub Exec : Type 0 → Type 0
Exec A = World → Result A × World

module _ {A : Type 0} where
  unfoldable pub pure : A → Exec A
  pure a w = (ok a, w)

  unfoldable pub fail : Error → Exec A
  fail e w = (err e, w)

  unfoldable pub lift : Result A → Exec A
  lift r w = (r, w)

  unfoldable pub gets : (World → A) → Exec A
  gets f w = (ok (f w), w)

abbrev pub continue : {A B : Type 0} → Result A × World → (A → Exec B) → Result B × World
continue (ok a, w) f = f a w
continue (err e, w) f = (err e, w)

infixl 5 ◌>>=◌ ◌>>◌
unfoldable pub ◌>>=◌ : {A B : Type 0} → Exec A → (A → Exec B) → Exec B
◌>>=◌ m f w = continue (m w) f

abbrev pub ◌>>◌ : {A B : Type 0} → Exec A → Exec B → Exec B
m >> k = m >>= λ _. k

unfoldable pub modify : (Db → Db) → Exec (Unit {0})
modify f w = (ok tt, record w { db = f w.db })

abbrev pub tick : World → World
tick w = record w { calls = suc w.calls }

-- A call that the server answers, or refuses.
unfoldable pub call : Env → Exec (Unit {0})
call env w = (if env.fails w.calls then err infrastructure else ok tt, tick w)

-- `clock.Now()`
unfoldable pub now : Env → Exec Time
now env w = (ok (env.clock w.calls), tick w)

-- `uuid.NewString()`
unfoldable pub new_uuid : Env → Exec String
new_uuid env w = (ok (env.uuid w.calls), tick w)
