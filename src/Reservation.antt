-- ===== src/Reservation.antt =====
-- internal/domain/reservation/reservation.go: a revocable claim against usable stock. Times are
-- nanoseconds since the epoch.
pub mod Lifecycle
use inventory_storage.Prelude.{
  ℕ, ◌+◌, String, Bool, true, false, Result, ok, err, no_allocations, already_resolved,
  reservation_expired, List, is_empty, ltb, if◌then◌else◌,
}
use inventory_storage.Shared.Quantity.{Quantity}
use inventory_storage.Shared.Events.{Time}

pub data Status : Type 0 where
  active confirmed revoked expired : Status

-- How much of a reservation was drawn from which stock unit, in which bin.
pub record Allocation : Type 0 where
  pub stock_unit_id : String
  pub bin_id : String
  pub quantity : Quantity

pub record Reservation : Type 0 where
  pub id : String
  pub sku : String
  pub quantity : Quantity
  pub demand_ref : String
  pub allocations : List Allocation
  pub status : Status
  pub created_at : Time
  pub expires_at : Time
  pub version : ℕ

-- `r.status == StatusActive`
unfoldable pub is_active : Status → Bool
is_active active = true
is_active _ = false

-- `New`
unfoldable pub new :
    String → String → Quantity → String → List Allocation → Time → Time → Result Reservation
new id sku quantity demand_ref allocations created_at timeout =
    if is_empty allocations
    then err no_allocations
    else ok (record {
      id = id;
      sku = sku;
      quantity = quantity;
      demand_ref = demand_ref;
      allocations = allocations;
      status = active;
      created_at = created_at;
      expires_at = created_at + timeout;
      version = 1;
    })

-- `now.After(r.expiresAt)`
unfoldable pub is_expired : Reservation → Time → Bool
is_expired r now = ltb r.expires_at now

unfoldable pub revoke : Reservation → Result Reservation
unfolding is_active
revoke r = if is_active r.status then ok (record r { status = revoked }) else err already_resolved

unfoldable pub confirm : Reservation → Time → Result Reservation
unfolding is_active is_expired
confirm r now =
    if is_active r.status
    then if is_expired r now then err reservation_expired else ok (record r { status = confirmed })
    else err already_resolved

unfoldable pub expire : Reservation → Result Reservation
unfolding is_active
expire r = if is_active r.status then ok (record r { status = expired }) else err already_resolved
