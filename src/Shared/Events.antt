-- ===== src/Shared/Events.antt =====
-- internal/domain/shared/events.go and the event of internal/domain/product/classification.go. The
-- constructors carry `occurredAt` first, in nanoseconds; the event's name is its constructor.
use inventory_storage.Prelude.{ℕ, String, Bool, List}
use inventory_storage.Shared.Quantity.{Quantity}

abbrev pub Time : Type 0
Time = ℕ

pub data DomainEvent : Type 0 where
  -- sku, quantity
  stock_received : Time → String → Quantity → DomainEvent
  -- sku, bin, quantity
  item_stowed : Time → String → String → Quantity → DomainEvent
  -- stock unit, bin
  location_recorded : Time → String → String → DomainEvent
  -- reservation, sku, quantity, demand reference
  stock_reserved : Time → String → String → Quantity → String → DomainEvent
  -- reservation
  reservation_expired : Time → String → DomainEvent
  -- reservation
  reservation_revoked : Time → String → DomainEvent
  -- reservation, sku, quantity
  stock_picked : Time → String → String → Quantity → DomainEvent
  -- stock unit, sku, bin, quantity
  item_unlocated : Time → String → String → String → Quantity → DomainEvent
  -- bin, counted, system, discrepancy
  cycle_count_completed : Time → String → Quantity → Quantity → Bool → DomainEvent
  -- bin, counted, system
  discrepancy_detected : Time → String → Quantity → Quantity → DomainEvent
  -- sku, handling tags, temperature class, DOT hazard class
  product_classified : Time → String → List String → String → ℕ → DomainEvent
