-- ===== src/Stock/Stage.antt =====
-- internal/domain/stock/state.go: the lifecycle stage of a stock unit.
use inventory_storage.Prelude.{Bool, true, false}

pub data State : Type 0 where
  available reserved picked removed unlocated : State

-- `u.state == StateUnlocated || u.state == StateRemoved`
unfoldable pub is_unlocated_or_removed : State → Bool
is_unlocated_or_removed unlocated = true
is_unlocated_or_removed removed = true
is_unlocated_or_removed _ = false

-- `u.state == StateReserved`
unfoldable pub is_reserved : State → Bool
is_reserved reserved = true
is_reserved _ = false
