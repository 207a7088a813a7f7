-- ===== src/Tests/Data.antt =====
-- A small warehouse: one bin with stock of which a part is reserved, and a bin with a corrosive.
use mathlib.Core.List
use inventory_storage.Prelude.{ℕ, false, true, none, [], ◌∷◌, ◌==◌, refl, arith}
use inventory_storage.Stock.{StockUnit}
use inventory_storage.Stock.Stage.{State}
use inventory_storage.Stock.Invariant
use inventory_storage.Location.{Bin}
use inventory_storage.Location.Capacity
use inventory_storage.Reservation.{Allocation, Reservation, active}
use inventory_storage.Product.Classification.{ProductClassification, hazmat}
use inventory_storage.Store.World.{Db, Env, World, Exec}
use inventory_storage.Store.Keeps.{IsWellformed, IsOrdering}

-- The clock shows 100, the rows come in the order of insertion, and the call of one number fails.
abbrev pub env_failing_at : ℕ → Env
env_failing_at k = record {
  fails = λ n. n == k;
  uuid = λ n. "1";
  clock = λ n. 100;
  slot = λ n bin. none;
  in_order = λ l. l;
  transactional = true;
  classifying = true;
  locating = false;
  timeout = 900;
}

abbrev pub env : Env
env = env_failing_at 1000

abbrev pub bolts : StockUnit
bolts = record {
  id = "su-bolts";
  sku = "BOLT";
  bin_id = "A-1";
  quantity = 10;
  reserved = 4;
  state = State.reserved;
  version = 1;
}

abbrev pub acid : StockUnit
acid = record {
  id = "su-acid";
  sku = "ACID";
  bin_id = "A-2";
  quantity = 5;
  reserved = 0;
  state = State.available;
  version = 1;
}

abbrev pub shelf : Bin
shelf = record { id = "A-1"; capacity = 20; occupied = 10; version = 1 }

abbrev pub claim : Allocation
claim = record { stock_unit_id = "su-bolts"; bin_id = "A-1"; quantity = 4 }

abbrev pub order : Reservation
order = record {
  id = "res-1";
  sku = "BOLT";
  quantity = 4;
  demand_ref = "order-1";
  allocations = claim ∷ [];
  status = active;
  created_at = 50;
  expires_at = 950;
  version = 1;
}

abbrev pub corrosive : ProductClassification
corrosive = record {
  sku = "ACID";
  handling_tags = hazmat ∷ [];
  temperature_class = "";
  dot_hazard_class = 8;
}

abbrev pub warehouse : Db
warehouse = record {
  units = bolts ∷ acid ∷ [];
  bins = shelf ∷ [];
  reservations = order ∷ [];
  classifications = corrosive ∷ [];
  events = [];
}

abbrev pub start : World
start = record { db = warehouse; in_tx = false; calls = 0 }

pub bolts-IsValid : Invariant.IsValid bolts
bolts-IsValid = record {
  in_range = omega arith;
  within = omega arith;
  removed_empty = λ h. cc;
  available_free = λ h. cc;
}

pub acid-IsValid : Invariant.IsValid acid
acid-IsValid = record {
  in_range = omega arith;
  within = omega arith;
  removed_empty = λ h. cc;
  available_free = λ h. refl;
}

pub shelf-IsValid : Capacity.IsValid shelf
shelf-IsValid = record { in_range = omega arith; fits = omega arith; nonempty = omega arith }

pub warehouse-IsWellformed : IsWellformed warehouse
warehouse-IsWellformed = record {
  units = (bolts-IsValid, (acid-IsValid, tt));
  bins = (shelf-IsValid, tt);
  reservations = ((omega arith, tt), tt);
}

pub env-IsOrdering : (k : ℕ) → IsOrdering (env_failing_at k)
env-IsOrdering k l = List.Permᴰ.refl l

-- The world that a method leads to.
abbrev pub after : {A : Type 0} → Exec A → World → World
after m w = (m w).1
