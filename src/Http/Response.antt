-- ===== src/Http/Response.antt =====
-- internal/adapters/inbound/http: the DTOs of dto.go, and the writers of server.go. A body stands
-- for the JSON that is written of it, and the text of `detail` and `instance` is left out.
use Prim.Native.String.{◌++◌ as append}
use inventory_storage.Prelude.{
  ℕ, String, Bool, Option, none, some, List, [], ◌∷◌, map, Error, ◌==◌, if◌then◌else◌,
}
use inventory_storage.Shared.Events.{Time}
use inventory_storage.Shared.Int.{Int64}
use inventory_storage.Stock.{StockUnit}
use inventory_storage.Stock.Stage.{State}
use inventory_storage.Location.{Bin, available}
use inventory_storage.Reservation.{Allocation, Reservation, Status}
use inventory_storage.Product.Classification.{ProductClassification, handling_tags, unspecified}
use inventory_storage.Http.Errors.{ProblemInfo, status_for, problem_for}

pub record StagedReceiptResponse : Type 0 where
  pub sku : String
  pub quantity : Int64
  pub received_at : Time

pub record StockUnitResponse : Type 0 where
  pub id : String
  pub sku : String
  pub bin_id : String
  pub quantity : Int64
  pub reserved : Int64
  pub state : State

pub record AllocationResponse : Type 0 where
  pub stock_unit_id : String
  pub bin_id : String
  pub quantity : Int64

pub record ReservationResponse : Type 0 where
  pub id : String
  pub sku : String
  pub quantity : Int64
  pub demand_ref : String
  pub status : Status
  pub allocations : List AllocationResponse
  pub created_at : Time
  pub expires_at : Time

pub record UsableInventoryResponse : Type 0 where
  pub sku : String
  pub usable : Int64

pub record CycleCountResponse : Type 0 where
  pub bin_id : String
  pub counted_quantity : Int64
  pub system_quantity : Int64
  pub discrepancy : Bool

pub record BinResponse : Type 0 where
  pub bin_id : String
  pub capacity : Int64
  pub occupied : Int64
  pub available : Int64

pub record ProductClassificationResponse : Type 0 where
  pub sku : String
  pub handling_tags : List String
  pub temperature_class : String
  pub dot_hazard_class : Option Int64

-- `problemDetails`
pub record ProblemDetails : Type 0 where
  pub problem_type : String
  pub title : String
  pub status : ℕ

pub data Body : Type 0 where
  no_body : Body
  -- `{"status": …}` of the probes
  probe_status : String → Body
  problem : ProblemDetails → Body
  staged_receipt : StagedReceiptResponse → Body
  stock_unit : StockUnitResponse → Body
  reservation : ReservationResponse → Body
  reservations : List ReservationResponse → Body
  usable_inventory : UsableInventoryResponse → Body
  cycle_count : CycleCountResponse → Body
  bin : BinResponse → Body
  product_classification : ProductClassificationResponse → Body

abbrev pub Headers : Type 0
Headers = List (String × String)

pub record Response : Type 0 where
  pub status : ℕ
  pub headers : Headers
  pub body : Body

abbrev pub problem_base_uri : String
problem_base_uri = "https://errors.inventory-storage.warehouse-systems.dev/"

-- `writeJSON`, after the headers that the handler has set.
unfoldable pub write_json : Headers → ℕ → Body → Response
write_json set status body = record {
  status = status;
  headers = ("Content-Type", "application/json") ∷ set;
  body = body;
}

-- `writeProblem`
unfoldable pub write_problem : ℕ → ProblemInfo → Response
write_problem status info = record {
  status = status;
  headers = ("Content-Type", "application/problem+json") ∷ [];
  body = problem (record {
    problem_type = append problem_base_uri info.slug;
    title = info.title;
    status = status;
  });
}

-- `writeError`
unfoldable pub write_error : Error → Response
unfolding write_problem
write_error e = write_problem (status_for e) (problem_for e)

-- `w.WriteHeader(http.StatusNoContent)`
abbrev pub no_content : Response
no_content = record { status = 204; headers = []; body = no_body }

unfoldable pub to_stock_unit_response : StockUnit → StockUnitResponse
to_stock_unit_response u = record {
  id = u.id;
  sku = u.sku;
  bin_id = u.bin_id;
  quantity = u.quantity;
  reserved = u.reserved;
  state = u.state;
}

abbrev to_allocation_response : Allocation → AllocationResponse
to_allocation_response a = record {
  stock_unit_id = a.stock_unit_id;
  bin_id = a.bin_id;
  quantity = a.quantity;
}

unfoldable pub to_reservation_response : Reservation → ReservationResponse
to_reservation_response r = record {
  id = r.id;
  sku = r.sku;
  quantity = r.quantity;
  demand_ref = r.demand_ref;
  status = r.status;
  allocations = map to_allocation_response r.allocations;
  created_at = r.created_at;
  expires_at = r.expires_at;
}

unfoldable pub to_bin_response : Bin → BinResponse
to_bin_response b = record {
  bin_id = b.id;
  capacity = b.capacity;
  occupied = b.occupied;
  available = available b;
}

unfoldable pub to_product_classification_response :
    ProductClassification → ProductClassificationResponse
unfolding handling_tags
to_product_classification_response c = record {
  sku = c.sku;
  handling_tags = handling_tags c;
  temperature_class = c.temperature_class;
  dot_hazard_class = if c.dot_hazard_class == unspecified then none else some c.dot_hazard_class;
}
