-- ===== src/Mcp/Tools.antt =====
-- internal/adapters/inbound/mcp/tools.go and mapping.go. A tool runs on the world of the use cases;
-- its span is left out, and its input comes decoded.
use inventory_storage.Prelude.{
  ℕ, ◌+◌, String, Bool, true, List, [], ◌∷◌, ◌++◌, Error, Result, ok, err, str_eq, if◌then◌else◌,
}
use inventory_storage.Shared.{new_sku, new_bin_id}
use inventory_storage.Shared.Int
use inventory_storage.Shared.Int.{Int64}
use inventory_storage.Stock.{StockUnit, usable}
use inventory_storage.Stock.Stage.{State}
use inventory_storage.Store.World.{Env, World, Exec}
use inventory_storage.Store.Repos.{find_units_by_bin}
use inventory_storage.UseCases.Queries.{get_usable}
use inventory_storage.UseCases.Revoke

-- The error of a tool: the text of `revokeReservation`, or an error of the domain.
pub data ToolError : Type 0 where
  reservation_id_required : ToolError
  domain_error : Error → ToolError

pub data ToolResult (A : Type 0) : Type 0 where
  answered : A → ToolResult A
  tool_error : ToolError → ToolResult A

abbrev pub Tool : Type 0 → Type 0
Tool A = World → ToolResult A × World

module _ {A B : Type 0} where
  unfoldable answer : (A → B) → Result A × World → ToolResult B × World
  answer f (ok a, w) = (answered (f a), w)
  answer f (err e, w) = (tool_error (domain_error e), w)

  -- `out, err := useCase.Execute(ctx, …)`, and the output that is made of it.
  unfoldable pub execute : Exec A → (A → B) → Tool B
  unfolding answer
  execute m f w = answer f (m w)

  -- An input that a constructor of the domain refuses ends the call.
  unfoldable pub checked : Result A → (A → Tool B) → Tool B
  checked (ok a) next w = next a w
  checked (err e) next w = (tool_error (domain_error e), w)

pub record CheckAvailabilityOutput : Type 0 where
  pub sku : String
  pub usable : Int64

pub record BinOccupancyLine : Type 0 where
  pub stock_unit_id : String
  pub sku : String
  pub on_hand : Int64
  pub reserved : Int64
  pub usable : Int64
  pub state : State

pub record BinOccupancy : Type 0 where
  pub bin_id : String
  pub unit_count : ℕ
  pub on_hand : Int64
  pub reserved : Int64
  pub usable : Int64
  pub lines : List BinOccupancyLine

pub record RevokeReservationOutput : Type 0 where
  pub reservation_id : String
  pub revoked : Bool

unfoldable pub line_of : StockUnit → BinOccupancyLine
line_of u = record {
  stock_unit_id = u.id;
  sku = u.sku;
  on_hand = u.quantity;
  reserved = u.reserved;
  usable = usable u;
  state = u.state;
}

-- The body of the loop of `toBinOccupancy`.
unfoldable pub add_unit : BinOccupancy → StockUnit → BinOccupancy
unfolding line_of
add_unit occ u = record occ {
  on_hand = Int.add occ.on_hand u.quantity;
  reserved = Int.add occ.reserved u.reserved;
  usable = Int.add occ.usable (usable u);
  lines = occ.lines ++ line_of u ∷ [];
}

unfoldable pub add_units : BinOccupancy → List StockUnit → BinOccupancy
unfolding add_unit
add_units occ [] = occ
add_units occ (u ∷ units) = add_units (add_unit occ u) units

unfoldable pub count : List StockUnit → ℕ
count [] = 0
count (u ∷ units) = 1 + count units

unfoldable pub to_bin_occupancy : String → List StockUnit → BinOccupancy
unfolding add_units count
to_bin_occupancy bin_id units =
    add_units
      (record {
        bin_id = bin_id;
        unit_count = count units;
        on_hand = 0;
        reserved = 0;
        usable = 0;
        lines = [];
      })
      units

module _ (env : Env) where
  unfoldable pub check_availability : String → Tool CheckAvailabilityOutput
  unfolding execute checked
  check_availability input =
      checked (new_sku input)
        λ sku. execute (get_usable env sku) λ u. record { sku = u.sku; usable = u.usable }

  unfoldable pub get_bin_occupancy : String → Tool BinOccupancy
  unfolding execute checked to_bin_occupancy
  get_bin_occupancy input =
      checked (new_bin_id input)
        λ bin_id. execute (find_units_by_bin env bin_id) λ units. to_bin_occupancy bin_id units

  unfoldable pub revoke_reservation : String → Tool RevokeReservationOutput
  unfolding execute
  revoke_reservation id w =
      if str_eq id ""
      then (tool_error reservation_id_required, w)
      else execute (Revoke.execute env id) (λ done. record { reservation_id = id; revoked = true })
          w
