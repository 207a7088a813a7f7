-- ===== src/Http/Handlers.antt =====
-- internal/adapters/inbound/http/server.go and readiness.go: the handlers, and the routes to them.
-- What `json.Decoder` makes of a request's body comes with the request: `none` where it fails.
use inventory_storage.Prelude.{
  String, Bool, true, false, Option, none, some, List, [], ◌∷◌, map, Result, ok, err,
  product_classification_not_found, and_then, str_eq, if◌then◌else◌,
}
use Prim.Native.String.{◌++◌ as append}
use inventory_storage.Shared.{new_sku, new_bin_id}
use inventory_storage.Shared.Int.{Int64, less}
use inventory_storage.Shared.Quantity
use inventory_storage.Location.{Bin}
use inventory_storage.Product.Classification.{
  HandlingTag, TemperatureClass, DotHazardClass, ProductClassification, parse_handling_tag,
  parse_temperature_class, parse_dot_hazard_class, unspecified,
}
use inventory_storage.Store.World.{Env, World, Exec}
use inventory_storage.Store.Repos.{find_classification}
use inventory_storage.UseCases.Reserve
use inventory_storage.UseCases.Revoke
use inventory_storage.UseCases.ConfirmPick
use inventory_storage.UseCases.Stow
use inventory_storage.UseCases.CycleCount
use inventory_storage.UseCases.RegisterBin
use inventory_storage.UseCases.RegisterBin.{Outcome, bin_created, bin_unchanged, bin_resized}
use inventory_storage.UseCases.Classify.{classify, receive}
use inventory_storage.UseCases.Queries.{get_bin, get_usable, get_reservations_by_demand_ref}
use inventory_storage.Http.Errors.{ProblemInfo, bad_request, unprocessable_entity}
use inventory_storage.Http.Response

pub record ReceiveStockRequest : Type 0 where
  pub sku : String
  pub quantity : Int64

pub record StowStockRequest : Type 0 where
  pub sku : String
  pub quantity : Int64
  pub bin_id : String

pub record ReserveStockRequest : Type 0 where
  pub sku : String
  pub quantity : Int64
  pub demand_ref : String

-- A pointer field is `none` where the JSON leaves it out.
pub record CycleCountRequest : Type 0 where
  pub counted_quantity : Option Int64

pub record RegisterBinRequest : Type 0 where
  pub capacity : Option Int64

pub record ClassifyProductRequest : Type 0 where
  pub handling_tags : List String
  pub temperature_class : String
  pub dot_hazard_class : Option Int64

-- What a handler writes, and the world that it leaves.
abbrev pub Handler : Type 0
Handler = World → Response.Response × World

abbrev info : String → String → ProblemInfo
info slug title = record { slug = slug; title = title }

module _ {A : Type 0} where
  abbrev pub written : (A → Response.Response) → Result A × World → Response.Response × World
  written f (ok a, w) = (f a, w)
  written f (err e, w) = (Response.write_error e, w)

  -- The answer to a use case's result.
  unfoldable pub respond : Exec A → (A → Response.Response) → Handler
  respond m f w = written f (m w)

  -- `if err != nil { writeError(w, r, err); return }`
  unfoldable pub checked : Result A → (A → Handler) → Handler
  checked (ok a) k w = k a w
  checked (err e) k w = (Response.write_error e, w)

  -- `decodeJSON`
  unfoldable pub decode_json : Option A → (A → Handler) → Handler
  decode_json (some a) k w = k a w
  decode_json none k w = (
    Response.write_problem bad_request
        (info "malformed-request-body" "The request body is not valid JSON"),
    w,
  )

  unfoldable pub required : ProblemInfo → Option A → (A → Handler) → Handler
  required p (some a) k w = k a w
  required p none k w = (Response.write_problem bad_request p, w)

-- `demandRef` that is empty is missing.
unfoldable pub present : String → Option String
present s = if str_eq s "" then none else some s

abbrev missing_demand_ref : ProblemInfo
missing_demand_ref = info "missing-demand-ref" "demandRef is required"

-- math.MaxInt32
abbrev pub max_bin_capacity : Int64
max_bin_capacity = 2147483647

-- The loop of `handleClassifyProduct`: the first tag that does not parse is the answer.
unfoldable pub parse_tags : List String → Result (List HandlingTag)
unfolding parse_handling_tag
parse_tags [] = ok []
parse_tags (raw ∷ rest) =
    let later = parse_tags rest in
    and_then (parse_handling_tag raw) λ tag. and_then later λ tags. ok (tag ∷ tags)

unfoldable pub parse_optional_temperature : String → Result TemperatureClass
unfolding parse_temperature_class
parse_optional_temperature raw = if str_eq raw "" then ok "" else parse_temperature_class raw

unfoldable pub parse_optional_hazard : Option Int64 → Result DotHazardClass
unfolding parse_dot_hazard_class
parse_optional_hazard none = ok unspecified
parse_optional_hazard (some n) = parse_dot_hazard_class n

abbrev pub is_created : Outcome → Bool
is_created bin_created = true
is_created bin_unchanged = false
is_created bin_resized = false

abbrev pub is_known : {A : Type 0} → Option A → Bool
is_known none = false
is_known (some a) = true

unfoldable pub registered : Bin × Outcome → Response.Response
unfolding Response.to_bin_response Response.write_json
registered (bin, outcome) =
    if is_created outcome
    then Response.write_json (("Location", append "/bins/" bin.id) ∷ []) 201
        (Response.bin (Response.to_bin_response bin))
    else Response.write_json [] 200 (Response.bin (Response.to_bin_response bin))

unfoldable pub classified : Bool → ProductClassification → Response.Response
unfolding Response.to_product_classification_response Response.write_json
classified known c =
    Response.write_json [] (if known then 200 else 201)
      (Response.product_classification (Response.to_product_classification_response c))

-- `handleReadyz`, with the gate: `none` is a nil `Readiness`, `some true` is not ready.
unfoldable pub handle_readyz : Option Bool → Response.Response
unfolding Response.write_json
handle_readyz (some true) = Response.write_json [] 503 (Response.probe_status "not_ready")
handle_readyz (some false) = Response.write_json [] 200 (Response.probe_status "ready")
handle_readyz none = Response.write_json [] 200 (Response.probe_status "ready")

unfoldable pub handle_healthz : Response.Response
unfolding Response.write_json
handle_healthz = Response.write_json [] 200 (Response.probe_status "ok")

module _ (env : Env) where
  unfoldable pub handle_receive_stock : Option ReceiveStockRequest → Handler
  handle_receive_stock body = decode_json body λ req. checked (new_sku req.sku) λ sku.
      checked (Quantity.new_positive req.quantity) λ qty. respond (receive env sku qty) λ receipt.
        Response.write_json [] 202 (
          Response.staged_receipt (record {
            sku = receipt.sku;
            quantity = receipt.quantity;
            received_at = receipt.received_at;
          }))

  unfoldable pub handle_stow_stock : Option StowStockRequest → Handler
  handle_stow_stock body = decode_json body λ req. checked (new_sku req.sku) λ sku.
      checked (Quantity.new_positive req.quantity) λ qty. checked (new_bin_id req.bin_id) λ bin_id.
        respond (Stow.execute env sku qty bin_id) λ unit.
          Response.write_json (("Location", append "/stock/" unit.id) ∷ []) 201
            (Response.stock_unit (Response.to_stock_unit_response unit))

  unfoldable pub handle_reserve_stock : Option ReserveStockRequest → Handler
  handle_reserve_stock body = decode_json body λ req. checked (new_sku req.sku) λ sku.
      checked (Quantity.new_positive req.quantity) λ qty.
        required missing_demand_ref (present req.demand_ref) λ demand_ref.
          respond (Reserve.execute env sku qty demand_ref) λ res.
            Response.write_json (("Location", append "/reservations/" res.id) ∷ []) 201
              (Response.reservation (Response.to_reservation_response res))

  unfoldable pub handle_revoke_reservation : String → Handler
  handle_revoke_reservation id = respond (Revoke.execute env id) λ done. Response.no_content

  unfoldable pub handle_get_reservations_by_demand_ref : String → Handler
  handle_get_reservations_by_demand_ref query =
      required (info "missing-demand-ref" "demandRef query parameter is required") (present query)
        λ demand_ref. respond (get_reservations_by_demand_ref env demand_ref) λ found.
          Response.write_json [] 200
            (Response.reservations (map Response.to_reservation_response found))

  unfoldable pub handle_confirm_pick : String → Handler
  handle_confirm_pick id = respond (ConfirmPick.execute env id) λ done. Response.no_content

  unfoldable pub handle_get_usable : String → Handler
  handle_get_usable param = checked (new_sku param) λ sku. respond (get_usable env sku) λ u.
      Response.write_json [] 200
        (Response.usable_inventory (record { sku = u.sku; usable = u.usable }))

  unfoldable pub handle_run_cycle_count : String → Option CycleCountRequest → Handler
  handle_run_cycle_count param body = checked (new_bin_id param) λ bin_id. decode_json body λ req.
      required (info "counted-quantity-required" "countedQuantity is required") req.counted_quantity
        λ raw. checked (Quantity.new raw) λ counted.
          respond (CycleCount.execute env bin_id counted) λ result. Response.write_json [] 200 (
            Response.cycle_count (record {
              bin_id = result.bin_id;
              counted_quantity = result.counted_qty;
              system_quantity = result.system_qty;
              discrepancy = result.discrepancy;
            }))

  -- The capacity of a request to `handleRegisterBin`, tested against the range of the wire.
  unfoldable pub register_in_range : String → Int64 → Handler
  register_in_range bin_id raw =
      if less max_bin_capacity raw
      then (λ w. (
        Response.write_problem unprocessable_entity
            (info "capacity-out-of-range" "Bin capacity is out of range"),
        w,
      ))
      else checked (Quantity.new raw)
          λ capacity. respond (RegisterBin.execute env bin_id capacity) registered

  unfoldable pub handle_register_bin : String → Option RegisterBinRequest → Handler
  handle_register_bin param body = checked (new_bin_id param) λ bin_id. decode_json body λ req.
      required (info "capacity-required" "capacity is required") req.capacity
        λ raw. register_in_range bin_id raw

  unfoldable pub handle_get_bin : String → Handler
  handle_get_bin param = checked (new_bin_id param) λ bin_id.
      respond (get_bin env bin_id)
        λ bin. Response.write_json [] 200 (Response.bin (Response.to_bin_response bin))

  -- What `handleClassifyProduct` does with what it has parsed.
  unfoldable pub classify_parsed :
      String → List HandlingTag → TemperatureClass → DotHazardClass → Handler
  classify_parsed sku tags tc dot w =
      let (found, w') = find_classification env sku w in
      checked found
        (λ existing. respond (classify env sku tags tc dot) (classified (is_known existing))) w'

  unfoldable pub handle_classify_product : String → Option ClassifyProductRequest → Handler
  handle_classify_product param body = checked (new_sku param) λ sku. decode_json body λ req.
      checked (parse_tags req.handling_tags) λ tags.
        checked (parse_optional_temperature req.temperature_class) λ tc.
          checked (parse_optional_hazard req.dot_hazard_class)
            λ dot. classify_parsed sku tags tc dot

  unfoldable pub found_classification : Option ProductClassification → Response.Response
  unfolding Response.write_error Response.write_json
  found_classification none = Response.write_error product_classification_not_found
  found_classification (some c) =
      Response.write_json [] 200
        (Response.product_classification (Response.to_product_classification_response c))

  unfoldable pub handle_get_product_classification : String → Handler
  handle_get_product_classification param =
      checked (new_sku param) λ sku. respond (find_classification env sku) found_classification
