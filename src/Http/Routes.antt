-- ===== src/Http/Routes.antt =====
-- internal/adapters/inbound/http/server.go: the table of routes of `NewRouter`, less the
-- middleware.
pub mod Wellformed
use inventory_storage.Prelude.{
  ◌≡◌, ◌<◌, refl, String, Bool, true, false, inl, inr, Option, none, some, List, [], ◌∷◌, All,
  Result, ok, err, arith, Bool-cases, leb, ltb,
}
use inventory_storage.Shared.{new_sku, new_bin_id}
use inventory_storage.Shared.Int
use inventory_storage.Shared.Int.{Int64, IsNonneg, modulus, less, less_eq}
use inventory_storage.Shared.Quantity
use inventory_storage.Location.{Bin}
use inventory_storage.Product.Classification.{
  HandlingTag, TemperatureClass, DotHazardClass, ProductClassification,
}
use inventory_storage.Store.World.{Env, World, Exec}
use inventory_storage.Store.Repos.{find_bin, find_classification}
use inventory_storage.Store.Keeps.{
  Keeps, IsWellformed, IsOrdering, Anything, Keeps-pure, Keeps-fail, Keeps-if, Keeps-bind,
}
use inventory_storage.Store.Keeps.Rows.{
  IfFound, Keeps-find_bin, Keeps-find_classification, Keeps-find_units_by_sku,
}
use inventory_storage.UseCases.Queries.{get_bin, get_usable, found_bin}
use inventory_storage.UseCases.Wellformed.Reservations.{
  Keeps-revoke, Keeps-confirm, Keeps-reserve, Keeps-reservations_of,
}
use inventory_storage.UseCases.Wellformed.Shelves.{
  Keeps-stow, Keeps-count, Keeps-register, Keeps-classify, Keeps-receive,
}
use inventory_storage.Http.Response.{Response}
use inventory_storage.Http.Handlers.{
  Handler, ReceiveStockRequest, StowStockRequest, ReserveStockRequest, CycleCountRequest,
  RegisterBinRequest, ClassifyProductRequest, respond, checked, decode_json, required, present,
  parse_tags, parse_optional_temperature, parse_optional_hazard, registered, classified, is_known,
  register_in_range, classify_parsed, found_classification, handle_healthz, handle_readyz,
  handle_receive_stock, handle_stow_stock, handle_reserve_stock, handle_revoke_reservation,
  handle_get_reservations_by_demand_ref, handle_confirm_pick, handle_get_usable,
  handle_run_cycle_count, handle_register_bin, handle_get_bin, handle_classify_product,
  handle_get_product_classification,
}

-- A request that a route matches, with its URL parameters and its decoded body.
pub data Call : Type 0 where
  get_healthz : Call
  get_readyz : Option Bool → Call
  post_stock_receive : Option ReceiveStockRequest → Call
  post_stock_stow : Option StowStockRequest → Call
  post_reservations : Option ReserveStockRequest → Call
  get_reservations : String → Call
  delete_reservation : String → Call
  post_confirm_pick : String → Call
  get_inventory_usable : String → Call
  put_bin : String → Option RegisterBinRequest → Call
  get_one_bin : String → Call
  post_cycle_count : String → Option CycleCountRequest → Call
  put_classification : String → Option ClassifyProductRequest → Call
  get_classification : String → Call

-- A decoded number is one that a Go `int` holds.
abbrev pub IsInt : Int64 → Type 0
IsInt n = n < modulus

abbrev pub IsIntIfAny : Option Int64 → Type 0
IsIntIfAny none = Unit
IsIntIfAny (some n) = IsInt n

module _ {A : Type 0} where
  abbrev pub IfDecoded : (A → Type 0) → Option A → Type 0
  IfDecoded P none = Unit
  IfDecoded P (some a) = P a

unfoldable pub HoldsInts : Call → Type 0
HoldsInts (post_stock_receive b) = IfDecoded (λ r. IsInt r.quantity) b
HoldsInts (post_stock_stow b) = IfDecoded (λ r. IsInt r.quantity) b
HoldsInts (post_reservations b) = IfDecoded (λ r. IsInt r.quantity) b
HoldsInts (put_bin id b) = IfDecoded (λ r. IsIntIfAny r.capacity) b
HoldsInts (post_cycle_count id b) = IfDecoded (λ r. IsIntIfAny r.counted_quantity) b
HoldsInts _ = Unit

module _ (env : Env) where
  unfoldable pub route : Call → Handler
  route get_healthz w = (handle_healthz, w)
  route (get_readyz gate) w = (handle_readyz gate, w)
  route (post_stock_receive body) w = handle_receive_stock env body w
  route (post_stock_stow body) w = handle_stow_stock env body w
  route (post_reservations body) w = handle_reserve_stock env body w
  route (get_reservations query) w = handle_get_reservations_by_demand_ref env query w
  route (delete_reservation id) w = handle_revoke_reservation env id w
  route (post_confirm_pick id) w = handle_confirm_pick env id w
  route (get_inventory_usable sku) w = handle_get_usable env sku w
  route (put_bin id body) w = handle_register_bin env id body w
  route (get_one_bin id) w = handle_get_bin env id w
  route (post_cycle_count id body) w = handle_run_cycle_count env id body w
  route (put_classification sku body) w = handle_classify_product env sku body w
  route (get_classification sku) w = handle_get_product_classification env sku w

  -- The world after a sequence of requests.
  unfoldable pub serve_calls : List Call → World → World
  unfolding route
  serve_calls [] w = w
  serve_calls (c ∷ cs) w = serve_calls cs (route c w).1
