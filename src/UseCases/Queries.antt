-- ===== src/UseCases/Queries.antt =====
-- internal/application/usecases/get_bin.go, get_usable.go and get_reservations_by_demand_ref.go.
use inventory_storage.Prelude.{
  String, Option, none, some, List, empty_bin_id, bin_not_found, str_eq, if◌then◌else◌,
}
use inventory_storage.Shared.Quantity.{Quantity}
use inventory_storage.Location.{Bin}
use inventory_storage.Reservation.{Reservation}
use inventory_storage.Store.World.{Env, Exec, pure, fail, ◌>>=◌}
use inventory_storage.Store.Repos.{find_bin, find_units_by_sku, find_by_demand_ref}
use inventory_storage.UseCases.Allocate.{total_usable}
use inventory_storage.UseCases.Expiry.{expire_all_if_due}

pub record UsableInventory : Type 0 where
  pub sku : String
  pub usable : Quantity

unfoldable pub found_bin : Option Bin → Exec Bin
found_bin none = fail bin_not_found
found_bin (some bin) = pure bin

module _ (env : Env) where
  -- `GetBin.Execute`
  unfoldable pub get_bin : String → Exec Bin
  unfolding found_bin
  get_bin id = if str_eq id "" then fail empty_bin_id else (do bin ← find_bin env id; found_bin bin)

  -- `GetUsable.Execute`
  unfoldable pub get_usable : String → Exec UsableInventory
  get_usable sku = do
    units ← find_units_by_sku env sku
    pure (record { sku = sku; usable = total_usable 0 units })

  -- `GetReservationsByDemandRef.Execute`
  unfoldable pub get_reservations_by_demand_ref : String → Exec (List Reservation)
  get_reservations_by_demand_ref demand_ref = do
    results ← find_by_demand_ref env demand_ref
    expire_all_if_due env results
