-- ===== src/UseCases/RegisterBin.antt =====
-- internal/application/usecases/register_bin.go.
pub mod Convergence
use inventory_storage.Prelude.{
  String, Option, none, some, empty_bin_id, invalid_capacity, str_eq, ◌==◌, if◌then◌else◌,
}
use inventory_storage.Shared.Quantity.{Quantity, is_not_positive}
use inventory_storage.Location
use inventory_storage.Location.{Bin, resize}
use inventory_storage.Store.World.{Env, Exec, pure, fail, lift, ◌>>=◌, ◌>>◌}
use inventory_storage.Store.Repos.{find_bin, save_bin}
use inventory_storage.Store.UnitOfWork.{atomically}

-- `RegisterBinOutcome`
pub data Outcome : Type 0 where
  bin_created bin_unchanged bin_resized : Outcome

module _ (env : Env) where
  unfoldable pub converge : String → Quantity → Option Bin → Exec (Bin × Outcome)
  converge id capacity none = do
    bin ← lift (Location.new id capacity)
    save_bin env bin
    pure (bin, bin_created)
  converge id capacity (some existing) =
      if existing.capacity == capacity
      then pure (existing, bin_unchanged)
      else (do bin ← lift (resize existing capacity); save_bin env bin; pure (bin, bin_resized))

  -- `Execute`
  unfoldable pub execute : String → Quantity → Exec (Bin × Outcome)
  unfolding converge
  execute id capacity =
      if str_eq id ""
      then fail empty_bin_id
      else if is_not_positive capacity
      then fail invalid_capacity
      else atomically env (do existing ← find_bin env id; converge id capacity existing)
