-- ===== src/UseCases/Classify.antt =====
-- internal/application/usecases/classify_product.go and receive_stock.go.
use inventory_storage.Prelude.{String, List, empty_sku, zero_quantity, str_eq, if◌then◌else◌}
use inventory_storage.Shared.Events.{Time, stock_received}
use inventory_storage.Shared.Quantity.{Quantity, is_not_positive}
use inventory_storage.Product.Classification
use inventory_storage.Product.Classification.{
  ProductClassification, HandlingTag, TemperatureClass, DotHazardClass, new_product_classified,
}
use inventory_storage.Store.World.{Env, Exec, pure, fail, lift, ◌>>=◌, ◌>>◌, now}
use inventory_storage.Store.Repos.{save_classification, publish}
use inventory_storage.Store.UnitOfWork.{atomically}

pub record StagedReceipt : Type 0 where
  pub sku : String
  pub quantity : Quantity
  pub received_at : Time

module _ (env : Env) where
  -- `ClassifyProduct.Execute`
  unfoldable pub classify :
      String → List HandlingTag → TemperatureClass → DotHazardClass → Exec ProductClassification
  classify sku tags tc dot = do
    c ← lift (Classification.new sku tags tc dot)
    t ← now env
    atomically env (do save_classification env c; publish env (new_product_classified c t))
    pure c

  -- `ReceiveStock.Execute`
  unfoldable pub receive : String → Quantity → Exec StagedReceipt
  receive sku qty =
      if str_eq sku ""
      then fail empty_sku
      else if is_not_positive qty
      then fail zero_quantity
      else (do
        t ← now env
        atomically env (publish env (stock_received t sku qty))
        pure (record { sku = sku; quantity = qty; received_at = t }))
