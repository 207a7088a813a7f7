-- ===== src/UseCases/Wellformed.antt =====
-- Whatever sequence of use cases the service is asked for, and whichever calls fail, the database
-- stays well-formed.
pub mod Reservations
pub mod Shelves
use inventory_storage.Prelude.{String, List, [], ◌∷◌, All}
use inventory_storage.Shared.Int.{IsNonneg}
use inventory_storage.Shared.Quantity.{Quantity}
use inventory_storage.Product.Classification.{HandlingTag, TemperatureClass, DotHazardClass}
use inventory_storage.Store.World.{Env, World, Exec, ◌>>◌}
use inventory_storage.Store.Keeps.{IsWellformed, IsOrdering, Keeps}
use inventory_storage.UseCases.Reserve
use inventory_storage.UseCases.Revoke
use inventory_storage.UseCases.ConfirmPick
use inventory_storage.UseCases.Stow
use inventory_storage.UseCases.CycleCount
use inventory_storage.UseCases.RegisterBin
use inventory_storage.UseCases.Classify.{classify, receive}
use inventory_storage.UseCases.Queries.{get_reservations_by_demand_ref}
use Reservations.{Keeps-revoke, Keeps-confirm, Keeps-reserve, Keeps-reservations_of}
use Shelves.{Keeps-stow, Keeps-count, Keeps-register, Keeps-classify, Keeps-receive}

-- A request to the service.
pub data Request : Type 0 where
  reserve : String → Quantity → String → Request
  revoke : String → Request
  confirm : String → Request
  reservations_of : String → Request
  stow : String → Quantity → String → Request
  count : String → Quantity → Request
  register : String → Quantity → Request
  classifying : String → List HandlingTag → TemperatureClass → DotHazardClass → Request
  receiving : String → Quantity → Request

-- The quantity was made by `NewQuantity`, or comes from a test that it is not negative.
unfoldable pub IsAdmissible : Request → Type 0
IsAdmissible (reserve sku q ref) = IsNonneg q
IsAdmissible (stow sku q bin) = IsNonneg q
IsAdmissible (count bin q) = IsNonneg q
IsAdmissible (register bin q) = IsNonneg q
IsAdmissible (receiving sku q) = IsNonneg q
IsAdmissible _ = Unit

module _ (env : Env) where
  -- The world after a request, whatever the request was answered.
  unfoldable pub serve : Request → World → World
  serve (reserve sku q ref) w = (Reserve.execute env sku q ref w).1
  serve (revoke id) w = (Revoke.execute env id w).1
  serve (confirm id) w = (ConfirmPick.execute env id w).1
  serve (reservations_of ref) w = (get_reservations_by_demand_ref env ref w).1
  serve (stow sku q bin) w = (Stow.execute env sku q bin w).1
  serve (count bin q) w = (CycleCount.execute env bin q w).1
  serve (register bin q) w = (RegisterBin.execute env bin q w).1
  serve (classifying sku tags tc dot) w = (classify env sku tags tc dot w).1
  serve (receiving sku q) w = (receive env sku q w).1

  unfoldable pub serve_all : List Request → World → World
  unfolding serve
  serve_all [] w = w
  serve_all (r ∷ rs) w = serve_all rs (serve r w)

  serve-IsWellformed :
      IsOrdering env
      → (r : Request) (w : World) → IsAdmissible r
      → IsWellformed w.db
      → IsWellformed (serve r w).db
  unfolding serve IsAdmissible
  serve-IsWellformed o (reserve sku q ref) w h v = ((Keeps-reserve env o sku q ref h).from w v).0
  serve-IsWellformed o (revoke id) w h v = ((Keeps-revoke env o id).from w v).0
  serve-IsWellformed o (confirm id) w h v = ((Keeps-confirm env o id).from w v).0
  serve-IsWellformed o (reservations_of ref) w h v = ((Keeps-reservations_of env o ref).from w v).0
  serve-IsWellformed o (stow sku q bin) w h v = ((Keeps-stow env sku q bin h).from w v).0
  serve-IsWellformed o (count bin q) w h v = ((Keeps-count env bin q).from w v).0
  serve-IsWellformed o (register bin q) w h v = ((Keeps-register env bin q h).from w v).0
  serve-IsWellformed o (classifying sku tags tc dot) w h v =
      ((Keeps-classify env sku tags tc dot).from w v).0
  serve-IsWellformed o (receiving sku q) w h v = ((Keeps-receive env sku q).from w v).0

  -- Where the database orders the rows it is asked to order, any sequence of requests whose
  -- quantities are not negative keeps a database well-formed: every stock unit and every bin stays
  -- valid (nothing reserved beyond the quantity, no bin above its capacity), and no allocation is
  -- of a negative quantity, whichever calls fail and whether or not a unit of work is wired.
  pub serve_all-IsWellformed :
      IsOrdering env
      → (rs : List Request) (w : World) → All IsAdmissible rs
      → IsWellformed w.db
      → IsWellformed (serve_all rs w).db
  unfolding serve_all
  serve_all-IsWellformed o [] w h v = v
  serve_all-IsWellformed o (r ∷ rs) w h v =
      serve_all-IsWellformed o rs (serve r w) h.1 (serve-IsWellformed o r w h.0 v)
