-- ===== src/Http/Routes/Wellformed.antt =====
-- Whatever is asked for over HTTP, the database stays well-formed.
use inventory_storage.Prelude.{
  ◌≡◌, refl, String, inl, inr, Option, none, some, List, [], ◌∷◌, All, Result, ok, err, arith,
  Bool-cases, str_eq,
}
use inventory_storage.Shared.Int.{Int64, IsNonneg, less, less_eq}
use inventory_storage.Shared.Quantity
use inventory_storage.Location.{Bin}
use inventory_storage.Product.Classification.{HandlingTag, TemperatureClass, DotHazardClass}
use inventory_storage.Store.World.{Env, World, Exec}
use inventory_storage.Store.Repos.{find_classification}
use inventory_storage.Store.Keeps.{
  Keeps, IsWellformed, IsOrdering, Keeps-pure, Keeps-fail, Keeps-if, Keeps-bind,
}
use inventory_storage.Store.Keeps.Rows.{
  IfFound, Keeps-find_bin, Keeps-find_classification, Keeps-find_units_by_sku,
}
use inventory_storage.UseCases.Queries.{get_bin, get_usable, found_bin}
use inventory_storage.UseCases.Wellformed.Reservations.{
  Keeps-revoke, Keeps-confirm, Keeps-reserve, Keeps-reservations_of,
}
use inventory_storage.UseCases.Wellformed.Shelves.{
  Keeps-stow, Keeps-count, Keeps-register, Keeps-classify, Keeps-receive,
}
use inventory_storage.Http.Response.{Response}
use inventory_storage.Http.Handlers.{
  Handler, respond, checked, decode_json, required, present, written, register_in_range,
  classify_parsed, handle_receive_stock, handle_stow_stock, handle_reserve_stock,
  handle_revoke_reservation, handle_get_reservations_by_demand_ref, handle_confirm_pick,
  handle_get_usable, handle_run_cycle_count, handle_register_bin, handle_get_bin,
  handle_classify_product, handle_get_product_classification,
}
use inventory_storage.Stock.Invariant
use inventory_storage.Location.Capacity
use inventory_storage.Http.Errors.{ProblemInfo}
use inventory_storage.Http.Routes.{
  Call, get_healthz, get_readyz, post_stock_receive, post_stock_stow, post_reservations,
  get_reservations, delete_reservation, post_confirm_pick, get_inventory_usable, put_bin,
  get_one_bin, post_cycle_count, put_classification, get_classification, IsInt, IsIntIfAny,
  IfDecoded, HoldsInts, route, serve_calls,
}

-- A handler that keeps the rows of the database well-formed.
record Safe (h : Handler) : Type 0 where
  from : (w : World) → IsWellformed w.db → IsWellformed (h w).1.db

module _ {A : Type 0} where
  kept_by_written :
      (f : A → Response) (p : Result A × World)
      → IsWellformed p.1.db
      → IsWellformed (written f p).1.db
  kept_by_written f (ok a, w) h = h
  kept_by_written f (err e, w) h = h

  Safe-respond : {Q : A → Type 0} (m : Exec A) (f : A → Response) → Keeps Q m → Safe (respond m f)
  unfolding respond
  Safe-respond m f k = record { from = λ w v. kept_by_written f (m w) ((k.from w v).0) }

  Safe-checked :
      (r : Result A) (k : A → Handler) → ((a : A) → r ≡ ok a → Safe (k a)) → Safe (checked r k)
  unfolding checked
  Safe-checked (ok a) k h = record { from = λ w v. (h a refl).from w v }
  Safe-checked (err e) k h = record { from = λ w v. v }

  Safe-decode_json :
      (P : A → Type 0) (o : Option A) (k : A → Handler)
      → IfDecoded P o
      → ((a : A) → P a → Safe (k a))
      → Safe (decode_json o k)
  unfolding decode_json
  Safe-decode_json P none k p h = record { from = λ w v. v }
  Safe-decode_json P (some a) k p h = record { from = λ w v. (h a p).from w v }

  Safe-required :
      (P : A → Type 0) (p : ProblemInfo) (o : Option A) (k : A → Handler)
      → IfDecoded P o
      → ((a : A) → P a → Safe (k a))
      → Safe (required p o k)
  unfolding required
  Safe-required P p none k d h = record { from = λ w v. v }
  Safe-required P p (some a) k d h = record { from = λ w v. (h a d).from w v }

new-IsNonneg : (n q : Int64) → IsInt n → Quantity.new n ≡ ok q → IsNonneg q
unfolding Quantity.new less
new-IsNonneg n q h e = ground arith

new_positive-IsNonneg : (n q : Int64) → IsInt n → Quantity.new_positive n ≡ ok q → IsNonneg q
unfolding Quantity.new_positive less_eq
new_positive-IsNonneg n q h e = ground arith

present-IfDecoded : (s : String) → IfDecoded (λ _. Unit) (present s)
unfolding present
present-IfDecoded s = elim (Bool-cases (str_eq s "")) [ inl e ↦ rw e tt | inr e ↦ rw e tt ]

IfDecoded-IsInt : (o : Option Int64) → IsIntIfAny o → IfDecoded IsInt o
IfDecoded-IsInt none h = tt
IfDecoded-IsInt (some n) h = h

decoded_any : {A : Type 0} (o : Option A) → IfDecoded (λ a. Unit) o
decoded_any none = tt
decoded_any (some a) = tt

abbrev Any : {A : Type 0} → A → Type 0
Any a = Unit

module _ (env : Env) where
  Keeps-found_bin : (o : Option Bin) → Keeps Any (found_bin o)
  unfolding found_bin
  Keeps-found_bin none = Keeps-fail Any _
  Keeps-found_bin (some b) = Keeps-pure Any b tt

  Keeps-get_bin : (id : String) → Keeps Any (get_bin env id)
  unfolding get_bin
  Keeps-get_bin id =
      Keeps-if Any (str_eq id "") _ _ (λ empty. Keeps-fail Any _)
        (λ given.
          Keeps-bind (IfFound Capacity.IsValid) Any _ _ (Keeps-find_bin env id)
            λ o v. Keeps-found_bin o)

  Keeps-get_usable : (sku : String) → Keeps Any (get_usable env sku)
  unfolding get_usable
  Keeps-get_usable sku =
      Keeps-bind (All Invariant.IsValid) Any _ _ (Keeps-find_units_by_sku env sku)
        λ units v. Keeps-pure Any _ tt

  Safe-classify_parsed :
      (sku : String) (tags : List HandlingTag) (tc : TemperatureClass) (dot : DotHazardClass)
      → Safe (classify_parsed env sku tags tc dot)
  unfolding classify_parsed
  Safe-classify_parsed sku tags tc dot = record {
    from = λ w v.
        (Safe-checked ((find_classification env sku w).0) _
            λ existing e. Safe-respond _ _ (Keeps-classify env sku tags tc dot)).from
          _ (((Keeps-find_classification env sku).from w v).0);
  }

  Safe-register_in_range : (id : String) (n : Int64) → IsInt n → Safe (register_in_range env id n)
  unfolding register_in_range
  Safe-register_in_range id n h = elim (Bool-cases (less 2147483647 n)) [
    | inl e ↦ rw e (record { from = λ w v. v })
    | inr e ↦ rw e (
        Safe-checked (Quantity.new n) _
          λ q eq. Safe-respond _ _ (Keeps-register env id q (new-IsNonneg n q h eq)))
  ]

  Safe-route : IsOrdering env → (c : Call) → HoldsInts c → Safe (route env c)
  unfolding route HoldsInts handle_receive_stock handle_stow_stock handle_reserve_stock
      handle_revoke_reservation handle_get_reservations_by_demand_ref handle_confirm_pick
      handle_get_usable handle_run_cycle_count handle_register_bin handle_get_bin
      handle_classify_product handle_get_product_classification
  Safe-route o get_healthz h = record { from = λ w v. v }
  Safe-route o (get_readyz gate) h = record { from = λ w v. v }
  Safe-route o (post_stock_receive body) h =
      Safe-decode_json (λ r. IsInt r.quantity) body _ h
        λ req ints.
          Safe-checked _ _
            λ sku e. Safe-checked _ _ λ q eq. Safe-respond _ _ (Keeps-receive env sku q)
  Safe-route o (post_stock_stow body) h =
      Safe-decode_json (λ r. IsInt r.quantity) body _ h
        λ req ints. Safe-checked _ _ λ sku e. Safe-checked _ _ λ q eq.
          Safe-checked _ _ λ bin eb.
            Safe-respond _ _ (Keeps-stow env sku q bin (new_positive-IsNonneg _ q ints eq))
  Safe-route o (post_reservations body) h =
      Safe-decode_json (λ r. IsInt r.quantity) body _ h
        λ req ints. Safe-checked _ _ λ sku e. Safe-checked _ _ λ q eq.
          Safe-required Any _ (present req.demand_ref) _ (present-IfDecoded req.demand_ref) λ ref r.
            Safe-respond _ _ (Keeps-reserve env o sku q ref (new_positive-IsNonneg _ q ints eq))
  Safe-route o (get_reservations query) h =
      Safe-required Any _ (present query) _ (present-IfDecoded query)
        λ ref r. Safe-respond _ _ (Keeps-reservations_of env o ref)
  Safe-route o (delete_reservation id) h = Safe-respond _ _ (Keeps-revoke env o id)
  Safe-route o (post_confirm_pick id) h = Safe-respond _ _ (Keeps-confirm env o id)
  Safe-route o (get_inventory_usable sku) h =
      Safe-checked _ _ λ s e. Safe-respond _ _ (Keeps-get_usable s)
  Safe-route o (put_bin id body) h = Safe-checked _ _ λ bin eb.
      Safe-decode_json (λ r. IsIntIfAny r.capacity) body _ h
        λ req ints.
          Safe-required IsInt _ req.capacity _ (IfDecoded-IsInt req.capacity ints)
            λ n int. Safe-register_in_range bin n int
  Safe-route o (get_one_bin id) h = Safe-checked _ _ λ bin eb. Safe-respond _ _ (Keeps-get_bin bin)
  Safe-route o (post_cycle_count id body) h = Safe-checked _ _ λ bin eb.
      Safe-decode_json (λ r. IsIntIfAny r.counted_quantity) body _ h
        λ req ints.
          Safe-required IsInt _ req.counted_quantity _ (IfDecoded-IsInt req.counted_quantity ints)
            λ n int. Safe-checked _ _ λ q eq. Safe-respond _ _ (Keeps-count env bin q)
  Safe-route o (put_classification sku body) h = Safe-checked _ _ λ s e.
      Safe-decode_json Any body _ (decoded_any body) λ req r. Safe-checked _ _ λ tags et.
        Safe-checked _ _ λ tc ec. Safe-checked _ _ λ dot ed. Safe-classify_parsed s tags tc dot
  Safe-route o (get_classification sku) h =
      Safe-checked _ _ λ s e. Safe-respond _ _ (Keeps-find_classification env s)

  -- Where the database orders the rows it is asked to order, any sequence of HTTP requests, with
  -- any URL parameters and any bodies (malformed ones, missing fields and negative numbers
  -- included) whose numbers fit in a Go `int`, keeps a database well-formed, whichever calls fail:
  -- every stock unit and every bin stays valid, and no allocation is of a negative quantity.
  pub serve_calls-IsWellformed :
      IsOrdering env
      → (cs : List Call) (w : World) → All HoldsInts cs
      → IsWellformed w.db
      → IsWellformed (serve_calls env cs w).db
  unfolding serve_calls
  serve_calls-IsWellformed o [] w h v = v
  serve_calls-IsWellformed o (c ∷ cs) w h v =
      serve_calls-IsWellformed o cs (route env c w).1 h.1 ((Safe-route o c h.0).from w v)
