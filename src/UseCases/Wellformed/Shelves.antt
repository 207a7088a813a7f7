-- ===== src/UseCases/Wellformed/Shelves.antt =====
-- The use cases on stock units and bins (stow_stock.go, run_cycle_count.go, register_bin.go,
-- classify_product.go and receive_stock.go) keep the database well-formed.
use inventory_storage.Prelude.{
  ◌+◌, ◌≡◌, refl, true, false, inl, inr, String, Bool, not, ◌&&◌, ◌||◌, Option, none, some, List,
  [], ◌∷◌, All, ok, arith, ltb, leb, ◌==◌, str_eq, Bool-cases, All-select,
}
use inventory_storage.Shared.Int
use inventory_storage.Shared.Int.{IsNonneg, sign}
use inventory_storage.Shared.Events.{Time}
use inventory_storage.Shared.Quantity.{Quantity, is_not_positive, greater_than}
use inventory_storage.Stock.{StockUnit, mark_unlocated}
use inventory_storage.Stock.Invariant
use inventory_storage.Stock.Lifecycle
use inventory_storage.Location.{Bin, occupy}
use inventory_storage.Location.Capacity
use inventory_storage.Product.Classification.{
  ProductClassification, DotHazardClass, HandlingTag, TemperatureClass, contains, unspecified,
  is_hazmat, is_temperature_sensitive,
}
use inventory_storage.Store.World.{Env}
use inventory_storage.Store.Repos.{max_integer}
use inventory_storage.Store.Keeps.{
  Keeps, Anything, Keeps-pure, Keeps-lift, Keeps-fail, Keeps-if, Keeps-bind, Keeps-atomically,
  Keeps-now,
}
use inventory_storage.Store.Keeps.Rows.{
  IfFound, Keeps-save_unit, Keeps-save_bin, Keeps-find_bin, Keeps-find_units_by_bin, Keeps-publish,
  Keeps-next_unit_id, Keeps-find_classification, Keeps-save_classification,
}
use inventory_storage.UseCases.Stow
use inventory_storage.UseCases.CycleCount
use inventory_storage.UseCases.CycleCount.{locatable}
use inventory_storage.UseCases.RegisterBin
use inventory_storage.UseCases.Classify.{classify, receive}

module _ (env : Env) where
  -- Stowing
  Keeps-check_classified :
      (bin : String) (o : Option ProductClassification)
      → Keeps Anything (Stow.check_classified env bin o)
  unfolding Stow.check_classified
  Keeps-check_classified bin none = Keeps-pure Anything tt tt
  Keeps-check_classified bin (some c) =
      Keeps-if Anything (not (is_hazmat c) && not (is_temperature_sensitive c)) _ _
        (λ plain. Keeps-pure Anything tt tt)
        (λ special.
          Keeps-bind (λ _. Unit) Anything _ _
            (unfold Stow.get_slot_attributes in record { from = λ w v. (v, λ a h. tt) })
            (λ attrs some_attrs. Keeps-lift Anything _ (λ a e. tt)))

  Keeps-check_placement : (sku bin : String) → Keeps Anything (Stow.check_placement env sku bin)
  unfolding Stow.check_placement
  Keeps-check_placement sku bin =
      Keeps-if Anything (not env.classifying || not env.locating) _ _
        (λ unwired. Keeps-pure Anything tt tt)
        (λ wired.
          Keeps-bind (λ _. Unit) Anything _ _ (Keeps-find_classification env sku)
            λ c row. Keeps-check_classified bin c)

  Keeps-check_occupants :
      (sku : String) (incoming : DotHazardClass) (seen : List String) (l : List StockUnit)
      → Keeps Anything (Stow.check_occupants env sku incoming seen l)
  unfolding Stow.check_occupants
  Keeps-check_occupants sku incoming seen [] = Keeps-pure Anything tt tt
  Keeps-check_occupants sku incoming seen (u ∷ l) =
      Keeps-if Anything (str_eq u.sku sku) _ _ (λ same. Keeps-check_occupants sku incoming seen l)
        (λ other.
          Keeps-if Anything (contains u.sku seen) _ _
            (λ known. Keeps-check_occupants sku incoming seen l)
            (λ fresh.
              Keeps-bind (λ _. Unit) Anything _ _ (Keeps-find_classification env u.sku)
                λ c row.
                  Keeps-bind Anything Anything _ _ (Keeps-lift Anything _ (λ a e. tt))
                    λ _ passed. Keeps-check_occupants sku incoming (u.sku ∷ seen) l))

  Keeps-check_incoming :
      (sku bin : String) (o : Option ProductClassification)
      → Keeps Anything (Stow.check_incoming env sku bin o)
  unfolding Stow.check_incoming
  Keeps-check_incoming sku bin none = Keeps-pure Anything tt tt
  Keeps-check_incoming sku bin (some c) =
      Keeps-if Anything (c.dot_hazard_class == unspecified) _ _ (λ plain. Keeps-pure Anything tt tt)
        (λ hazard.
          Keeps-bind (All Invariant.IsValid) Anything _ _ (Keeps-find_units_by_bin env bin)
            λ l v. Keeps-check_occupants sku c.dot_hazard_class [] l)

  Keeps-check_segregation : (sku bin : String) → Keeps Anything (Stow.check_segregation env sku bin)
  unfolding Stow.check_segregation
  Keeps-check_segregation sku bin =
      Keeps-if Anything (not env.classifying) _ _ (λ unwired. Keeps-pure Anything tt tt)
        (λ wired.
          Keeps-bind (λ _. Unit) Anything _ _ (Keeps-find_classification env sku)
            λ c row. Keeps-check_incoming sku bin c)

  Keeps-record_stow :
      (t : Time) (b : Bin) (u : StockUnit) (q : Quantity)
      → (ltb b.occupied max_integer ≡ true → Capacity.IsValid b)
      → Invariant.IsValid u
      → Keeps Anything (Stow.record_stow env t b u q)
  unfolding Stow.record_stow
  Keeps-record_stow t b u q hb hu =
      Keeps-bind Anything Anything _ _ (Keeps-save_bin env b hb) λ _ bin_saved.
        Keeps-bind Anything Anything _ _ (Keeps-save_unit env u hu) λ _ unit_saved.
          Keeps-bind Anything Anything _ _ (Keeps-publish env _) λ _ stowed. Keeps-publish env _

  -- What `Occupy` accepts fits the bin, or is a number that the column refuses.
  occupy-IsValid :
      (b b' : Bin) (q : Quantity)
      → Capacity.IsValid b
      → IsNonneg q
      → occupy b q ≡ ok b'
      → ltb b'.occupied max_integer ≡ true
      → Capacity.IsValid b'
  occupy-IsValid b b' q v hq h small = elim (Bool-cases (ltb (b.occupied + q) sign)) [
    | inl fits ↦ Capacity.Step-IsValid b b' v (Capacity.stowing q hq (ground arith) h)
    | inr over ↦
        let (t, e, negative) = Capacity.occupy_overflows b q v hq (ground arith) in
        let n : leb sign t.occupied ≡ true = unfold Int.is_negative in ground arith in ground arith
  ]

  Keeps-stow_into :
      (sku : String) (q : Quantity) (bin_id : String) (o : Option Bin)
      → IsNonneg q
      → IfFound Capacity.IsValid o
      → Keeps (λ _. Unit) (Stow.stow_into env sku q bin_id o)
  unfolding Stow.stow_into
  Keeps-stow_into sku q bin_id none hq v = Keeps-fail (λ _. Unit) _
  Keeps-stow_into sku q bin_id (some b) hq v =
      Keeps-bind Anything _ _ _ (Keeps-check_placement sku bin_id) λ _ placed.
        Keeps-bind Anything _ _ _ (Keeps-check_segregation sku bin_id) λ _ apart.
          Keeps-bind (λ _. Unit) _ _ _ (Keeps-next_unit_id env)
            λ id some_id.
              Keeps-bind Invariant.IsValid _ _ _
                (Keeps-lift _ _ λ u e. Lifecycle.new-IsValid id sku bin_id q u hq e)
                λ u hu.
                  Keeps-bind (λ b'. ltb b'.occupied max_integer ≡ true → Capacity.IsValid b') _ _ _
                    (Keeps-lift _ _ λ b' e small. occupy-IsValid b b' q v hq e small)
                    λ b' hb.
                      Keeps-bind (λ _. Unit) _ _ _ (Keeps-now env)
                        λ t read.
                          Keeps-bind Anything _ _ _
                            (Keeps-atomically env Anything _ (Keeps-record_stow t b' u q hb hu))
                            λ _ stowed. Keeps-pure (λ _. Unit) u tt

  pub Keeps-stow :
      (sku : String) (q : Quantity) (bin_id : String)
      → IsNonneg q
      → Keeps (λ _. Unit) (Stow.execute env sku q bin_id)
  unfolding Stow.execute
  Keeps-stow sku q bin_id hq =
      Keeps-bind (IfFound Capacity.IsValid) _ _ _ (Keeps-find_bin env bin_id)
        λ o v. Keeps-stow_into sku q bin_id o hq v

  -- Counting
  Keeps-mark_shortfall :
      (bin_id : String) (l : List StockUnit) (shortfall : Quantity) (t : Time)
      → All Invariant.IsValid l
      → Keeps Anything (CycleCount.mark_shortfall_unlocated env bin_id l shortfall t)
  unfolding CycleCount.mark_shortfall_unlocated
  Keeps-mark_shortfall bin_id [] shortfall t v = Keeps-pure Anything tt tt
  Keeps-mark_shortfall bin_id (u ∷ l) shortfall t v =
      Keeps-if Anything (shortfall == 0) _ _ (λ done. Keeps-pure Anything tt tt)
        (λ more.
          Keeps-bind Anything Anything _ _
            (Keeps-save_unit env (mark_unlocated u)
              (Lifecycle.Step-IsValid u (mark_unlocated u) v.0 (Lifecycle.losing refl)))
            λ _ saved.
              Keeps-bind Anything Anything _ _ (Keeps-publish env _)
                λ _ published. Keeps-mark_shortfall bin_id l _ t v.1)

  Keeps-complete :
      (t : Time) (bin_id : String) (counted system : Quantity) (d : Bool)
      → Keeps (λ _. Unit) (CycleCount.complete env t bin_id counted system d)
  unfolding CycleCount.complete
  Keeps-complete t bin_id counted system d =
      Keeps-bind Anything _ _ _ (Keeps-publish env _) λ _ published. Keeps-pure (λ _. Unit) _ tt

  Keeps-reconcile :
      (t : Time) (bin_id : String) (counted system : Quantity) (l : List StockUnit)
      → All Invariant.IsValid l
      → Keeps (λ _. Unit) (CycleCount.reconcile env t bin_id counted system l)
  unfolding CycleCount.reconcile
  Keeps-reconcile t bin_id counted system l v =
      Keeps-if _ (counted == system) _ _ (λ agrees. Keeps-complete t bin_id counted system false)
        (λ differs. Keeps-bind Anything _ _ _ (Keeps-publish env _) λ _ published.
          Keeps-if _ (greater_than counted system) _ _
            (λ more. Keeps-complete t bin_id counted system true)
            (λ fewer.
              Keeps-bind Anything _ _ _ (Keeps-mark_shortfall bin_id l _ t v)
                λ _ marked. Keeps-complete t bin_id counted system true))

  pub Keeps-count :
      (bin_id : String) (counted : Quantity)
      → Keeps (λ _. Unit) (CycleCount.execute env bin_id counted)
  unfolding CycleCount.execute locatable
  Keeps-count bin_id counted =
      Keeps-bind (All Invariant.IsValid) _ _ _ (Keeps-find_units_by_bin env bin_id) λ l v.
        Keeps-bind (λ _. Unit) _ _ _ (Keeps-now env)
          λ t read.
            Keeps-atomically env _ _ (
              Keeps-reconcile t bin_id counted _ (locatable l) (All-select Invariant.IsValid _ l v))

  -- Registering
  Keeps-converge :
      (id : String) (capacity : Quantity) (o : Option Bin)
      → IsNonneg capacity
      → IfFound Capacity.IsValid o
      → Keeps (λ _. Unit) (RegisterBin.converge env id capacity o)
  unfolding RegisterBin.converge
  Keeps-converge id capacity none hc v =
      Keeps-bind Capacity.IsValid _ _ _
        (Keeps-lift _ _ λ b e. Capacity.new-IsValid id capacity b hc e)
        λ b hb.
          Keeps-bind Anything _ _ _ (Keeps-save_bin env b (λ small. hb))
            λ _ saved. Keeps-pure (λ _. Unit) _ tt
  Keeps-converge id capacity (some b) hc v =
      Keeps-if _ (b.capacity == capacity) _ _ (λ same. Keeps-pure (λ _. Unit) _ tt)
        (λ other.
          Keeps-bind Capacity.IsValid _ _ _
            (Keeps-lift _ _ λ b' e. Capacity.Step-IsValid b b' v (Capacity.resizing capacity hc e))
            λ b' hb.
              Keeps-bind Anything _ _ _ (Keeps-save_bin env b' (λ small. hb))
                λ _ saved. Keeps-pure (λ _. Unit) _ tt)

  pub Keeps-register :
      (id : String) (capacity : Quantity)
      → IsNonneg capacity
      → Keeps (λ _. Unit) (RegisterBin.execute env id capacity)
  unfolding RegisterBin.execute
  Keeps-register id capacity hc =
      Keeps-if _ (str_eq id "") _ _ (λ nameless. Keeps-fail (λ _. Unit) _)
        (λ named.
          Keeps-if _ (is_not_positive capacity) _ _ (λ bad. Keeps-fail (λ _. Unit) _)
            (λ good. Keeps-atomically env _ _ (
              Keeps-bind (IfFound Capacity.IsValid) _ _ _ (Keeps-find_bin env id)
                λ o v. Keeps-converge id capacity o hc v)))

  -- Classifying and receiving
  pub Keeps-classify :
      (sku : String) (tags : List HandlingTag) (tc : TemperatureClass) (dot : DotHazardClass)
      → Keeps (λ _. Unit) (classify env sku tags tc dot)
  unfolding classify
  Keeps-classify sku tags tc dot =
      Keeps-bind (λ _. Unit) _ _ _ (Keeps-lift _ _ (λ c e. tt))
        λ c made.
          Keeps-bind (λ _. Unit) _ _ _ (Keeps-now env)
            λ t read.
              Keeps-bind Anything _ _ _
                (Keeps-atomically env Anything _ (
                  Keeps-bind Anything Anything _ _ (Keeps-save_classification env c)
                    λ _ saved. Keeps-publish env _))
                λ _ recorded. Keeps-pure (λ _. Unit) c tt

  pub Keeps-receive : (sku : String) (q : Quantity) → Keeps (λ _. Unit) (receive env sku q)
  unfolding receive
  Keeps-receive sku q =
      Keeps-if _ (str_eq sku "") _ _ (λ nameless. Keeps-fail (λ _. Unit) _)
        (λ named.
          Keeps-if _ (is_not_positive q) _ _ (λ bad. Keeps-fail (λ _. Unit) _)
            (λ good.
              Keeps-bind (λ _. Unit) _ _ _ (Keeps-now env)
                λ t read.
                  Keeps-bind Anything _ _ _ (Keeps-atomically env Anything _ (Keeps-publish env _))
                    λ _ published. Keeps-pure (λ _. Unit) _ tt))
