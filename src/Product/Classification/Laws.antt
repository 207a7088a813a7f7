-- ===== src/Product/Classification/Laws.antt =====
-- Which classifications `New` accepts, and the round trip through the repository, which stores
-- `HandlingTags()` and reads it back by `Rehydrate`.
use mathlib.Core.List.{append-nil, append_assoc}
use inventory_storage.Prelude.{
  String, Bool, true, false, ◌≡◌, refl, ◌∙◌, sym, ◌↔◌, inl, inr, ◌||◌, ◌&&◌, ok, List, [], ◌∷◌,
  ◌++◌, All, select, eq_refl, and_then, and_then-eq-ok, is_empty, arith, str_eq, eq_iff, Bool-cases,
  ◌≤◌, ◌<◌,
}
use inventory_storage.Shared.Int.{modulus, less}
use inventory_storage.Product.Classification.{
  HandlingTag, TemperatureClass, DotHazardClass, hazmat, fragile, oversized, high_value,
  temperature_sensitive, is_handling_tag, parse_handling_tag, is_temperature_class,
  parse_dot_hazard_class, contains, collect, check_temperature, check_hazard, assemble, new,
  ProductClassification, rehydrate, has_tag, handling_tags, tag_set,
}

-- No tag comes twice.
abbrev pub Distinct : List HandlingTag → Type 0
Distinct [] = Unit
Distinct (t ∷ rest) = (contains t rest ≡ false) × Distinct rest

-- What `New` asks of its input.
pub record IsAcceptable (sku : String) (tags : List HandlingTag) (tc : TemperatureClass)
    (dot : DotHazardClass) : Type 0 where
  pub named : str_eq sku "" ≡ false
  pub tagged : is_empty tags ≡ false
  pub known : All (λ t. is_handling_tag t ≡ true) tags
  pub distinct : Distinct tags
  pub sensitive : contains temperature_sensitive tags ≡ true → is_temperature_class tc ≡ true
  pub insensitive : contains temperature_sensitive tags ≡ false → tc ≡ ""
  pub hazardous : contains hazmat tags ≡ true → dot ≤ 9
  pub harmless : contains hazmat tags ≡ false → dot ≡ 0

-- The tags are known, no tag comes twice, and none is in a set.
abbrev Fresh : List HandlingTag → List HandlingTag → Type 0
Fresh set tags =
    All (λ t. is_handling_tag t ≡ true) tags
    × Distinct tags
    × All (λ t. contains t set ≡ false) tags

contains-snoc :
    (t x : HandlingTag) (set : List HandlingTag)
    → contains t (set ++ x ∷ []) ≡ (contains t set || str_eq x t)
unfolding contains
contains-snoc t x [] = ground arith
contains-snoc t x (y ∷ set) = ground (arith, contains-snoc t x set)

-- One more member `x` of the set.
grow :
    (x : HandlingTag) (set tags : List HandlingTag)
    → All (λ t. contains t set ≡ false) tags
    → contains x tags ≡ false
    → All (λ t. contains t (set ++ x ∷ []) ≡ false) tags
unfolding contains
grow x set [] h d = tt
grow x set (t ∷ rest) h d = (
  ground (arith, contains-snoc t x set, eq_iff x t, eq_iff t x),
  grow x set rest h.1 (ground arith),
)

shrink :
    (x : HandlingTag) (set tags : List HandlingTag)
    → All (λ t. contains t (set ++ x ∷ []) ≡ false) tags
    → All (λ t. contains t set ≡ false) tags × (contains x tags ≡ false)
unfolding contains
shrink x set [] h = (tt, refl)
shrink x set (t ∷ rest) h =
    let (below, apart) = shrink x set rest h.1 in
    let here = contains-snoc t x set in
    ((ground (arith, here), below), ground (arith, here, apart, eq_iff x t, eq_iff t x))

collect-ok : (tags set : List HandlingTag) → Fresh set tags → collect set tags ≡ ok (set ++ tags)
unfolding collect parse_handling_tag
collect-ok [] set f = rw append-nil
collect-ok (t ∷ rest) set (k, d, f) =
    rw (k.0, f.0)
      (rw (collect-ok rest (set ++ t ∷ []) (k.1, d.1, grow t set rest f.1 d.0)) (rw append_assoc))

collect_sound :
    (tags set s : List HandlingTag) → collect set tags ≡ ok s → Fresh set tags × (s ≡ set ++ tags)
unfolding collect parse_handling_tag
collect_sound [] set s h = ((tt, tt, tt), rw append-nil (ground arith))
collect_sound (t ∷ rest) set s h =
    let known : is_handling_tag t ≡ true = ground arith in
    let fresh : contains t set ≡ false = ground (arith, known) in
    let later : collect (set ++ t ∷ []) rest ≡ ok s = ground (arith, known, fresh) in
    let ((k, d, f), e) = collect_sound rest (set ++ t ∷ []) s later in
    let (below, apart) = shrink t set rest f in
    (((known, k), (apart, d), (fresh, below)), e ∙ append_assoc set (t ∷ []) rest)

class-nonempty : (tc : TemperatureClass) → is_temperature_class tc ≡ true → str_eq tc "" ≡ false
unfolding is_temperature_class
class-nonempty tc h = elim (Bool-cases (str_eq tc "")) [
  | inl e ↦ let blank : is_temperature_class "" ≡ true = rw ((eq_iff tc "").0 e) at h in cc blank
  | inr e ↦ e
]

temperature_iff :
    (set : List HandlingTag) (tc : TemperatureClass)
    → (check_temperature set tc ≡ ok tt) ↔ (
        (contains temperature_sensitive set ≡ true → is_temperature_class tc ≡ true)
        × (contains temperature_sensitive set ≡ false → tc ≡ ""))
unfolding check_temperature
temperature_iff set tc =
    (λ h. ground (arith, eq_iff tc ""), λ h. ground (arith, eq_iff tc "", class-nonempty tc))

hazard_iff :
    (set : List HandlingTag) (dot : DotHazardClass)
    → dot < modulus
    → (check_hazard set dot ≡ ok tt)
      ↔ ((contains hazmat set ≡ true → dot ≤ 9) × (contains hazmat set ≡ false → dot ≡ 0))
unfolding check_hazard parse_dot_hazard_class less
hazard_iff set dot hd = (λ h. ground arith, λ h. ground arith)

-- For any DOT hazard class that a Go `int` can hold, `New` returns a classification exactly when the
-- SKU is not empty, there is at least one tag, every tag is known and none comes twice, there is a
-- known temperature class if the tags name temperature sensitivity and none otherwise, and the
-- hazard class is at most 9, and 0 without the hazmat tag; and then it has exactly this input in it.
pub new-IsAcceptable :
    (sku : String) (tags : List HandlingTag) (tc : TemperatureClass) (dot : DotHazardClass)
    (c : ProductClassification)
    → dot < modulus
    → (new sku tags tc dot ≡ ok c) ↔ (
        IsAcceptable sku tags tc dot
        × (c ≡ record {
          sku = sku;
          handling_tags = tags;
          temperature_class = tc;
          dot_hazard_class = dot;
        }))
new-IsAcceptable sku tags tc dot c hd = (
  λ h.
      let named : str_eq sku "" ≡ false = unfold new in ground arith in
      let tagged : is_empty tags ≡ false = unfold new in ground (arith, named) in
      let rest : and_then (collect [] tags) (assemble sku tc dot) ≡ ok c =
        unfold new in ground (arith, named, tagged) in
      let (set, collected, assembled) =
        and_then-eq-ok (assemble sku tc dot) (collect [] tags) rest in
      let ((k, d, f), e) = collect_sound tags [] set collected in
      let t : check_temperature set tc ≡ ok tt = unfold assemble in ground arith in
      let z : check_hazard set dot ≡ ok tt = unfold assemble in ground (arith, t) in
      let (sens, insens) = (temperature_iff tags tc).0 (rw (sym e) t) in
      let (haz, harm) = (hazard_iff tags dot hd).0 (rw (sym e) z) in
      (
        record {
          named = named;
          tagged = tagged;
          known = k;
          distinct = d;
          sensitive = sens;
          insensitive = insens;
          hazardous = haz;
          harmless = harm;
        },
        unfold assemble in ground (arith, t, z, e),
      ),
  λ (g, e).
      let t = (temperature_iff tags tc).1 (g.sensitive, g.insensitive) in
      let z = (hazard_iff tags dot hd).1 (g.hazardous, g.harmless) in
      let s = collect-ok tags [] (g.known, g.distinct, none_in tags) in
      unfold new assemble in rw (g.named, g.tagged, s, t, z, e) refl,
)
  where
    none_in : (l : List HandlingTag) → All (λ t. contains t [] ≡ false) l
    none_in [] = tt
    none_in (x ∷ l) = (unfold contains in refl, none_in l)

contains-tag_set :
    (t : HandlingTag) (set tags : List HandlingTag)
    → contains t (tag_set set tags) ≡ (contains t set || contains t tags)
unfolding tag_set contains
contains-tag_set t set [] = ground arith
contains-tag_set t set (x ∷ rest) = elim (Bool-cases (contains x set)) [
  | inl old ↦ rw old (ground (arith, contains-tag_set t set rest, eq_iff x t))
  | inr fresh ↦
      rw fresh (ground (arith, contains-tag_set t (set ++ x ∷ []) rest, contains-snoc t x set))
]

-- Selecting by a test that respects equality of texts.
contains-select :
    (p : HandlingTag → Bool) (t : HandlingTag) (l : List HandlingTag)
    → contains t (select p l) ≡ (p t && contains t l)
unfolding contains
contains-select p t [] = ground arith
contains-select p t (x ∷ l) = ground (arith, contains-select p t l, eq_iff x t)

known-tag :
    (t : HandlingTag) (tags : List HandlingTag)
    → All (λ x. is_handling_tag x ≡ true) tags
    → contains t tags ≡ true
    → is_handling_tag t ≡ true
unfolding contains
known-tag t [] k h = cc
known-tag t (x ∷ tags) k h = elim (Bool-cases (str_eq x t)) [
  | inl e ↦ rw (sym ((eq_iff x t).0 e)) k.0
  | inr ne ↦ known-tag t tags k.1 (ground (arith, ne))
]

known-listed :
    (t : HandlingTag)
    → is_handling_tag t ≡ true
    → contains t (hazmat ∷ fragile ∷ temperature_sensitive ∷ oversized ∷ high_value ∷ []) ≡ true
unfolding is_handling_tag contains
known-listed t h = ground (
  arith,
  eq_iff t hazmat,
  eq_iff t fragile,
  eq_iff t temperature_sensitive,
  eq_iff t oversized,
  eq_iff t high_value,
  eq_refl hazmat,
  eq_refl fragile,
  eq_refl temperature_sensitive,
  eq_refl oversized,
  eq_refl high_value,
)

-- A classification whose tags are known is read back from the list that `HandlingTags` gives, with
-- the same answer of `HasTag` for every tag.
pub has_tag-rehydrate :
    (c : ProductClassification) (t : HandlingTag)
    → All (λ x. is_handling_tag x ≡ true) c.handling_tags
    → has_tag (rehydrate c.sku (handling_tags c) c.temperature_class c.dot_hazard_class) t
      ≡ has_tag c t
has_tag-rehydrate c t k =
    let all = hazmat ∷ fragile ∷ temperature_sensitive ∷ oversized ∷ high_value ∷ [] in
    let stored = contains-tag_set t [] (select (λ x. contains x c.handling_tags) all) in
    let listed = contains-select (λ x. contains x c.handling_tags) t all in
    unfold has_tag rehydrate handling_tags in
    ground (arith, stored, listed, known-tag t c.handling_tags k, known-listed t)
