-- ===== src/Product/Classification.antt =====
-- internal/domain/product/classification.go. A handling tag and a temperature class are Go strings
-- of which the parsers accept a fixed few; the set of tags is the list of its members.
pub mod Laws
use inventory_storage.Prelude.{
  ℕ, String, Bool, true, false, ◌||◌, Result, ok, err, empty_sku, unknown_handling_tag, Option,
  unknown_temperature_class, no_handling_tags, temperature_class_required,
  temperature_class_not_applicable, duplicate_handling_tag, invalid_dot_hazard_class,
  dot_hazard_class_not_applicable, List, [], ◌∷◌, ◌++◌, is_empty, and_then, select, str_eq, ◌==◌,
  if◌then◌else◌,
}
use inventory_storage.Shared.Int.{Int64, less}
use inventory_storage.Shared.Events.{Time, DomainEvent, product_classified}

abbrev pub HandlingTag : Type 0
HandlingTag = String

abbrev pub hazmat : HandlingTag
hazmat = "Hazmat"

abbrev pub fragile : HandlingTag
fragile = "Fragile"

abbrev pub temperature_sensitive : HandlingTag
temperature_sensitive = "TemperatureSensitive"

abbrev pub oversized : HandlingTag
oversized = "Oversized"

abbrev pub high_value : HandlingTag
high_value = "HighValue"

unfoldable pub is_handling_tag : String → Bool
is_handling_tag s =
    str_eq s hazmat
    || str_eq s fragile
    || str_eq s temperature_sensitive
    || str_eq s oversized
    || str_eq s high_value

unfoldable pub parse_handling_tag : String → Result HandlingTag
unfolding is_handling_tag
parse_handling_tag value = if is_handling_tag value then ok value else err unknown_handling_tag

abbrev pub TemperatureClass : Type 0
TemperatureClass = String

unfoldable pub is_temperature_class : String → Bool
is_temperature_class s = str_eq s "Ambient" || str_eq s "Chilled" || str_eq s "Frozen"

unfoldable pub parse_temperature_class : String → Result TemperatureClass
unfolding is_temperature_class
parse_temperature_class value =
    if is_temperature_class value then ok value else err unknown_temperature_class

abbrev pub DotHazardClass : Type 0
DotHazardClass = Int64

-- `DOTHazardClassUnspecified`
abbrev pub unspecified : DotHazardClass
unspecified = 0

unfoldable pub parse_dot_hazard_class : Int64 → Result DotHazardClass
parse_dot_hazard_class value =
    if less value 1 || less 9 value then err invalid_dot_hazard_class else ok value

pub record ProductClassification : Type 0 where
  pub sku : String
  pub handling_tags : List HandlingTag
  pub temperature_class : TemperatureClass
  pub dot_hazard_class : DotHazardClass

-- `_, exists := set[tag]`
unfoldable pub contains : HandlingTag → List HandlingTag → Bool
contains tag [] = false
contains tag (t ∷ set) = str_eq t tag || contains tag set

-- The loop of `New` over the tags, with the set that it builds.
unfoldable pub collect : List HandlingTag → List HandlingTag → Result (List HandlingTag)
unfolding parse_handling_tag contains
collect set [] = ok set
collect set (tag ∷ rest) =
    let later = collect (set ++ tag ∷ []) rest in
    and_then (parse_handling_tag tag)
      λ t. if contains tag set then err duplicate_handling_tag else later

-- The rule that ties the temperature class to its tag.
unfoldable pub check_temperature : List HandlingTag → TemperatureClass → Result (Unit {0})
unfolding contains parse_temperature_class
check_temperature set tc =
    if contains temperature_sensitive set
    then if str_eq tc ""
      then err temperature_class_required
      else and_then (parse_temperature_class tc) (λ t. ok tt)
    else if str_eq tc ""
    then ok tt
    else err temperature_class_not_applicable

-- The rule that ties the DOT hazard class to the hazmat tag.
unfoldable pub check_hazard : List HandlingTag → DotHazardClass → Result (Unit {0})
unfolding contains parse_dot_hazard_class
check_hazard set dot =
    if dot == unspecified
    then ok tt
    else if contains hazmat set
    then and_then (parse_dot_hazard_class dot) (λ c. ok tt)
    else err dot_hazard_class_not_applicable

-- The rest of `New`, once the set is built.
unfoldable pub assemble :
    String → TemperatureClass → DotHazardClass → List HandlingTag → Result ProductClassification
unfolding check_temperature check_hazard
assemble sku tc dot set = and_then (check_temperature set tc) λ t.
    and_then (check_hazard set dot) λ h.
      ok (record { sku = sku; handling_tags = set; temperature_class = tc; dot_hazard_class = dot })

-- `New`
unfoldable pub new :
    String → List HandlingTag → TemperatureClass → DotHazardClass → Result ProductClassification
unfolding collect assemble
new sku tags tc dot =
    if str_eq sku ""
    then err empty_sku
    else if is_empty tags
    then err no_handling_tags
    else and_then (collect [] tags) (assemble sku tc dot)

-- The set that `Rehydrate` builds: a tag that comes twice is there once.
unfoldable pub tag_set : List HandlingTag → List HandlingTag → List HandlingTag
unfolding contains
tag_set set [] = set
tag_set set (tag ∷ rest) = tag_set (if contains tag set then set else set ++ tag ∷ []) rest

unfoldable pub rehydrate :
    String → List HandlingTag → TemperatureClass → DotHazardClass → ProductClassification
unfolding tag_set
rehydrate sku tags tc dot = record {
  sku = sku;
  handling_tags = tag_set [] tags;
  temperature_class = tc;
  dot_hazard_class = dot;
}

-- `HasTag`, `IsHazmat` and `IsTemperatureSensitive`
unfoldable pub has_tag : ProductClassification → HandlingTag → Bool
unfolding contains
has_tag c tag = contains tag c.handling_tags

unfoldable pub is_hazmat : ProductClassification → Bool
unfolding has_tag
is_hazmat c = has_tag c hazmat

unfoldable pub is_temperature_sensitive : ProductClassification → Bool
unfolding has_tag
is_temperature_sensitive c = has_tag c temperature_sensitive

-- `HandlingTags`: the members in the order of the enumeration.
unfoldable pub handling_tags : ProductClassification → List HandlingTag
unfolding contains
handling_tags c =
    select (λ tag. contains tag c.handling_tags)
      (hazmat ∷ fragile ∷ temperature_sensitive ∷ oversized ∷ high_value ∷ [])

-- What facility-layout says of the slot behind a bin.
pub record SlotAttributes : Type 0 where
  pub hazmat_rated : Bool
  pub temperature_class : TemperatureClass
  pub known : Bool

-- `NewProductClassified`
unfoldable pub new_product_classified : ProductClassification → Time → DomainEvent
unfolding handling_tags
new_product_classified c at =
    product_classified at c.sku (handling_tags c) c.temperature_class c.dot_hazard_class
