-- ===== src/Shape.antt =====
-- output-shape.ts: the shapes that are learned from the results of tools, and their merging.
pub mod Infer
pub mod Prune
pub mod Describes
pub mod Merge
pub mod Seen
pub mod Sound
pub mod Observe
mod Tests
use mcp_adapter.Prelude.{
  ℕ, suc, ◌+◌, max, String, Bool, true, false, not, ◌&&◌, ◌||◌, Option, none, some, List, [], ◌∷◌,
  ◌++◌, ◌==◌, if◌then◌else◌, ltb, leb, length, contains, keep,
}

-- The types without parts.
pub data Scalar : Type 0 where
  null boolean number string : Scalar

-- The JSON schema objects that the code builds. Its unions are flat: a variant of a union has a
-- type. `array_empty` is the array type without `items`, and an object has either `properties` with
-- `required`, or `additionalProperties`.
mutual
  pub data OutputShape : Type 0 where
    unknown : OutputShape
    one : Variant → OutputShape
    any_of : Variants → OutputShape

  pub data Variant : Type 0 where
    scalar : Scalar → Variant
    array_empty : Variant
    array_of : (items : OutputShape) → Variant
    object : (properties : Properties) (required : List String) → Variant
    map_of : (additional : OutputShape) → Variant

  pub data Variants : Type 0 where
    no_variants : Variants
    variant : Variant → Variants → Variants

  pub data Properties : Type 0 where
    no_properties : Properties
    property : (key : String) (shape : OutputShape) → Properties → Properties

abbrev pub max_depth : ℕ
max_depth = 6

abbrev pub max_array_sample : ℕ
max_array_sample = 5

abbrev pub max_object_keys : ℕ
max_object_keys = 40

abbrev pub max_union : ℕ
max_union = 4

-- The members of a union as a list, and back.
abbrev pub variants_list : Variants → List Variant
variants_list no_variants = []
variants_list (variant v vs) = v ∷ variants_list vs

abbrev pub variants_of : List Variant → Variants
variants_of [] = no_variants
variants_of (v ∷ vs) = variant v (variants_of vs)

abbrev pub keys_of : Properties → List String
keys_of no_properties = []
keys_of (property k s ps) = k ∷ keys_of ps

abbrev pub shapes_of : Properties → List OutputShape
shapes_of no_properties = []
shapes_of (property k s ps) = s ∷ shapes_of ps

abbrev pub lookup : String → Properties → Option OutputShape
lookup k no_properties = none
lookup k (property j s ps) = if j == k then some s else lookup k ps

-- `existing.type === variant.type`
abbrev pub scalar_beq : Scalar → Scalar → Bool
scalar_beq null null = true
scalar_beq boolean boolean = true
scalar_beq number number = true
scalar_beq string string = true
scalar_beq _ _ = false

abbrev pub is_array : Variant → Bool
is_array array_empty = true
is_array (array_of items) = true
is_array _ = false

abbrev pub is_object : Variant → Bool
is_object (object ps required) = true
is_object (map_of s) = true
is_object _ = false

abbrev pub same_type : Variant → Variant → Bool
same_type (scalar a) (scalar b) = scalar_beq a b
same_type (scalar a) _ = false
same_type array_empty v = is_array v
same_type (array_of items) v = is_array v
same_type (object ps required) v = is_object v
same_type (map_of s) v = is_object v

-- The nesting of a shape.
unfoldable mutual
  pub depth : OutputShape → ℕ
  depth unknown = 0
  depth (one v) = depth_variant v
  depth (any_of vs) = depth_variants vs

  pub depth_variant : Variant → ℕ
  depth_variant (scalar a) = 0
  depth_variant array_empty = 0
  depth_variant (array_of items) = suc (depth items)
  depth_variant (object ps required) = suc (depth_properties ps)
  depth_variant (map_of s) = suc (depth s)

  pub depth_variants : Variants → ℕ
  depth_variants no_variants = 0
  depth_variants (variant v vs) = max (depth_variant v) (depth_variants vs)

  pub depth_properties : Properties → ℕ
  depth_properties no_properties = 0
  depth_properties (property k s ps) = max (depth s) (depth_properties ps)
