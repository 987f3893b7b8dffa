-- ===== src/Shape/Describes.antt =====
-- What a shape says of a whole value, every item of an array and every member of an object included.
use mcp_adapter.Prelude.{
  Bool, true, false, ◌&&◌, ◌||◌, Option, none, some, List, contains, all, map,
}
use mcp_adapter.Json.{Value, bool, num, str, arr, obj, no_elements, Members, keys, items, own, prop}
use mcp_adapter.Shape.{
  OutputShape, unknown, one, any_of, Variant, Scalar, scalar, boolean, number, string, array_empty,
  array_of, object, map_of, Variants, no_variants, variant, Properties, no_properties, property,
  keys_of,
}

-- `record[key]` for each key.
abbrev pub values : Members → List Value
values ms = map (λ k. prop k ms) (keys ms)

abbrev pub describes_own : (Value → Bool) → Option Value → Bool
describes_own test none = true
describes_own test (some v) = test v

abbrev pub describes_scalar : Scalar → Value → Bool
describes_scalar Scalar.null Value.null = true
describes_scalar boolean (bool b) = true
describes_scalar number (num n) = true
describes_scalar string (str s) = true
describes_scalar _ _ = false

unfoldable mutual
  unfolding contains

  pub describes : OutputShape → Value → Bool
  describes unknown v = true
  describes (one x) v = describes_variant x v
  describes (any_of xs) v = describes_some xs v

  pub describes_variant : Variant → Value → Bool
  describes_variant (scalar a) v = describes_scalar a v
  describes_variant array_empty (arr no_elements) = true
  describes_variant (array_of s) (arr vs) = all (λ v. describes s v) (items vs)
  describes_variant (object ps required) (obj ms) =
      all (λ k. contains k (keys_of ps)) (keys ms)
      && all (λ k. contains k (keys ms)) required
      && describes_properties ps ms
  describes_variant (map_of s) (obj ms) = all (λ v. describes s v) (values ms)
  describes_variant x v = false

  pub describes_some : Variants → Value → Bool
  describes_some no_variants v = false
  describes_some (variant x xs) v = describes_variant x v || describes_some xs v

  -- The value of each property that is there is described by the property's shape.
  pub describes_properties : Properties → Members → Bool
  describes_properties no_properties ms = true
  describes_properties (property k s ps) ms =
      let rest = describes_properties ps ms in describes_own (λ v. describes s v) (own k ms) && rest
