-- ===== src/Shape/Prune.antt =====
-- output-shape.ts: `pruneShape` and `fitShape`. A depth is the number of levels that are kept.
pub mod Sound
use mcp_adapter.Prelude.{
  ℕ, zero, suc, String, Option, none, some, List, ◌∷◌, Bool, if◌then◌else◌, leb,
}
use mcp_adapter.Shape.{
  OutputShape, unknown, one, any_of, Variant, scalar, array_empty, array_of, object, map_of,
  Variants, no_variants, variant, Properties, no_properties, property, max_depth,
}

-- `{ anyOf: variants }`, or `{}` where a variant is unknown.
abbrev pub any_pruned : Option Variants → OutputShape
any_pruned none = unknown
any_pruned (some vs) = any_of vs

abbrev pub both : OutputShape → Option Variants → Option Variants
both (one v) (some vs) = some (variant v vs)
both s vs = none

unfoldable mutual
  pub prune : ℕ → OutputShape → OutputShape
  prune levels unknown = unknown
  prune levels (one v) = prune_variant levels v
  prune levels (any_of vs) = any_pruned (prune_variants levels vs)

  pub prune_variant : ℕ → Variant → OutputShape
  prune_variant levels (scalar a) = one (scalar a)
  prune_variant zero v = unknown
  prune_variant (suc levels) array_empty = one array_empty
  prune_variant (suc levels) (array_of s) = one (array_of (prune levels s))
  prune_variant (suc levels) (object ps required) =
      one (object (prune_properties levels ps) required)
  prune_variant (suc levels) (map_of s) = one (map_of (prune levels s))

  pub prune_variants : ℕ → Variants → Option Variants
  prune_variants levels no_variants = some no_variants
  prune_variants levels (variant v vs) = both (prune_variant levels v) (prune_variants levels vs)

  pub prune_properties : ℕ → Properties → Properties
  prune_properties levels no_properties = no_properties
  prune_properties levels (property k s ps) =
      property k (prune levels s) (prune_properties levels ps)

abbrev pub max_shape_chars : ℕ
max_shape_chars = 4096

-- `renderOutputShape(shape).length` is a parameter: what is proved holds of any rendering.
module _ (rendered_length : OutputShape → ℕ) where
  -- The loop from a depth down.
  unfoldable pub fit_from : ℕ → OutputShape → OutputShape
  unfolding prune
  fit_from zero s = unknown
  fit_from (suc d) s =
      let rest = fit_from d s in
      if leb (rendered_length (prune (suc d) s)) max_shape_chars then prune (suc d) s else rest

  unfoldable pub fit_shape : OutputShape → OutputShape
  unfolding fit_from
  fit_shape s = fit_from max_depth s
