-- ===== src/Shape/Merge.antt =====
-- output-shape.ts: `mergeShapes` and `mergeSameType`. They call each other on the parts of shapes,
-- and on what such calls return, so the recursion is on fuel: one unit more than the nesting of
-- the two shapes, which is enough.
pub mod Reduce
pub mod Keys
pub mod Objects
pub mod SameType
pub mod Sound
pub mod Bounds
pub mod Enough
use mcp_adapter.Prelude.{
  ℕ, zero, suc, ◌+◌, max, String, Bool, true, false, not, ◌&&◌, ◌||◌, Option, none, some, List, [],
  ◌∷◌, ◌++◌, ◌==◌, if◌then◌else◌, ltb, length, contains, keep,
}
use mcp_adapter.Shape.{
  OutputShape, unknown, one, any_of, Variant, scalar, array_empty, array_of, object, map_of,
  Variants, Properties, no_properties, property, variants_list, variants_of, keys_of, shapes_of,
  lookup, same_type, max_union, max_object_keys, depth,
}

-- `Object.prototype` has a member of this name, which a read of a property finds where the object has
-- none of its own. (`__proto__` is no property of a shape.)
abbrev is_inherited : String → Bool
is_inherited k = contains k (
    "constructor" ∷ "hasOwnProperty" ∷ "isPrototypeOf" ∷ "propertyIsEnumerable" ∷ "toLocaleString"
    ∷ "toString" ∷ "valueOf" ∷ "__defineGetter__" ∷ "__defineSetter__" ∷ "__lookupGetter__"
    ∷ "__lookupSetter__" ∷ [])

-- A property that one side has: it stays as it is, or it is merged with what the other side inherits,
-- which has neither a type nor variants, so that nothing is known any more.
one_sided : String → OutputShape → OutputShape
one_sided k s = if is_inherited k then unknown else s

-- The properties of the right that the left has not.
new_properties : Properties → Properties → Properties
unfolding one_sided contains
new_properties base no_properties = no_properties
new_properties base (property k s qs) =
    let rest = new_properties base qs in
    if contains k (keys_of base) then rest else property k (one_sided k s) rest

join : Properties → Properties → Properties
join no_properties qs = qs
join (property k s ps) qs = property k s (join ps qs)

module _ (merge : OutputShape → OutputShape → OutputShape) where
  -- `values.reduce(mergeShapes)`; the code calls it on values there are.
  reduce_from : OutputShape → List OutputShape → OutputShape
  reduce_from s [] = s
  reduce_from s (t ∷ ts) = reduce_from (merge s t) ts

  unfoldable pub reduce : List OutputShape → OutputShape
  unfolding reduce_from
  reduce [] = unknown
  reduce (s ∷ ss) = reduce_from s ss

  merge_with : String → OutputShape → Option OutputShape → OutputShape
  unfolding one_sided
  merge_with k s none = one_sided k s
  merge_with k s (some t) = merge s t

  -- The properties of the left, each merged with the right's of the same name.
  merge_left : Properties → Properties → Properties
  unfolding merge_with
  merge_left no_properties qs = no_properties
  merge_left (property k s ps) qs = property k (merge_with k s (lookup k qs)) (merge_left ps qs)

  unfoldable pub merge_properties : Properties → Properties → Properties
  unfolding merge_left new_properties join
  merge_properties ps qs = join (merge_left ps qs) (new_properties ps qs)

  unfoldable pub merge_same_type : Variant → Variant → Variant
  unfolding merge_properties reduce contains
  merge_same_type (array_of s) (array_of t) = array_of (merge s t)
  merge_same_type array_empty (array_of t) = array_of t
  merge_same_type (object ps required) (object qs also) =
      if ltb max_object_keys (length (keys_of (merge_properties ps qs)))
      then map_of (reduce (shapes_of ps ++ shapes_of qs))
      else object (merge_properties ps qs) (keep (λ k. contains k also) required)
  merge_same_type (object ps required) (map_of t) = map_of (reduce (t ∷ shapes_of ps))
  merge_same_type (map_of s) (object qs also) = map_of (reduce (s ∷ shapes_of qs))
  merge_same_type (map_of s) (map_of t) = map_of (reduce (s ∷ t ∷ []))
  merge_same_type left right = left

  -- One round of the loop over the right's variants.
  pub add_variant : List Variant → Variant → List Variant
  unfolding merge_same_type
  add_variant [] v = v ∷ []
  add_variant (x ∷ xs) v = if same_type x v then merge_same_type x v ∷ xs else x ∷ add_variant xs v

  add_variants : List Variant → List Variant → List Variant
  unfolding add_variant
  add_variants xs [] = xs
  add_variants xs (v ∷ vs) = add_variants (add_variant xs v) vs

  as_shape : List Variant → OutputShape
  as_shape (v ∷ []) = one v
  as_shape vs = if ltb max_union (length vs) then unknown else any_of (variants_of vs)

  -- One call of `mergeShapes`.
  unfoldable pub merge_step : OutputShape → OutputShape → OutputShape
  unfolding add_variants as_shape
  merge_step (one v) (one w) = as_shape (add_variants (v ∷ []) (w ∷ []))
  merge_step (one v) (any_of ws) = as_shape (add_variants (v ∷ []) (variants_list ws))
  merge_step (any_of vs) (one w) = as_shape (add_variants (variants_list vs) (w ∷ []))
  merge_step (any_of vs) (any_of ws) = as_shape (add_variants (variants_list vs) (variants_list ws))
  merge_step left right = unknown

unfoldable pub merge_within : ℕ → OutputShape → OutputShape → OutputShape
unfolding merge_step
merge_within zero left right = unknown
merge_within (suc fuel) left right = merge_step (merge_within fuel) left right

unfoldable pub merge_shapes : OutputShape → OutputShape → OutputShape
unfolding merge_within depth
merge_shapes left right = merge_within (suc (max (depth left) (depth right))) left right
