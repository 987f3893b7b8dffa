-- ===== src/Shape/Merge/Bounds.antt =====
-- Shapes, properties and variants within a depth.
pub mod Steps
use mcp_adapter.Prelude.{
  ℕ, zero, suc, String, Bool, true, Option, none, some, List, [], ◌∷◌, ◌++◌, ◌==◌, ◌≡◌, refl, arith,
  inl, inr, ltb, leb, length, contains, all, and→both, Bool-cases,
}
use mcp_adapter.Shape.{
  OutputShape, unknown, one, any_of, Variant, array_empty, array_of, object, map_of, Variants,
  no_variants, variant, Properties, no_properties, property, variants_list, variants_of, keys_of,
  shapes_of, lookup, same_type, max_union, max_object_keys, depth, depth_variant, depth_variants,
  depth_properties,
}
use mcp_adapter.Shape.Merge.{
  is_inherited, one_sided, new_properties, join, reduce_from, reduce, merge_with, merge_left,
  merge_properties, merge_same_type, add_variant, add_variants, as_shape, merge_step, merge_within,
}

abbrev pub is_below : ℕ → OutputShape → Bool
is_below k s = ltb (depth s) k

abbrev pub all_below : ℕ → List OutputShape → Bool
all_below k ss = all (is_below k) ss

abbrev pub fits : ℕ → Variant → Bool
fits k v = leb (depth_variant v) k

abbrev pub all_fit : ℕ → List Variant → Bool
all_fit k vs = all (fits k) vs

-- The merge of two shapes below a depth is below it.
unfoldable pub IsClosed : ℕ → (OutputShape → OutputShape → OutputShape) → Type 0
IsClosed k f =
    (s t : OutputShape) → is_below k s ≡ true → is_below k t ≡ true → is_below k (f s t) ≡ true

pub all_below-append :
    (k : ℕ) (ss ts : List OutputShape)
    → all_below k ss ≡ true
    → all_below k ts ≡ true
    → all_below k (ss ++ ts) ≡ true
all_below-append k [] ts a b = b
all_below-append k (s ∷ ss) ts a b =
    let h = and→both (is_below k s) (all_below k ss) a in
    let rest = all_below-append k ss ts h.1 b in ground (arith, h.0, rest)

pub below-properties :
    (k : ℕ) (ps : Properties)
    → ltb (depth_properties ps) k ≡ true
    → all_below k (shapes_of ps) ≡ true
unfolding depth
below-properties k no_properties h = refl
below-properties k (property j s ps) h =
    let rest = below-properties k ps (ground (arith, h)) in ground (arith, h, rest)

pub properties-below :
    (k : ℕ) (ps : Properties)
    → ltb 0 k ≡ true
    → all_below k (shapes_of ps) ≡ true
    → ltb (depth_properties ps) k ≡ true
unfolding depth
properties-below k no_properties z h = z
properties-below k (property j s ps) z h =
    let b = and→both (is_below k s) (all_below k (shapes_of ps)) h in
    let rest = properties-below k ps z b.1 in ground (arith, b.0, rest)

pub below-lookup :
    (k : ℕ) (j : String) (qs : Properties) (t : OutputShape)
    → all_below k (shapes_of qs) ≡ true
    → lookup j qs ≡ some t
    → is_below k t ≡ true
below-lookup k j no_properties t h e = cc
below-lookup k j (property i s qs) t h e =
    let b = and→both (is_below k s) (all_below k (shapes_of qs)) h in
    elim (Bool-cases (i == j)) [
      | inl same ↦ ground (arith, e, same, b.0)
      | inr other ↦ below-lookup k j qs t b.1 (ground (arith, e, other))
    ]

below-one_sided :
    (k : ℕ) (j : String) (s : OutputShape) → is_below k s ≡ true → is_below k (one_sided j s) ≡ true
unfolding one_sided depth
below-one_sided k j s h = elim (Bool-cases (is_inherited j)) [
  | inl inherited ↦ rw inherited (ground (arith, h))
  | inr own ↦ rw own h
]

below-new_properties :
    (k : ℕ) (ps qs : Properties)
    → all_below k (shapes_of qs) ≡ true
    → all_below k (shapes_of (new_properties ps qs)) ≡ true
unfolding new_properties
below-new_properties k ps no_properties h = refl
below-new_properties k ps (property j s qs) h =
    let b = and→both (is_below k s) (all_below k (shapes_of qs)) h in
    let rest = below-new_properties k ps qs b.1 in
    elim (Bool-cases (contains j (keys_of ps))) [
      | inl has ↦ rw has rest
      | inr new ↦ rw new (ground (arith, below-one_sided k j s b.0, rest))
    ]

below-join :
    (k : ℕ) (ps qs : Properties)
    → all_below k (shapes_of ps) ≡ true
    → all_below k (shapes_of qs) ≡ true
    → all_below k (shapes_of (join ps qs)) ≡ true
unfolding join
below-join k no_properties qs a b = b
below-join k (property j s ps) qs a b =
    let h = and→both (is_below k s) (all_below k (shapes_of ps)) a in
    let rest = below-join k ps qs h.1 b in ground (arith, h.0, rest)
