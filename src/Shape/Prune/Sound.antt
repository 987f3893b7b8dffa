-- ===== src/Shape/Prune/Sound.antt =====
-- Pruning keeps to its depth and to its size, and only widens a shape.
use mcp_adapter.Prelude.{
  ℕ, zero, suc, ◌≤◌, max, String, Bool, true, Option, none, some, List, ◌∷◌, ◌≡◌, ◌⊎◌, refl, subst,
  sym, ap, arith, inl, inr, leb, leb→le, contains, all, and→both, or→either, Bool-cases,
}
use mcp_adapter.Json.{Value, Members, obj, keys, own}
use mcp_adapter.Shape.{
  OutputShape, unknown, one, any_of, Variant, scalar, array_empty, array_of, object, map_of,
  Variants, no_variants, variant, Properties, no_properties, property, keys_of, depth,
  depth_variant, depth_variants, depth_properties, max_depth,
}
use mcp_adapter.Shape.Describes.{
  describes, describes_variant, describes_some, describes_properties, describes_own,
}
use mcp_adapter.Shape.Merge.SameType.{
  IsRecordOf, IsRecordOf-object, array_of-imp, map_of-imp, object-imp,
}
use mcp_adapter.Shape.Prune.{
  any_pruned, both, prune, prune_variant, prune_variants, prune_properties, max_shape_chars,
  fit_from, fit_shape,
}

max_le : (a b n : ℕ) → a ≤ n → b ≤ n → max a b ≤ n
max_le a b n p q = omega arith

depth-both :
    (n : ℕ) (s : OutputShape) (vs : Option Variants)
    → depth s ≤ n
    → depth (any_pruned vs) ≤ n
    → depth (any_pruned (both s vs)) ≤ n
unfolding depth
depth-both n unknown vs p q = omega arith
depth-both n (any_of ws) vs p q = omega arith
depth-both n (one v) none p q = omega arith
depth-both n (one v) (some vs) p q = max_le (depth_variant v) (depth_variants vs) n p q

mutual
  unfolding prune depth

  -- What is left of a shape has the depth that it is pruned to at most.
  pub depth-prune : (n : ℕ) (s : OutputShape) → depth (prune n s) ≤ n
  depth-prune n unknown = omega arith
  depth-prune n (one v) = depth-prune_variant n v
  depth-prune n (any_of vs) = depth-prune_variants n vs

  depth-prune_variant : (n : ℕ) (v : Variant) → depth (prune_variant n v) ≤ n
  depth-prune_variant n (scalar a) = omega arith
  depth-prune_variant zero array_empty = omega arith
  depth-prune_variant zero (array_of s) = omega arith
  depth-prune_variant zero (object ps required) = omega arith
  depth-prune_variant zero (map_of s) = omega arith
  depth-prune_variant (suc n) array_empty = omega arith
  depth-prune_variant (suc n) (array_of s) = omega (arith, depth-prune n s)
  depth-prune_variant (suc n) (object ps required) = omega (arith, depth-prune_properties n ps)
  depth-prune_variant (suc n) (map_of s) = omega (arith, depth-prune n s)

  depth-prune_variants : (n : ℕ) (vs : Variants) → depth (any_pruned (prune_variants n vs)) ≤ n
  depth-prune_variants n no_variants = omega arith
  depth-prune_variants n (variant v vs) =
      depth-both n (prune_variant n v) (prune_variants n vs) (depth-prune_variant n v)
        (depth-prune_variants n vs)

  depth-prune_properties : (n : ℕ) (ps : Properties) → depth_properties (prune_properties n ps) ≤ n
  depth-prune_properties n no_properties = omega arith
  depth-prune_properties n (property k s ps) =
      max_le (depth (prune n s)) (depth_properties (prune_properties n ps)) n (depth-prune n s)
        (depth-prune_properties n ps)

keys_of-prune_properties : (n : ℕ) (ps : Properties) → keys_of (prune_properties n ps) ≡ keys_of ps
unfolding prune
keys_of-prune_properties n no_properties = refl
keys_of-prune_properties n (property k s ps) = ap (◌∷◌ k) (keys_of-prune_properties n ps)

both-describes :
    (s : OutputShape) (vs : Option Variants) (v : Value)
    → (describes s v ≡ true) ⊎ (describes (any_pruned vs) v ≡ true)
    → describes (any_pruned (both s vs)) v ≡ true
unfolding describes
both-describes unknown vs v h = refl
both-describes (any_of ws) vs v h = refl
both-describes (one w) none v h = refl
both-describes (one w) (some vs) v (inl h) = ground (arith, h)
both-describes (one w) (some vs) v (inr h) = ground (arith, h)

own-imp :
    (p q : Value → Bool) (o : Option Value)
    → ((v : Value) → p v ≡ true → q v ≡ true)
    → describes_own p o ≡ true
    → describes_own q o ≡ true
own-imp p q none h e = refl
own-imp p q (some v) h e = h v e

pruned-record :
    (n : ℕ) (ps : Properties) (required : List String) (ms : Members)
    → IsRecordOf ps required ms
    → describes_properties (prune_properties n ps) ms ≡ true
    → describes_variant (object (prune_properties n ps) required) (obj ms) ≡ true
unfolding IsRecordOf
pruned-record n ps required ms h d =
    let names : all (λ k. contains k (keys_of (prune_properties n ps))) (keys ms) ≡ true =
      subst (λ ks. all (λ k. contains k ks) (keys ms) ≡ true) (sym (keys_of-prune_properties n ps))
        h.0 in
    IsRecordOf-object (prune_properties n ps) required ms (names, h.1, d)

record-properties :
    (ps : Properties) (required : List String) (ms : Members)
    → IsRecordOf ps required ms
    → describes_properties ps ms ≡ true
unfolding IsRecordOf
record-properties ps required ms h = h.2

mutual
  unfolding prune describes

  -- A pruned shape describes all that the shape describes.
  pub prune-describes :
      (n : ℕ) (s : OutputShape) (v : Value) → describes s v ≡ true → describes (prune n s) v ≡ true
  prune-describes n unknown v h = refl
  prune-describes n (one x) v h = prune_variant-describes n x v h
  prune-describes n (any_of xs) v h = prune_variants-describes n xs v h

  prune_variant-describes :
      (n : ℕ) (x : Variant) (v : Value)
      → describes_variant x v ≡ true
      → describes (prune_variant n x) v ≡ true
  prune_variant-describes n (scalar a) v h = h
  prune_variant-describes zero array_empty v h = refl
  prune_variant-describes zero (array_of s) v h = refl
  prune_variant-describes zero (object ps required) v h = refl
  prune_variant-describes zero (map_of s) v h = refl
  prune_variant-describes (suc n) array_empty v h = h
  prune_variant-describes (suc n) (array_of s) v h =
      array_of-imp s (prune n s) (λ u e. prune-describes n s u e) v h
  prune_variant-describes (suc n) (object ps required) v h =
      object-imp ps required (object (prune_properties n ps) required)
        (λ ms r.
          pruned-record n ps required ms r
            (prune_properties-describes n ps ms (record-properties ps required ms r)))
        v h
  prune_variant-describes (suc n) (map_of s) v h =
      map_of-imp s (prune n s) (λ u e. prune-describes n s u e) v h

  prune_variants-describes :
      (n : ℕ) (xs : Variants) (v : Value)
      → describes_some xs v ≡ true
      → describes (any_pruned (prune_variants n xs)) v ≡ true
  prune_variants-describes n no_variants v h = cc
  prune_variants-describes n (variant x xs) v h =
      both-describes (prune_variant n x) (prune_variants n xs) v
        (elim (or→either (describes_variant x v) (describes_some xs v) h) [
          | inl here ↦ inl (prune_variant-describes n x v here)
          | inr later ↦ inr (prune_variants-describes n xs v later)
        ])

  prune_properties-describes :
      (n : ℕ) (ps : Properties) (ms : Members)
      → describes_properties ps ms ≡ true
      → describes_properties (prune_properties n ps) ms ≡ true
  prune_properties-describes n no_properties ms h = refl
  prune_properties-describes n (property k s ps) ms h =
      let b =
        and→both (describes_own (λ w. describes s w) (own k ms)) (describes_properties ps ms) h in
      let here =
        own-imp (λ w. describes s w) (λ w. describes (prune n s) w) (own k ms)
          (λ u e. prune-describes n s u e) b.0 in
      ground (arith, here, prune_properties-describes n ps ms b.1)

module _ (rendered_length : OutputShape → ℕ) where
  fit_from-describes :
      (d : ℕ) (s : OutputShape) (v : Value)
      → describes s v ≡ true
      → describes (fit_from rendered_length d s) v ≡ true
  unfolding fit_from describes
  fit_from-describes zero s v h = refl
  fit_from-describes (suc d) s v h =
      elim (Bool-cases (leb (rendered_length (prune (suc d) s)) max_shape_chars)) [
        | inl fits ↦ rw fits (prune-describes (suc d) s v h)
        | inr wide ↦ rw wide (fit_from-describes d s v h)
      ]

  fit_from-bounds :
      (d : ℕ) (s : OutputShape)
      → (fit_from rendered_length d s ≡ unknown)
        ⊎ ((rendered_length (fit_from rendered_length d s) ≤ max_shape_chars)
            × (depth (fit_from rendered_length d s) ≤ d))
  unfolding fit_from
  fit_from-bounds zero s = inl refl
  fit_from-bounds (suc d) s =
      elim (Bool-cases (leb (rendered_length (prune (suc d) s)) max_shape_chars)) [
        | inl fits ↦ rw fits (
            inr (
              leb→le (rendered_length (prune (suc d) s)) max_shape_chars fits,
              depth-prune (suc d) s,
            ))
        | inr wide ↦ rw wide (elim (fit_from-bounds d s) [
          | inl none_fits ↦ inl none_fits
          | inr (fits, low) ↦ inr (fits, omega arith)
        ])
      ]

  -- Where a shape describes a value, so does what is kept of the shape to fit. It is the unknown shape, or its
  -- rendering has at most 4096 characters and its depth is at most 6.
  pub fit_shape-bounds :
      (s : OutputShape) (v : Value)
      → describes s v ≡ true
      → (describes (fit_shape rendered_length s) v ≡ true)
        × ((fit_shape rendered_length s ≡ unknown)
            ⊎ ((rendered_length (fit_shape rendered_length s) ≤ max_shape_chars)
                × (depth (fit_shape rendered_length s) ≤ max_depth)))
  unfolding fit_shape
  fit_shape-bounds s v h = (fit_from-describes max_depth s v h, fit_from-bounds max_depth s)
