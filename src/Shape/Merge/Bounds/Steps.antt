-- ===== src/Shape/Merge/Bounds/Steps.antt =====
-- A merged shape is no deeper than the shapes that are merged.
use mcp_adapter.Prelude.{
  ℕ, zero, suc, String, true, Option, none, some, List, [], ◌∷◌, ◌++◌, ◌≡◌, refl, arith, inl, inr,
  ltb, leb, length, and→both, Bool-cases,
}
use mcp_adapter.Shape.{
  OutputShape, unknown, one, any_of, Variant, array_empty, array_of, object, map_of, Variants,
  no_variants, variant, Properties, no_properties, property, variants_list, variants_of, keys_of,
  shapes_of, lookup, same_type, max_union, max_object_keys, depth, depth_variants,
}
use mcp_adapter.Shape.Merge.{
  new_properties, reduce_from, reduce, merge_with, merge_left, merge_properties, merge_same_type,
  add_variant, add_variants, as_shape, merge_step, merge_within,
}
use mcp_adapter.Shape.Merge.Bounds.{
  is_below, all_below, fits, all_fit, IsClosed, all_below-append, below-properties,
  properties-below, below-lookup, below-one_sided, below-new_properties, below-join,
}

module _ (k : ℕ) (f : OutputShape → OutputShape → OutputShape) (closed : IsClosed k f) where
  below-reduce_from :
      (s : OutputShape) (ss : List OutputShape)
      → is_below k s ≡ true
      → all_below k ss ≡ true
      → is_below k (reduce_from f s ss) ≡ true
  unfolding reduce_from IsClosed
  below-reduce_from s [] a b = a
  below-reduce_from s (t ∷ ts) a b =
      let h = and→both (is_below k t) (all_below k ts) b in
      below-reduce_from (f s t) ts (closed s t a h.0) h.1

  below-reduce :
      (ss : List OutputShape)
      → ltb 0 k ≡ true
      → all_below k ss ≡ true
      → is_below k (reduce f ss) ≡ true
  unfolding reduce depth
  below-reduce [] z h = z
  below-reduce (s ∷ ss) z h =
      let b = and→both (is_below k s) (all_below k ss) h in below-reduce_from s ss b.0 b.1

  below-merge_with :
      (s : OutputShape) (j : String) (qs : Properties)
      → is_below k s ≡ true
      → all_below k (shapes_of qs) ≡ true
      → (o : Option OutputShape) → lookup j qs ≡ o
      → is_below k (merge_with f j s o) ≡ true
  unfolding merge_with IsClosed
  below-merge_with s j qs a b none e = below-one_sided k j s a
  below-merge_with s j qs a b (some t) e = closed s t a (below-lookup k j qs t b e)

  below-merge_left :
      (ps qs : Properties)
      → all_below k (shapes_of ps) ≡ true
      → all_below k (shapes_of qs) ≡ true
      → all_below k (shapes_of (merge_left f ps qs)) ≡ true
  unfolding merge_left
  below-merge_left no_properties qs a b = refl
  below-merge_left (property j s ps) qs a b =
      let h = and→both (is_below k s) (all_below k (shapes_of ps)) a in
      let here = below-merge_with s j qs h.0 b (lookup j qs) refl in
      let rest = below-merge_left ps qs h.1 b in ground (arith, here, rest)

  below-merge_properties :
      (ps qs : Properties)
      → all_below k (shapes_of ps) ≡ true
      → all_below k (shapes_of qs) ≡ true
      → all_below k (shapes_of (merge_properties f ps qs)) ≡ true
  unfolding merge_properties
  below-merge_properties ps qs a b =
      below-join k (merge_left f ps qs) (new_properties ps qs) (below-merge_left ps qs a b)
        (below-new_properties k ps qs b)

  fits-reduce :
      (ss : List OutputShape)
      → ltb 0 k ≡ true
      → all_below k ss ≡ true
      → fits k (map_of (reduce f ss)) ≡ true
  unfolding depth
  fits-reduce ss z h = ground (arith, below-reduce ss z h)

  fits-merge_same_type :
      (x w : Variant) → fits k x ≡ true → fits k w ≡ true → fits k (merge_same_type f x w) ≡ true
  unfolding merge_same_type depth IsClosed
  fits-merge_same_type (array_of s) (array_of t) a b =
      ground (arith, closed s t (ground (arith, a)) (ground (arith, b)))
  fits-merge_same_type array_empty (array_of t) a b = b
  fits-merge_same_type (object ps required) (object qs also) a b =
      let z : ltb 0 k ≡ true = ground (arith, a) in
      let p = below-properties k ps (ground (arith, a)) in
      let q = below-properties k qs (ground (arith, b)) in
      elim (Bool-cases (ltb max_object_keys (length (keys_of (merge_properties f ps qs))))) [
        | inl wide ↦ rw wide (
            fits-reduce (shapes_of ps ++ shapes_of qs) z
              (all_below-append k (shapes_of ps) (shapes_of qs) p q))
        | inr narrow ↦ rw narrow (
            ground (
              arith,
              properties-below k (merge_properties f ps qs) z (below-merge_properties ps qs p q),
            ))
      ]
  fits-merge_same_type (object ps required) (map_of t) a b =
      let p = below-properties k ps (ground (arith, a)) in
      fits-reduce (t ∷ shapes_of ps) (ground (arith, a)) (ground (arith, b, p))
  fits-merge_same_type (map_of s) (object qs also) a b =
      let q = below-properties k qs (ground (arith, b)) in
      fits-reduce (s ∷ shapes_of qs) (ground (arith, a)) (ground (arith, a, q))
  fits-merge_same_type (map_of s) (map_of t) a b =
      fits-reduce (s ∷ t ∷ []) (ground (arith, a)) (ground (arith, a, b))
  fits-merge_same_type x w a b = a

  pub fit-add_variant :
      (xs : List Variant) (w : Variant)
      → all_fit k xs ≡ true
      → fits k w ≡ true
      → all_fit k (add_variant f xs w) ≡ true
  unfolding add_variant
  fit-add_variant [] w a b = ground (arith, b)
  fit-add_variant (x ∷ xs) w a b =
      let h = and→both (fits k x) (all_fit k xs) a in
      elim (Bool-cases (same_type x w)) [
        | inl same ↦ rw same (ground (arith, h.1, fits-merge_same_type x w h.0 b))
        | inr other ↦ rw other (ground (arith, h.0, fit-add_variant xs w h.1 b))
      ]

  fit-add_variants :
      (xs ws : List Variant)
      → all_fit k xs ≡ true
      → all_fit k ws ≡ true
      → all_fit k (add_variants f xs ws) ≡ true
  unfolding add_variants
  fit-add_variants xs [] a b = a
  fit-add_variants xs (w ∷ ws) a b =
      let h = and→both (fits k w) (all_fit k ws) b in
      fit-add_variants (add_variant f xs w) ws (fit-add_variant xs w a h.0) h.1

  variants_of-fit :
      (xs : List Variant) → all_fit k xs ≡ true → leb (depth_variants (variants_of xs)) k ≡ true
  unfolding depth
  variants_of-fit [] a = ground arith
  variants_of-fit (x ∷ xs) a =
      let h = and→both (fits k x) (all_fit k xs) a in
      let rest = variants_of-fit xs h.1 in ground (arith, h.0, rest)

  as_shape-below :
      (xs : List Variant) → all_fit k xs ≡ true → is_below (suc k) (as_shape f xs) ≡ true
  unfolding as_shape depth
  as_shape-below [] a = ground arith
  as_shape-below (x ∷ []) a = ground (arith, a)
  as_shape-below (x ∷ y ∷ xs) a =
      let all_of = variants_of-fit (x ∷ y ∷ xs) a in
      elim (Bool-cases (ltb max_union (length (x ∷ y ∷ xs)))) [
        | inl wide ↦ rw wide (ground arith)
        | inr few ↦ rw few (ground (arith, all_of))
      ]

pub fit-variants_list :
    (k : ℕ) (vs : Variants) → leb (depth_variants vs) k ≡ true → all_fit k (variants_list vs) ≡ true
unfolding depth
fit-variants_list k no_variants h = refl
fit-variants_list k (variant v vs) h =
    let rest = fit-variants_list k vs (ground (arith, h)) in ground (arith, h, rest)

module _ (k : ℕ) (f : OutputShape → OutputShape → OutputShape) (closed : IsClosed k f) where
  joined-below :
      (xs ws : List Variant)
      → all_fit k xs ≡ true
      → all_fit k ws ≡ true
      → is_below (suc k) (as_shape f (add_variants f xs ws)) ≡ true
  joined-below xs ws a b =
      as_shape-below k f closed (add_variants f xs ws) (fit-add_variants k f closed xs ws a b)

  pub merge_step-IsClosed : IsClosed (suc k) (merge_step f)
  unfolding IsClosed merge_step depth
  merge_step-IsClosed unknown t a b = ground arith
  merge_step-IsClosed (one x) unknown a b = ground arith
  merge_step-IsClosed (any_of xs) unknown a b = ground arith
  merge_step-IsClosed (one x) (one w) a b =
      joined-below (x ∷ []) (w ∷ []) (ground (arith, a)) (ground (arith, b))
  merge_step-IsClosed (one x) (any_of ws) a b =
      joined-below (x ∷ []) (variants_list ws) (ground (arith, a))
        (fit-variants_list k ws (ground (arith, b)))
  merge_step-IsClosed (any_of xs) (one w) a b =
      joined-below (variants_list xs) (w ∷ []) (fit-variants_list k xs (ground (arith, a)))
        (ground (arith, b))
  merge_step-IsClosed (any_of xs) (any_of ws) a b =
      joined-below (variants_list xs) (variants_list ws)
        (fit-variants_list k xs (ground (arith, a))) (fit-variants_list k ws (ground (arith, b)))

pub merge_within-IsClosed : (n k : ℕ) → IsClosed k (merge_within n)
unfolding IsClosed merge_within depth
merge_within-IsClosed zero k s t a b = ground (arith, a)
merge_within-IsClosed (suc n) zero s t a b = ground (arith, a)
merge_within-IsClosed (suc n) (suc k) s t a b =
    merge_step-IsClosed k (merge_within n) (merge_within-IsClosed n k) s t a b
