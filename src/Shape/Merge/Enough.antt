-- ===== src/Shape/Merge/Enough.antt =====
-- The fuel of `merge_shapes` is enough: it satisfies the equation of `mergeShapes`.
use mcp_adapter.Prelude.{
  ℕ, zero, suc, ◌≤◌, max, String, true, Option, none, some, List, [], ◌∷◌, ◌++◌, ◌≡◌, refl, ap, ap₂,
  ◌∙◌, arith, if◌then◌else◌, ltb, length, contains, keep, and→both,
}
use mcp_adapter.Shape.{
  OutputShape, unknown, one, any_of, Variant, array_of, object, map_of, Properties, no_properties,
  property, variants_list, keys_of, shapes_of, lookup, same_type, max_object_keys, depth,
}
use mcp_adapter.Shape.Merge.{
  new_properties, join, reduce_from, reduce, merge_with, merge_left, merge_properties,
  merge_same_type, add_variant, add_variants, as_shape, merge_step, merge_within, merge_shapes,
}
use mcp_adapter.Shape.Merge.Bounds.{
  is_below, all_below, fits, all_fit, IsClosed, all_below-append, below-properties, below-lookup,
}
use mcp_adapter.Shape.Merge.Bounds.Steps.{fit-add_variant, fit-variants_list, merge_within-IsClosed}

-- The two merges are the same below a depth.
Agrees :
    ℕ
    → (OutputShape → OutputShape → OutputShape)
    → (OutputShape → OutputShape → OutputShape)
    → Type 0
Agrees k f g = (s t : OutputShape) → is_below k s ≡ true → is_below k t ≡ true → f s t ≡ g s t

module _ (k : ℕ) (f g : OutputShape → OutputShape → OutputShape) (closed : IsClosed k f)
    (same : Agrees k f g) where
  reduce_from-Agrees :
      (s : OutputShape) (ss : List OutputShape)
      → is_below k s ≡ true
      → all_below k ss ≡ true
      → reduce_from f s ss ≡ reduce_from g s ss
  unfolding reduce_from IsClosed Agrees
  reduce_from-Agrees s [] a b = refl
  reduce_from-Agrees s (t ∷ ts) a b =
      let h = and→both (is_below k t) (all_below k ts) b in
      reduce_from-Agrees (f s t) ts (closed s t a h.0) h.1
      ∙ ap (λ r. reduce_from g r ts) (same s t a h.0)

  reduce-Agrees : (ss : List OutputShape) → all_below k ss ≡ true → reduce f ss ≡ reduce g ss
  unfolding reduce
  reduce-Agrees [] h = refl
  reduce-Agrees (s ∷ ss) h =
      let b = and→both (is_below k s) (all_below k ss) h in reduce_from-Agrees s ss b.0 b.1

  merge_with-Agrees :
      (s : OutputShape) (j : String) (qs : Properties)
      → is_below k s ≡ true
      → all_below k (shapes_of qs) ≡ true
      → (o : Option OutputShape) → lookup j qs ≡ o
      → merge_with f j s o ≡ merge_with g j s o
  unfolding merge_with Agrees
  merge_with-Agrees s j qs a b none e = refl
  merge_with-Agrees s j qs a b (some t) e = same s t a (below-lookup k j qs t b e)

  merge_left-Agrees :
      (ps qs : Properties)
      → all_below k (shapes_of ps) ≡ true
      → all_below k (shapes_of qs) ≡ true
      → merge_left f ps qs ≡ merge_left g ps qs
  unfolding merge_left
  merge_left-Agrees no_properties qs a b = refl
  merge_left-Agrees (property j s ps) qs a b =
      let h = and→both (is_below k s) (all_below k (shapes_of ps)) a in
      ap₂ (property j) (merge_with-Agrees s j qs h.0 b (lookup j qs) refl)
        (merge_left-Agrees ps qs h.1 b)

  merge_properties-Agrees :
      (ps qs : Properties)
      → all_below k (shapes_of ps) ≡ true
      → all_below k (shapes_of qs) ≡ true
      → merge_properties f ps qs ≡ merge_properties g ps qs
  unfolding merge_properties
  merge_properties-Agrees ps qs a b =
      ap (λ r. join r (new_properties ps qs)) (merge_left-Agrees ps qs a b)

  merge_same_type-Agrees :
      (x w : Variant)
      → fits k x ≡ true
      → fits k w ≡ true
      → merge_same_type f x w ≡ merge_same_type g x w
  unfolding merge_same_type depth Agrees
  merge_same_type-Agrees (array_of s) (array_of t) a b =
      ap array_of (same s t (ground (arith, a)) (ground (arith, b)))
  merge_same_type-Agrees (object ps required) (object qs also) a b =
      let p = below-properties k ps (ground (arith, a)) in
      let q = below-properties k qs (ground (arith, b)) in
      ap₂
        (λ m r.
          if ltb max_object_keys (length (keys_of m))
          then map_of r
          else object m (keep (λ j. contains j also) required))
        (merge_properties-Agrees ps qs p q)
        (reduce-Agrees (shapes_of ps ++ shapes_of qs)
          (all_below-append k (shapes_of ps) (shapes_of qs) p q))
  merge_same_type-Agrees (object ps required) (map_of t) a b =
      let p = below-properties k ps (ground (arith, a)) in
      ap map_of (reduce-Agrees (t ∷ shapes_of ps) (ground (arith, b, p)))
  merge_same_type-Agrees (map_of s) (object qs also) a b =
      let q = below-properties k qs (ground (arith, b)) in
      ap map_of (reduce-Agrees (s ∷ shapes_of qs) (ground (arith, a, q)))
  merge_same_type-Agrees (map_of s) (map_of t) a b =
      ap map_of (reduce-Agrees (s ∷ t ∷ []) (ground (arith, a, b)))
  merge_same_type-Agrees x w a b = refl

  add_variant-Agrees :
      (xs : List Variant) (w : Variant)
      → all_fit k xs ≡ true
      → fits k w ≡ true
      → add_variant f xs w ≡ add_variant g xs w
  unfolding add_variant
  add_variant-Agrees [] w a b = refl
  add_variant-Agrees (x ∷ xs) w a b =
      let h = and→both (fits k x) (all_fit k xs) a in
      ap₂ (λ y ys. if same_type x w then y ∷ xs else x ∷ ys) (merge_same_type-Agrees x w h.0 b)
        (add_variant-Agrees xs w h.1 b)

  add_variants-Agrees :
      (xs ws : List Variant)
      → all_fit k xs ≡ true
      → all_fit k ws ≡ true
      → add_variants f xs ws ≡ add_variants g xs ws
  unfolding add_variants
  add_variants-Agrees xs [] a b = refl
  add_variants-Agrees xs (w ∷ ws) a b =
      let h = and→both (fits k w) (all_fit k ws) b in
      add_variants-Agrees (add_variant f xs w) ws (fit-add_variant k f closed xs w a h.0) h.1
      ∙ ap (λ ys. add_variants g ys ws) (add_variant-Agrees xs w a h.0)

  as_shape-Agrees : (xs : List Variant) → as_shape f xs ≡ as_shape g xs
  unfolding as_shape
  as_shape-Agrees [] = refl
  as_shape-Agrees (x ∷ []) = refl
  as_shape-Agrees (x ∷ y ∷ xs) = refl

  joined-Agrees :
      (xs ws : List Variant)
      → all_fit k xs ≡ true
      → all_fit k ws ≡ true
      → as_shape f (add_variants f xs ws) ≡ as_shape g (add_variants g xs ws)
  joined-Agrees xs ws a b =
      ap (as_shape f) (add_variants-Agrees xs ws a b) ∙ as_shape-Agrees (add_variants g xs ws)

  merge_step-Agrees : Agrees (suc k) (merge_step f) (merge_step g)
  unfolding Agrees merge_step depth
  merge_step-Agrees unknown t a b = refl
  merge_step-Agrees (one x) unknown a b = refl
  merge_step-Agrees (any_of xs) unknown a b = refl
  merge_step-Agrees (one x) (one w) a b =
      joined-Agrees (x ∷ []) (w ∷ []) (ground (arith, a)) (ground (arith, b))
  merge_step-Agrees (one x) (any_of ws) a b =
      joined-Agrees (x ∷ []) (variants_list ws) (ground (arith, a))
        (fit-variants_list k ws (ground (arith, b)))
  merge_step-Agrees (any_of xs) (one w) a b =
      joined-Agrees (variants_list xs) (w ∷ []) (fit-variants_list k xs (ground (arith, a)))
        (ground (arith, b))
  merge_step-Agrees (any_of xs) (any_of ws) a b =
      joined-Agrees (variants_list xs) (variants_list ws)
        (fit-variants_list k xs (ground (arith, a))) (fit-variants_list k ws (ground (arith, b)))

-- Two fuels that are both more than the depth give the same.
merge_within-Agrees : (k n m : ℕ) → k ≤ n → k ≤ m → Agrees k (merge_within n) (merge_within m)
unfolding Agrees merge_within
merge_within-Agrees zero n m p q s t a b = ground (arith, a)
merge_within-Agrees (suc k) zero m p q s t a b = ground (arith, p)
merge_within-Agrees (suc k) (suc n) zero p q s t a b = ground (arith, q)
merge_within-Agrees (suc k) (suc n) (suc m) p q s t a b =
    merge_step-Agrees k (merge_within n) (merge_within m) (merge_within-IsClosed n k)
      (merge_within-Agrees k n m (omega arith) (omega arith)) s t a b

-- Below a depth, `merge_shapes` is what its fuel there gives.
merge_shapes-Agrees : (d : ℕ) → Agrees d (merge_within d) merge_shapes
unfolding Agrees merge_shapes
merge_shapes-Agrees d s t a b =
    let n = suc (max (depth s) (depth t)) in
    merge_within-Agrees n d n (ground (arith, a, b)) (omega arith) s t (ground arith) (ground arith)

merge_shapes-merge_within :
    (s t : OutputShape) → merge_shapes s t ≡ merge_step (merge_within (max (depth s) (depth t))) s t
unfolding merge_shapes merge_within
merge_shapes-merge_within s t = refl

-- The fuel never runs out: merging satisfies the recursive equation of the code.
pub merge_shapes-merge_step : (s t : OutputShape) → merge_shapes s t ≡ merge_step merge_shapes s t
unfolding Agrees
merge_shapes-merge_step s t =
    let d = max (depth s) (depth t) in
    merge_shapes-merge_within s t
    ∙ merge_step-Agrees d (merge_within d) merge_shapes (merge_within-IsClosed d d)
        (merge_shapes-Agrees d) s t (ground arith) (ground arith)
