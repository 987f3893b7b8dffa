-- ===== src/Shape/Merge/Sound.antt =====
-- A merged shape describes what either of the shapes describes.
use mcp_adapter.Prelude.{
  ℕ, zero, suc, max, Bool, true, false, ◌||◌, List, [], ◌∷◌, ◌≡◌, refl, sym, ap, ◌∙◌, arith, inl,
  inr, ltb, length, any, or→either, Bool-cases,
}
use mcp_adapter.Json.{Value}
use mcp_adapter.Shape.{
  OutputShape, unknown, one, any_of, Variant, Variants, no_variants, variant, variants_list,
  variants_of, same_type, max_union, depth,
}
use mcp_adapter.Shape.Describes.{describes, describes_variant, describes_some}
use mcp_adapter.Shape.Merge.{
  add_variant, add_variants, as_shape, merge_step, merge_within, merge_shapes,
}
use mcp_adapter.Shape.Merge.Reduce.{IsUpper}
use mcp_adapter.Shape.Merge.SameType.{merge_same_type-left, merge_same_type-right}

or_false : (b : Bool) → (b || false) ≡ b
or_false true = refl
or_false false = refl

or-replace : {a b c d : Bool} → a ≡ c → b ≡ d → (a || b) ≡ true → (c || d) ≡ true
or-replace p q e = rw⁻¹ p rw⁻¹ q e

abbrev variants_describe : Value → List Variant → Bool
variants_describe v xs = any (λ x. describes_variant x v) xs

some-variants_of :
    (v : Value) (xs : List Variant) → describes_some (variants_of xs) v ≡ variants_describe v xs
unfolding describes
some-variants_of v [] = refl
some-variants_of v (x ∷ xs) = ap (λ b. describes_variant x v || b) (some-variants_of v xs)

some-variants_list :
    (v : Value) (xs : Variants) → describes_some xs v ≡ variants_describe v (variants_list xs)
unfolding describes
some-variants_list v no_variants = refl
some-variants_list v (variant x xs) = ap (λ b. describes_variant x v || b) (some-variants_list v xs)

single : (v : Value) (x : Variant) → describes_variant x v ≡ variants_describe v (x ∷ [])
single v x = sym (or_false (describes_variant x v))

module _ (f : OutputShape → OutputShape → OutputShape) (up : IsUpper f) (v : Value) where
  add_variant-old :
      (xs : List Variant) (w : Variant)
      → variants_describe v xs ≡ true
      → variants_describe v (add_variant f xs w) ≡ true
  unfolding add_variant
  add_variant-old [] w e = cc
  add_variant-old (x ∷ xs) w e = elim (Bool-cases (same_type x w)) [
    | inl same ↦ rw same (elim (or→either (describes_variant x v) (variants_describe v xs) e) [
      | inl here ↦ ground (arith, merge_same_type-left f up x w v same here)
      | inr later ↦ ground (arith, later)
    ])
    | inr other ↦ rw other (elim (or→either (describes_variant x v) (variants_describe v xs) e) [
      | inl here ↦ ground (arith, here)
      | inr later ↦ ground (arith, add_variant-old xs w later)
    ])
  ]

  add_variant-new :
      (xs : List Variant) (w : Variant)
      → describes_variant w v ≡ true
      → variants_describe v (add_variant f xs w) ≡ true
  unfolding add_variant
  add_variant-new [] w e = ground (arith, e)
  add_variant-new (x ∷ xs) w e = elim (Bool-cases (same_type x w)) [
    | inl same ↦ rw same ground (arith, merge_same_type-right f up x w v same e)
    | inr other ↦ rw other ground (arith, add_variant-new xs w e)
  ]

  add_variants-any :
      (xs ws : List Variant)
      → (variants_describe v xs || variants_describe v ws) ≡ true
      → variants_describe v (add_variants f xs ws) ≡ true
  unfolding add_variants
  add_variants-any xs [] e = ground (arith, e)
  add_variants-any xs (w ∷ ws) e =
      add_variants-any (add_variant f xs w) ws
        (elim (or→either (variants_describe v xs) (describes_variant w v || variants_describe v ws)
          e) [
            | inl old ↦ ground (arith, add_variant-old xs w old)
            | inr later ↦ elim (or→either (describes_variant w v) (variants_describe v ws) later) [
              | inl here ↦ ground (arith, add_variant-new xs w here)
              | inr there ↦ ground (arith, there)
            ]
          ])

  as_shape-describes :
      (xs : List Variant) → variants_describe v xs ≡ true → describes (as_shape f xs) v ≡ true
  unfolding as_shape describes
  as_shape-describes [] e = cc
  as_shape-describes (x ∷ []) e = ground (arith, e)
  as_shape-describes (x ∷ y ∷ xs) e = elim (Bool-cases (ltb max_union (length (x ∷ y ∷ xs)))) [
    | inl wide ↦ rw wide refl
    | inr few ↦ rw few (some-variants_of v (x ∷ y ∷ xs) ∙ e)
  ]

  joined :
      (xs ws : List Variant)
      → (variants_describe v xs || variants_describe v ws) ≡ true
      → describes (as_shape f (add_variants f xs ws)) v ≡ true
  joined xs ws e = as_shape-describes (add_variants f xs ws) (add_variants-any xs ws e)

  merge_step-describes :
      (s t : OutputShape)
      → (describes s v || describes t v) ≡ true
      → describes (merge_step f s t) v ≡ true
  unfolding merge_step describes
  merge_step-describes unknown t e = refl
  merge_step-describes (one x) unknown e = refl
  merge_step-describes (any_of xs) unknown e = refl
  merge_step-describes (one x) (one w) e =
      joined (x ∷ []) (w ∷ []) (or-replace (single v x) (single v w) e)
  merge_step-describes (one x) (any_of ws) e =
      joined (x ∷ []) (variants_list ws) (or-replace (single v x) (some-variants_list v ws) e)
  merge_step-describes (any_of xs) (one w) e =
      joined (variants_list xs) (w ∷ []) (or-replace (some-variants_list v xs) (single v w) e)
  merge_step-describes (any_of xs) (any_of ws) e =
      joined (variants_list xs) (variants_list ws)
        (or-replace (some-variants_list v xs) (some-variants_list v ws) e)

merge_within-IsUpper : (n : ℕ) → IsUpper (merge_within n)
unfolding merge_within describes
merge_within-IsUpper zero = record { left = λ s t v e. refl; right = λ s t v e. refl }
merge_within-IsUpper (suc n) = record {
  left = λ s t v e.
      merge_step-describes (merge_within n) (merge_within-IsUpper n) v s t (ground (arith, e));
  right = λ s t v e.
      merge_step-describes (merge_within n) (merge_within-IsUpper n) v s t (ground (arith, e));
}

pub merge_shapes-IsUpper : IsUpper merge_shapes
unfolding merge_shapes
merge_shapes-IsUpper = record {
  left = λ s t. (merge_within-IsUpper (suc (max (depth s) (depth t)))).left s t;
  right = λ s t. (merge_within-IsUpper (suc (max (depth s) (depth t)))).right s t;
}

-- The merge of two shapes describes every value that one of them describes.
pub merge_shapes-describes :
    (s t : OutputShape) (v : Value)
    → (describes s v || describes t v) ≡ true
    → describes (merge_shapes s t) v ≡ true
unfolding merge_shapes
merge_shapes-describes s t v e =
    let n = max (depth s) (depth t) in
    merge_step-describes (merge_within n) (merge_within-IsUpper n) v s t e
