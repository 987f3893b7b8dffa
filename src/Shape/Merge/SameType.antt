-- ===== src/Shape/Merge/SameType.antt =====
-- Shapes of one type: what either describes, the merged one describes.
use mcp_adapter.Prelude.{
  String, true, List, [], ◌∷◌, ◌++◌, ◌≡◌, refl, arith, inl, inr, ltb, length, all, keep, map,
  contains, Bool-cases,
}
use mcp_adapter.Json.{Value, Members, arr, obj, no_elements, keys, prop}
use mcp_adapter.Shape.{
  OutputShape, Variant, Scalar, scalar, array_empty, array_of, object, map_of, Properties, keys_of,
  shapes_of, same_type, scalar_beq, max_object_keys,
}
use mcp_adapter.Shape.Describes.{describes, describes_variant, describes_properties, values}
use mcp_adapter.Shape.Merge.{reduce, merge_properties, merge_same_type}
use mcp_adapter.Shape.Merge.Reduce.{
  IsUpper, some_describes, reduce-upper, all-imp, any-append, all-keep, all-keep_test, all-contains,
}
use mcp_adapter.Shape.Merge.Keys.{contains-merge_properties, all-contains_self}
use mcp_adapter.Shape.Merge.Objects.{
  merge_properties-left, merge_properties-right, values-some_describes,
}

scalar_beq→eq : (a b : Scalar) → scalar_beq a b ≡ true → a ≡ b
scalar_beq→eq a b h = ground (arith, h)

-- What is said of an object with fixed properties.
unfoldable pub IsRecordOf : Properties → List String → Members → Type 0
IsRecordOf ps required ms =
    (all (λ k. contains k (keys_of ps)) (keys ms) ≡ true)
    × (all (λ k. contains k (keys ms)) required ≡ true)
    × (describes_properties ps ms ≡ true)

object-IsRecordOf :
    (ps : Properties) (required : List String) (ms : Members)
    → describes_variant (object ps required) (obj ms) ≡ true
    → IsRecordOf ps required ms
unfolding describes IsRecordOf
object-IsRecordOf ps required ms h = (ground (arith, h), ground (arith, h), ground (arith, h))

pub IsRecordOf-object :
    (ps : Properties) (required : List String) (ms : Members)
    → IsRecordOf ps required ms
    → describes_variant (object ps required) (obj ms) ≡ true
unfolding describes IsRecordOf
IsRecordOf-object ps required ms h = ground (arith, h.0, h.1, h.2)

-- A record is described as a map of what describes each shape of its properties.
record-map_of :
    (ps : Properties) (required : List String) (ms : Members) (s : OutputShape)
    → IsRecordOf ps required ms
    → ((v : _) → some_describes v (shapes_of ps) ≡ true → describes s v ≡ true)
    → describes_variant (map_of s) (obj ms) ≡ true
unfolding describes IsRecordOf
record-map_of ps required ms s h up =
    all-imp (λ v. some_describes v (shapes_of ps)) (λ v. describes s v) up
      (map (λ k. prop k ms) (keys ms))
      (values-some_describes ps ms (keys ms) h.0 (all-contains_self (keys ms)) h.2)

pub array_of-imp :
    (s t : OutputShape)
    → ((v : Value) → describes s v ≡ true → describes t v ≡ true)
    → (v : Value) → describes_variant (array_of s) v ≡ true
    → describes_variant (array_of t) v ≡ true
unfolding describes
array_of-imp s t h (arr vs) e = all-imp (λ v. describes s v) (λ v. describes t v) h _ e
array_of-imp s t h v e = e

pub map_of-imp :
    (s t : OutputShape)
    → ((v : Value) → describes s v ≡ true → describes t v ≡ true)
    → (v : Value) → describes_variant (map_of s) v ≡ true
    → describes_variant (map_of t) v ≡ true
unfolding describes
map_of-imp s t h (obj ms) e = all-imp (λ v. describes s v) (λ v. describes t v) h (values ms) e
map_of-imp s t h v e = e

array_empty-imp :
    (t : OutputShape) (v : Value)
    → describes_variant array_empty v ≡ true
    → describes_variant (array_of t) v ≡ true
unfolding describes
array_empty-imp t (arr no_elements) e = refl
array_empty-imp t v e = cc

pub object-imp :
    (ps : Properties) (required : List String) (y : Variant)
    → ((ms : Members) → IsRecordOf ps required ms → describes_variant y (obj ms) ≡ true)
    → (v : Value) → describes_variant (object ps required) v ≡ true
    → describes_variant y v ≡ true
unfolding describes
object-imp ps required y h (obj ms) e = h ms (object-IsRecordOf ps required ms e)
object-imp ps required y h v e = cc

module _ (f : OutputShape → OutputShape → OutputShape) (up : IsUpper f) where
  objects-left :
      (ps qs : Properties) (required also : List String) (ms : Members)
      → IsRecordOf ps required ms
      → describes_variant (merge_same_type f (object ps required) (object qs also)) (obj ms) ≡ true
  unfolding merge_same_type IsRecordOf
  objects-left ps qs required also ms h =
      elim (Bool-cases (ltb max_object_keys (length (keys_of (merge_properties f ps qs))))) [
        | inl wide ↦ rw wide (
            record-map_of ps required ms (reduce f (shapes_of ps ++ shapes_of qs)) h (λ v e.
              reduce-upper f up v (shapes_of ps ++ shapes_of qs)
                (ground (arith, e, any-append (λ s. describes s v) (shapes_of ps) (shapes_of qs)))))
        | inr narrow ↦ rw narrow (
            IsRecordOf-object (merge_properties f ps qs) (keep (λ k. contains k also) required) ms (
              all-imp (λ k. contains k (keys_of ps))
                  (λ k. contains k (keys_of (merge_properties f ps qs)))
                  (λ k e. ground (arith, e, contains-merge_properties f k ps qs)) (keys ms) h.0,
              all-keep (λ k. contains k (keys ms)) (λ k. contains k also) required h.1,
              merge_properties-left ms f up ps qs h.0 h.2,
            ))
      ]

  objects-right :
      (ps qs : Properties) (required also : List String) (ms : Members)
      → IsRecordOf qs also ms
      → describes_variant (merge_same_type f (object ps required) (object qs also)) (obj ms) ≡ true
  unfolding merge_same_type IsRecordOf
  objects-right ps qs required also ms h =
      elim (Bool-cases (ltb max_object_keys (length (keys_of (merge_properties f ps qs))))) [
        | inl wide ↦ rw wide (
            record-map_of qs also ms (reduce f (shapes_of ps ++ shapes_of qs)) h (λ v e.
              reduce-upper f up v (shapes_of ps ++ shapes_of qs)
                (ground (arith, e, any-append (λ s. describes s v) (shapes_of ps) (shapes_of qs)))))
        | inr narrow ↦ rw narrow (
            IsRecordOf-object (merge_properties f ps qs) (keep (λ k. contains k also) required) ms (
              all-imp (λ k. contains k (keys_of qs))
                  (λ k. contains k (keys_of (merge_properties f ps qs)))
                  (λ k e. ground (arith, e, contains-merge_properties f k ps qs)) (keys ms) h.0,
              all-imp (λ k. contains k also) (λ k. contains k (keys ms))
                  (λ k e. all-contains (λ i. contains i (keys ms)) also k h.1 e)
                  (keep (λ k. contains k also) required)
                  (all-keep_test (λ k. contains k also) required),
              merge_properties-right ms f up ps qs h.0 h.2,
            ))
      ]

  pub merge_same_type-left :
      (x w : Variant) (v : Value)
      → same_type x w ≡ true
      → describes_variant x v ≡ true
      → describes_variant (merge_same_type f x w) v ≡ true
  unfolding merge_same_type
  merge_same_type-left (scalar a) w v m e = e
  merge_same_type-left array_empty array_empty v m e = e
  merge_same_type-left array_empty (array_of t) v m e = array_empty-imp t v e
  merge_same_type-left (array_of s) array_empty v m e = e
  merge_same_type-left (array_of s) (array_of t) v m e = array_of-imp s (f s t) (up.left s t) v e
  merge_same_type-left (object ps required) (object qs also) v m e =
      object-imp ps required (merge_same_type f (object ps required) (object qs also))
        (objects-left ps qs required also) v e
  merge_same_type-left (object ps required) (map_of t) v m e =
      object-imp ps required (map_of (reduce f (t ∷ shapes_of ps)))
        (λ ms h.
          record-map_of ps required ms (reduce f (t ∷ shapes_of ps)) h
            (λ u k. reduce-upper f up u (t ∷ shapes_of ps) (ground (arith, k))))
        v e
  merge_same_type-left (map_of s) (object qs also) v m e =
      map_of-imp s (reduce f (s ∷ shapes_of qs))
        (λ u k. reduce-upper f up u (s ∷ shapes_of qs) (ground (arith, k))) v e
  merge_same_type-left (map_of s) (map_of t) v m e =
      map_of-imp s (reduce f (s ∷ t ∷ []))
        (λ u k. reduce-upper f up u (s ∷ t ∷ []) (ground (arith, k))) v e
  merge_same_type-left x w v m e = cc

  pub merge_same_type-right :
      (x w : Variant) (v : Value)
      → same_type x w ≡ true
      → describes_variant w v ≡ true
      → describes_variant (merge_same_type f x w) v ≡ true
  unfolding merge_same_type
  merge_same_type-right (scalar a) (scalar b) v m e = rw (scalar_beq→eq a b m) e
  merge_same_type-right array_empty array_empty v m e = e
  merge_same_type-right array_empty (array_of t) v m e = e
  merge_same_type-right (array_of s) array_empty v m e = array_empty-imp s v e
  merge_same_type-right (array_of s) (array_of t) v m e = array_of-imp t (f s t) (up.right s t) v e
  merge_same_type-right (object ps required) (object qs also) v m e =
      object-imp qs also (merge_same_type f (object ps required) (object qs also))
        (objects-right ps qs required also) v e
  merge_same_type-right (object ps required) (map_of t) v m e =
      map_of-imp t (reduce f (t ∷ shapes_of ps))
        (λ u k. reduce-upper f up u (t ∷ shapes_of ps) (ground (arith, k))) v e
  merge_same_type-right (map_of s) (object qs also) v m e =
      object-imp qs also (map_of (reduce f (s ∷ shapes_of qs)))
        (λ ms h.
          record-map_of qs also ms (reduce f (s ∷ shapes_of qs)) h
            (λ u k. reduce-upper f up u (s ∷ shapes_of qs) (ground (arith, k))))
        v e
  merge_same_type-right (map_of s) (map_of t) v m e =
      map_of-imp t (reduce f (s ∷ t ∷ []))
        (λ u k. reduce-upper f up u (s ∷ t ∷ []) (ground (arith, k))) v e
  merge_same_type-right x w v m e = cc
