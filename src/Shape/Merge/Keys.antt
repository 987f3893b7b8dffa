-- ===== src/Shape/Merge/Keys.antt =====
-- The keys of a merged object.
use mcp_adapter.Prelude.{
  String, true, not, ◌&&◌, ◌||◌, List, [], ◌∷◌, ◌++◌, ◌==◌, ◌≡◌, refl, ap, ◌∙◌, arith, inl, inr,
  all, contains, eq_iff, eq_refl, Bool-cases,
}
use mcp_adapter.Shape.{OutputShape, Properties, no_properties, property, keys_of}
use mcp_adapter.Shape.Merge.{merge_left, new_properties, join, merge_properties}
use mcp_adapter.Shape.Merge.Reduce.{all-imp}

contains-append :
    (k : String) (xs ys : List String) → contains k (xs ++ ys) ≡ (contains k xs || contains k ys)
unfolding contains
contains-append k [] ys = refl
contains-append k (x ∷ xs) ys = ground (arith, contains-append k xs ys)

keys-merge_left :
    (f : OutputShape → OutputShape → OutputShape) (ps qs : Properties)
    → keys_of (merge_left f ps qs) ≡ keys_of ps
unfolding merge_left
keys-merge_left f no_properties qs = refl
keys-merge_left f (property k s ps) qs = ap (◌∷◌ k) (keys-merge_left f ps qs)

keys-join : (ps qs : Properties) → keys_of (join ps qs) ≡ keys_of ps ++ keys_of qs
unfolding join
keys-join no_properties qs = refl
keys-join (property k s ps) qs = ap (◌∷◌ k) (keys-join ps qs)

contains-new_properties :
    (k : String) (base qs : Properties)
    → contains k (keys_of (new_properties base qs))
      ≡ (contains k (keys_of qs) && not (contains k (keys_of base)))
unfolding new_properties contains
contains-new_properties k base no_properties = refl
contains-new_properties k base (property j s qs) = elim (Bool-cases (j == k)) [
  | inl same ↦
      let e = (eq_iff j k).0 same in
      ground (arith, same, ap (λ i. contains i (keys_of base)) e, contains-new_properties k base qs)
  | inr other ↦ ground (arith, other, contains-new_properties k base qs)
]

-- The merged properties have the keys of both sides.
pub contains-merge_properties :
    (f : OutputShape → OutputShape → OutputShape) (k : String) (ps qs : Properties)
    → contains k (keys_of (merge_properties f ps qs))
      ≡ (contains k (keys_of ps) || contains k (keys_of qs))
unfolding merge_properties
contains-merge_properties f k ps qs =
    ap (contains k) (
      keys-join (merge_left f ps qs) (new_properties ps qs)
      ∙ ap (λ xs. xs ++ keys_of (new_properties ps qs)) (keys-merge_left f ps qs))
    ∙ contains-append k (keys_of ps) (keys_of (new_properties ps qs))
    ∙ ground (arith, contains-new_properties k ps qs)

-- The values of covered members are described by the properties' shapes.

pub all-contains_self : (ks : List String) → all (λ k. contains k ks) ks ≡ true
unfolding contains
all-contains_self [] = refl
all-contains_self (k ∷ ks) = ground (
  arith,
  eq_refl k,
  all-imp (λ j. contains j ks) (λ j. k == j || contains j ks) (λ j h. ground (arith, h)) ks
      (all-contains_self ks),
)
