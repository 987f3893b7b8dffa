-- ===== src/Shape/Merge/Objects.antt =====
-- The merging of objects: what the properties of either side describe, the merged ones do.
use mcp_adapter.Prelude.{
  String, Bool, true, false, ◌&&◌, Option, none, some, List, [], ◌∷◌, ◌==◌, ◌≡◌, refl, subst, ap,
  ◌∙◌, arith, inl, inr, all, map, contains, eq_iff, and→both, or→either, Bool-cases, Option-cases,
}
use mcp_adapter.Json.{Value, Members, no_members, member, keys, own, prop}
use mcp_adapter.Shape.{OutputShape, Properties, no_properties, property, keys_of, shapes_of, lookup}
use mcp_adapter.Shape.Describes.{describes, describes_properties, describes_own}
use mcp_adapter.Shape.Merge.{
  is_inherited, one_sided, merge_with, merge_left, new_properties, join, merge_properties,
}
use mcp_adapter.Shape.Merge.Reduce.{IsUpper, some_describes, all-contains}

and_regroup : (a b c : Bool) → (a && (b && c)) ≡ ((a && b) && c)
and_regroup true b c = refl
and_regroup false b c = refl

own-contains : (k : String) (ms : Members) → contains k (keys ms) ≡ false → own k ms ≡ none
unfolding contains
own-contains k no_members h = refl
own-contains k (member j v ms) h = ground (arith, own-contains k ms, h)

prop-own : (k : String) (ms : Members) → contains k (keys ms) ≡ true → own k ms ≡ some (prop k ms)
unfolding contains
prop-own k no_members h = cc
prop-own k (member j v ms) h = ground (arith, prop-own k ms, h)

one_sided-describes :
    (k : String) (s : OutputShape) (w : Value)
    → describes s w ≡ true
    → describes (one_sided k s) w ≡ true
unfolding one_sided describes
one_sided-describes k s w d = elim (Bool-cases (is_inherited k)) [
  | inl inherited ↦ rw inherited refl
  | inr fresh ↦ rw fresh d
]

module _ (ms : Members) where
  -- A member that has a property is described by one of the shapes.
  property-some_describes :
      (ps : Properties) (k : String) (v : Value)
      → contains k (keys_of ps) ≡ true
      → own k ms ≡ some v
      → describes_properties ps ms ≡ true
      → some_describes v (shapes_of ps) ≡ true
  unfolding describes contains
  property-some_describes no_properties k v h o e = cc
  property-some_describes (property j s ps) k v h o e =
      let b =
        and→both (describes_own (λ w. describes s w) (own j ms)) (describes_properties ps ms) e in
      elim (or→either (j == k) (contains k (keys_of ps)) h) [
        | inl same ↦
            let o' : own j ms ≡ some v = ap (λ i. own i ms) ((eq_iff j k).0 same) ∙ o in
            let here : describes s v ≡ true =
              subst (λ q. describes_own (λ w. describes s w) q ≡ true) o' b.0 in
            ground (arith, here)
        | inr later ↦ ground (arith, property-some_describes ps k v later o b.1)
      ]

  lookup-described :
      (qs : Properties) (k : String) (t : OutputShape)
      → lookup k qs ≡ some t
      → describes_properties qs ms ≡ true
      → describes_own (λ v. describes t v) (own k ms) ≡ true
  unfolding describes
  lookup-described no_properties k t l e = cc
  lookup-described (property j s qs) k t l e =
      let b =
        and→both (describes_own (λ w. describes s w) (own j ms)) (describes_properties qs ms) e in
      elim (Bool-cases (j == k)) [
        | inl same ↦
            let found : some s ≡ some t = ground (arith, l, same) in
            let s_t : s ≡ t = cc in
            let here : describes_own (λ w. describes t w) (own j ms) ≡ true =
              subst (λ u. describes_own (λ w. describes u w) (own j ms) ≡ true) s_t b.0 in
            subst (λ i. describes_own (λ w. describes t w) (own i ms) ≡ true) ((eq_iff j k).0 same)
              here
        | inr other ↦ lookup-described qs k t (ground (arith, l, other)) b.1
      ]

  lookup-none :
      (qs : Properties) (k : String) → lookup k qs ≡ none → contains k (keys_of qs) ≡ false
  unfolding contains
  lookup-none no_properties k l = refl
  lookup-none (property j s qs) k l = ground (arith, l, lookup-none qs k)

  -- What the left covers has no member of another name.
  own-uncovered :
      (ps : Properties) (k : String)
      → all (λ k. contains k (keys_of ps)) (keys ms) ≡ true
      → contains k (keys_of ps) ≡ false
      → own k ms ≡ none
  own-uncovered ps k c h = elim (Bool-cases (contains k (keys ms))) [
    | inl there ↦
        let yes_it_is = all-contains (λ i. contains i (keys_of ps)) (keys ms) k c there in
        ground (arith, h, yes_it_is)
    | inr gone ↦ own-contains k ms gone
  ]

  describes_properties-join :
      (ps qs : Properties)
      → describes_properties (join ps qs) ms
        ≡ (describes_properties ps ms && describes_properties qs ms)
  unfolding describes join
  describes_properties-join no_properties qs = refl
  describes_properties-join (property k s ps) qs =
      ap (λ r. describes_own (λ w. describes s w) (own k ms) && r) (describes_properties-join ps qs)
      ∙ and_regroup (describes_own (λ w. describes s w) (own k ms)) (describes_properties ps ms)
          (describes_properties qs ms)

  own-imp :
      (p q : Value → Bool) (o : Option Value)
      → ((v : Value) → p v ≡ true → q v ≡ true)
      → describes_own p o ≡ true
      → describes_own q o ≡ true
  own-imp p q none h e = refl
  own-imp p q (some v) h e = h v e

  -- New properties are some of the right's.
  new_properties-right :
      (base qs : Properties)
      → describes_properties qs ms ≡ true
      → describes_properties (new_properties base qs) ms ≡ true
  unfolding describes new_properties
  new_properties-right base no_properties e = refl
  new_properties-right base (property k s qs) e =
      let b =
        and→both (describes_own (λ w. describes s w) (own k ms)) (describes_properties qs ms) e in
      let here =
        own-imp (λ w. describes s w) (λ w. describes (one_sided k s) w) (own k ms)
          (one_sided-describes k s) b.0 in
      ground (arith, here, new_properties-right base qs b.1)

  -- A new property is no member's of what the left describes.
  new_properties-left :
      (base qs : Properties)
      → all (λ k. contains k (keys_of base)) (keys ms) ≡ true
      → describes_properties (new_properties base qs) ms ≡ true
  unfolding describes new_properties
  new_properties-left base no_properties c = refl
  new_properties-left base (property k s qs) c = elim (Bool-cases (contains k (keys_of base))) [
    | inl old ↦ ground (arith, old, new_properties-left base qs c)
    | inr fresh ↦ ground (arith, fresh, own-uncovered base k c fresh, new_properties-left base qs c)
  ]

  module _ (f : OutputShape → OutputShape → OutputShape) (up : IsUpper f) where
    merge_left-left :
        (ps qs : Properties)
        → describes_properties ps ms ≡ true
        → describes_properties (merge_left f ps qs) ms ≡ true
    unfolding describes merge_left
    merge_left-left no_properties qs e = refl
    merge_left-left (property k s ps) qs e =
        let b =
          and→both (describes_own (λ w. describes s w) (own k ms)) (describes_properties ps ms) e in
        let rest = merge_left-left ps qs b.1 in
        let here =
          own-imp (λ w. describes s w) (λ w. describes (merge_with f k s (lookup k qs)) w)
            (own k ms) (λ w d. merge_with-left k s (lookup k qs) w d) b.0 in
        ground (arith, here, rest)
      where
        merge_with-left :
            (k : String) (s : OutputShape) (o : Option OutputShape) (w : Value)
            → describes s w ≡ true
            → describes (merge_with f k s o) w ≡ true
        merge_with-left k s none w d = one_sided-describes k s w d
        merge_with-left k s (some t) w d = up.left s t w d

    merge_left-right :
        (ps qs : Properties)
        → all (λ k. contains k (keys_of qs)) (keys ms) ≡ true
        → describes_properties qs ms ≡ true
        → describes_properties (merge_left f ps qs) ms ≡ true
    unfolding describes merge_left
    merge_left-right no_properties qs c e = refl
    merge_left-right (property k s ps) qs c e =
        let rest = merge_left-right ps qs c e in
        elim (Option-cases (lookup k qs)) [
          | inl missing ↦
              ground (arith, missing, rest, own-uncovered qs k c (lookup-none qs k missing))
          | inr (t, found) ↦
              let here =
                own-imp (λ w. describes t w) (λ w. describes (f s t) w) (own k ms) (up.right s t)
                  (lookup-described qs k t found e) in
              rw found ground (arith, here, rest)
        ]

    -- What either side describes, the merged properties describe.
    pub merge_properties-left :
        (ps qs : Properties)
        → all (λ k. contains k (keys_of ps)) (keys ms) ≡ true
        → describes_properties ps ms ≡ true
        → describes_properties (merge_properties f ps qs) ms ≡ true
    unfolding merge_properties
    merge_properties-left ps qs c e = ground (
      arith,
      describes_properties-join (merge_left f ps qs) (new_properties ps qs),
      merge_left-left ps qs e,
      new_properties-left ps qs c,
    )

    pub merge_properties-right :
        (ps qs : Properties)
        → all (λ k. contains k (keys_of qs)) (keys ms) ≡ true
        → describes_properties qs ms ≡ true
        → describes_properties (merge_properties f ps qs) ms ≡ true
    unfolding merge_properties
    merge_properties-right ps qs c e = ground (
      arith,
      describes_properties-join (merge_left f ps qs) (new_properties ps qs),
      merge_left-right ps qs c e,
      new_properties-right ps qs e,
    )

pub values-some_describes :
    (ps : Properties) (ms : Members) (ks : List String)
    → all (λ k. contains k (keys_of ps)) ks ≡ true
    → all (λ k. contains k (keys ms)) ks ≡ true
    → describes_properties ps ms ≡ true
    → all (λ v. some_describes v (shapes_of ps)) (map (λ k. prop k ms) ks) ≡ true
values-some_describes ps ms [] c d e = refl
values-some_describes ps ms (k ∷ ks) c d e =
    let cs = and→both (contains k (keys_of ps)) (all (λ k. contains k (keys_of ps)) ks) c in
    let ds = and→both (contains k (keys ms)) (all (λ k. contains k (keys ms)) ks) d in
    ground (
      arith,
      property-some_describes ms ps k (prop k ms) cs.0 (prop-own k ms ds.0) e,
      values-some_describes ps ms ks cs.1 ds.1 e,
    )
