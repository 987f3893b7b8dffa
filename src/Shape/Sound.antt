-- ===== src/Shape/Sound.antt =====
-- What is learned of a result describes it, and goes on to when more results are learned.
use mcp_adapter.Prelude.{
  ℕ, zero, suc, min, String, Bool, true, false, not, ◌&&◌, Option, none, some, List, [], ◌∷◌, ◌==◌,
  ◌≡◌, ◌≤◌, ◌||◌, leb, refl, subst, sym, ap, arith, all, take, map, contains, eq_iff, eq_refl,
  and→both,
}
use mcp_adapter.Json.{
  Value, Members, undefined, bool, num, str, arr, obj, Elements, no_elements, element, no_members,
  member, keys, prop, own, items,
}
use mcp_adapter.Shape.{
  OutputShape, one, object, map_of, Properties, no_properties, property, keys_of, max_array_sample,
}
use mcp_adapter.Shape.Infer.{infer, infer_items, infer_sample, infer_members, scan_keys, as_object}
use mcp_adapter.Shape.Seen.{
  is_seen, seen_elements, seen_members, item_count, size, plain_keys, plain_but_last, take-items,
  take-values,
}
use mcp_adapter.Shape.Describes.{describes, describes_properties, describes_own, values}
use mcp_adapter.Shape.Merge.{reduce, merge_shapes}
use mcp_adapter.Shape.Merge.Reduce.{some_describes, reduce-upper, all-imp}
use mcp_adapter.Shape.Merge.Keys.{all-contains_self}
use mcp_adapter.Shape.Merge.SameType.{IsRecordOf, IsRecordOf-object}
use mcp_adapter.Shape.Merge.Sound.{merge_shapes-IsUpper}

-- No object of the value has a key twice, as no JavaScript object has.
unfoldable mutual
  unfolding contains

  pub has_unique_keys : Value → Bool
  has_unique_keys (arr vs) = unique_elements vs
  has_unique_keys (obj ms) = unique_members ms
  has_unique_keys v = true

  pub unique_elements : Elements → Bool
  unique_elements no_elements = true
  unique_elements (element v vs) = has_unique_keys v && unique_elements vs

  pub unique_members : Members → Bool
  unique_members no_members = true
  unique_members (member k v ms) =
      not (contains k (keys ms)) && (has_unique_keys v && unique_members ms)

-- The members that are looked up are not changed by a member of another name.
map-prop-member :
    (j : String) (v : Value) (ms : Members) (ks : List String)
    → contains j ks ≡ false
    → map (λ k. prop k (member j v ms)) ks ≡ map (λ k. prop k ms) ks
unfolding contains
map-prop-member j v ms [] h = refl
map-prop-member j v ms (k ∷ ks) h =
    let other : (j == k) ≡ false = ground (arith, h, eq_iff j k, eq_iff k j) in
    let here : prop k (member j v ms) ≡ prop k ms = rw (other, prop) refl in
    rw here (ap (◌∷◌ (prop k ms)) (map-prop-member j v ms ks (ground (arith, h))))

values-member :
    (j : String) (v : Value) (ms : Members)
    → contains j (keys ms) ≡ false
    → values (member j v ms) ≡ v ∷ values ms
values-member j v ms h =
    let here : prop j (member j v ms) ≡ v = rw (eq_refl j, prop) refl in
    rw here (ap (◌∷◌ v) (map-prop-member j v ms (keys ms) h))

properties-member :
    (j : String) (v : Value) (ms : Members) (ps : Properties)
    → contains j (keys_of ps) ≡ false
    → describes_properties ps (member j v ms) ≡ describes_properties ps ms
unfolding describes contains
properties-member j v ms no_properties h = refl
properties-member j v ms (property k s ps) h =
    let other : (j == k) ≡ false = ground (arith, h, eq_iff j k, eq_iff k j) in
    rw (other, own)
      (ap (λ r. describes_own (λ w. describes s w) (own k ms) && r)
        (properties-member j v ms ps (ground (arith, h))))

keys-infer_members :
    (levels : ℕ) (ms : Members) (b : ℕ) → keys_of (infer_members levels ms b).0 ≡ keys ms
unfolding infer
keys-infer_members levels no_members b = refl
keys-infer_members levels (member k v ms) b =
    ap (◌∷◌ k) (keys-infer_members levels ms (infer levels v b).1)

-- What one of some shapes describes, one of more shapes does.
described-later :
    (s : OutputShape) (ss : List OutputShape) (vs : List Value)
    → all (λ v. some_describes v ss) vs ≡ true
    → all (λ v. some_describes v (s ∷ ss)) vs ≡ true
described-later s ss vs e =
    all-imp (λ v. some_describes v ss) (λ v. some_describes v (s ∷ ss)) (λ v h. ground (arith, h))
      vs e

reduce-all :
    (ss : List OutputShape) (vs : List Value)
    → all (λ v. some_describes v ss) vs ≡ true
    → all (λ v. describes (reduce merge_shapes ss) v) vs ≡ true
reduce-all ss vs e =
    all-imp (λ v. some_describes v ss) (λ v. describes (reduce merge_shapes ss) v)
      (λ v. reduce-upper merge_shapes merge_shapes-IsUpper v ss) vs e

as_object-describes :
    (whole : OutputShape × ℕ) (from_keys : ℕ → OutputShape × ℕ) (v : Value) (o : Option ℕ)
    → (o ≡ none → describes whole.0 v ≡ true)
    → ((n : ℕ) → o ≡ some n → describes (from_keys n).0 v ≡ true)
    → describes (as_object o whole from_keys).0 v ≡ true
as_object-describes whole from_keys v none w f = w refl
as_object-describes whole from_keys v (some n) w f = f n refl

one_IsRecordOf :
    (ps : Properties) (required : List String) (ms : Members)
    → IsRecordOf ps required ms
    → describes (one (object ps required)) (obj ms) ≡ true
unfolding describes
one_IsRecordOf ps required ms h = IsRecordOf-object ps required ms h

record-describes :
    (levels : ℕ) (ms : Members) (b : ℕ)
    → describes_properties (infer_members levels ms b).0 ms ≡ true
    → describes (one (object (infer_members levels ms b).0 (keys ms))) (obj ms) ≡ true
unfolding IsRecordOf
record-describes levels ms b d =
    let names : all (λ k. contains k (keys_of (infer_members levels ms b).0)) (keys ms) ≡ true =
      rw (keys-infer_members levels ms b) (all-contains_self (keys ms)) in
    one_IsRecordOf (infer_members levels ms b).0 (keys ms) ms
      (names, all-contains_self (keys ms), d)

map-describes :
    (n : ℕ) (ss : List OutputShape) (ms : Members)
    → take n (values ms) ≡ values ms
    → all (λ v. some_describes v ss) (take n (values ms)) ≡ true
    → describes (one (map_of (reduce merge_shapes ss))) (obj ms) ≡ true
unfolding describes
map-describes n ss ms e d =
    reduce-all ss (values ms) (subst (λ vs. all (λ v. some_describes v ss) vs ≡ true) e d)

elements_seen : (vs : Elements) → is_seen (arr vs) ≡ true → item_count vs ≤ 5
unfolding is_seen
elements_seen vs h = ground (arith, h)

mutual
  unfolding infer describes has_unique_keys is_seen

  infer-describes :
      (levels : ℕ) (v : Value) (b : ℕ)
      → has_unique_keys v ≡ true
      → is_seen v ≡ true
      → describes (infer levels v b).0 v ≡ true
  infer-describes levels v zero h z = refl
  infer-describes levels Value.null (suc b) h z = refl
  infer-describes levels undefined (suc b) h z = refl
  infer-describes levels (bool x) (suc b) h z = refl
  infer-describes levels (num x) (suc b) h z = refl
  infer-describes levels (str x) (suc b) h z = refl
  infer-describes zero (arr vs) (suc b) h z = refl
  infer-describes zero (obj ms) (suc b) h z = refl
  infer-describes (suc levels) (arr no_elements) (suc b) h z = refl
  infer-describes (suc levels) (arr (element v vs)) (suc b) h z =
      let ss = (infer_items levels max_array_sample (element v vs) b).0 in
      let parts = and→both (leb (item_count (element v vs)) 5) (seen_elements (element v vs)) z in
      reduce-all ss (items (element v vs)) (
        subst (λ q. all (λ w. some_describes w ss) q ≡ true)
          (take-items max_array_sample (element v vs) (elements_seen (element v vs) z))
          (items-described levels max_array_sample (element v vs) b h parts.1))
  infer-describes (suc levels) (obj ms) (suc b) h z =
      let all_members = infer_members levels ms b in
      let sample = λ (n : ℕ). infer_sample levels (min max_array_sample n) ms b in
      let parts =
        and→both ((leb (size ms) 40 && plain_keys ms) || (leb (size ms) 5 && plain_but_last ms))
          (seen_members ms) z in
      as_object-describes (one (object all_members.0 (keys ms)), all_members.1)
        (λ n. (one (map_of (reduce merge_shapes (sample n).0)), (sample n).1)) (obj ms)
        (scan_keys 0 ms)
        (λ e. record-describes levels ms b (members-described levels ms b h parts.1))
        (λ n e.
          map-describes (min max_array_sample n) (sample n).0 ms (take-values n ms z e)
            (sample-described levels (min max_array_sample n) ms b h parts.1))

  items-described :
      (levels n : ℕ) (vs : Elements) (b : ℕ)
      → unique_elements vs ≡ true
      → seen_elements vs ≡ true
      → all (λ v. some_describes v (infer_items levels n vs b).0) (take n (items vs)) ≡ true
  items-described levels zero vs b h z = refl
  items-described levels (suc n) no_elements b h z = refl
  items-described levels (suc n) (element v vs) b h z =
      let u = and→both (has_unique_keys v) (unique_elements vs) h in
      let y = and→both (is_seen v) (seen_elements vs) z in
      let here = infer levels v b in
      let rest = items-described levels n vs here.1 u.1 y.1 in
      ground (
        arith,
        infer-describes levels v b u.0 y.0,
        described-later here.0 (infer_items levels n vs here.1).0 (take n (items vs)) rest,
      )

  sample-described :
      (levels n : ℕ) (ms : Members) (b : ℕ)
      → unique_members ms ≡ true
      → seen_members ms ≡ true
      → all (λ v. some_describes v (infer_sample levels n ms b).0) (take n (values ms)) ≡ true
  sample-described levels zero ms b h z = refl
  sample-described levels (suc n) no_members b h z = refl
  sample-described levels (suc n) (member k v ms) b h z =
      let u = and→both (not (contains k (keys ms))) (has_unique_keys v && unique_members ms) h in
      let w = and→both (has_unique_keys v) (unique_members ms) u.1 in
      let y = and→both (is_seen v) (seen_members ms) z in
      let here = infer levels v b in
      let rest = sample-described levels n ms here.1 w.1 y.1 in
      subst
        (λ q.
          all (λ x. some_describes x (infer_sample levels (suc n) (member k v ms) b).0)
            (take (suc n) q)
          ≡ true)
        (sym (values-member k v ms (ground (arith, u.0))))
        (ground (
          arith,
          infer-describes levels v b w.0 y.0,
          described-later here.0 (infer_sample levels n ms here.1).0 (take n (values ms)) rest,
        ))

  members-described :
      (levels : ℕ) (ms : Members) (b : ℕ)
      → unique_members ms ≡ true
      → seen_members ms ≡ true
      → describes_properties (infer_members levels ms b).0 ms ≡ true
  members-described levels no_members b h z = refl
  members-described levels (member k v ms) b h z =
      let u = and→both (not (contains k (keys ms))) (has_unique_keys v && unique_members ms) h in
      let w = and→both (has_unique_keys v) (unique_members ms) u.1 in
      let y = and→both (is_seen v) (seen_members ms) z in
      let here = infer levels v b in
      let absent : contains k (keys ms) ≡ false = ground (arith, u.0) in
      let names : contains k (keys_of (infer_members levels ms here.1).0) ≡ false =
        rw (keys-infer_members levels ms here.1) absent in
      rw (properties-member k v ms (infer_members levels ms here.1).0 names) rw (eq_refl k) ground
        (arith, infer-describes levels v b w.0 y.0, members-described levels ms here.1 w.1 y.1)
