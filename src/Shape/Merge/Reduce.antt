-- ===== src/Shape/Merge/Reduce.antt =====
-- Merging that gives an upper bound: what it means, and that a list's reduction is one too.
use mcp_adapter.Prelude.{
  String, Bool, true, ◌||◌, List, [], ◌∷◌, ◌++◌, ◌==◌, ◌≡◌, refl, arith, inl, inr, any, all, keep,
  contains, eq_iff, and→both, or→either,
}
use mcp_adapter.Json.{Value}
use mcp_adapter.Shape.{OutputShape}
use mcp_adapter.Shape.Describes.{describes}
use mcp_adapter.Shape.Merge.{reduce_from, reduce}

module _ {ℓ} {A : Type ℓ} where
  pub all-imp :
      (p q : A → Bool)
      → ((x : A) → p x ≡ true → q x ≡ true)
      → (xs : List A) → all p xs ≡ true
      → all q xs ≡ true
  all-imp p q h [] e = refl
  all-imp p q h (x ∷ xs) e =
      let b = and→both (p x) (all p xs) e in ground (arith, h x b.0, all-imp p q h xs b.1)

  pub any-append : (p : A → Bool) (xs ys : List A) → any p (xs ++ ys) ≡ (any p xs || any p ys)
  any-append p [] ys = refl
  any-append p (x ∷ xs) ys = ground (arith, any-append p xs ys)

  pub all-keep : (p q : A → Bool) (xs : List A) → all p xs ≡ true → all p (keep q xs) ≡ true
  all-keep p q [] e = refl
  all-keep p q (x ∷ xs) e = ground (arith, e, all-keep p q xs)

  pub all-keep_test : (q : A → Bool) (xs : List A) → all q (keep q xs) ≡ true
  all-keep_test q [] = refl
  all-keep_test q (x ∷ xs) = ground (arith, all-keep_test q xs)

pub all-contains :
    (p : String → Bool) (xs : List String) (k : String)
    → all p xs ≡ true
    → contains k xs ≡ true
    → p k ≡ true
unfolding contains
all-contains p [] k e h = cc
all-contains p (x ∷ xs) k e h =
    let b = and→both (p x) (all p xs) e in
    elim (or→either (x == k) (contains k xs) h) [
      | inl same ↦ rw⁻¹ ((eq_iff x k).0 same) b.0
      | inr later ↦ all-contains p xs k b.1 later
    ]

-- A shape that describes all that either of two shapes describes.
pub record IsUpper (f : OutputShape → OutputShape → OutputShape) : Type 0 where
  pub left : (s t : OutputShape) (v : Value) → describes s v ≡ true → describes (f s t) v ≡ true
  pub right : (s t : OutputShape) (v : Value) → describes t v ≡ true → describes (f s t) v ≡ true

abbrev pub some_describes : Value → List OutputShape → Bool
some_describes v ss = any (λ s. describes s v) ss

module _ (f : OutputShape → OutputShape → OutputShape) (h : IsUpper f) (v : Value) where
  reduce_from-upper :
      (s : OutputShape) (ts : List OutputShape)
      → (describes s v || some_describes v ts) ≡ true
      → describes (reduce_from f s ts) v ≡ true
  unfolding reduce_from
  reduce_from-upper s [] e = ground (arith, e)
  reduce_from-upper s (t ∷ ts) e =
      reduce_from-upper (f s t) ts
        (elim (or→either (describes s v) (describes t v || some_describes v ts) e) [
          | inl there ↦ ground (arith, h.left s t v there)
          | inr later ↦ elim (or→either (describes t v) (some_describes v ts) later) [
            | inl there ↦ ground (arith, h.right s t v there)
            | inr there ↦ ground (arith, there)
          ]
        ])

  pub reduce-upper :
      (ss : List OutputShape) → some_describes v ss ≡ true → describes (reduce f ss) v ≡ true
  unfolding reduce
  reduce-upper [] e = cc
  reduce-upper (s ∷ ss) e = reduce_from-upper s ss e
