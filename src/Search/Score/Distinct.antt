-- ===== src/Search/Score/Distinct.antt =====
-- Lists of texts without repeats, as the sets of matched tokens are: how many members they have.
use mcp_adapter.Prelude.{
  suc, String, Bool, true, false, not, ◌&&◌, List, [], ◌∷◌, ◌==◌, ◌≡◌, refl, ap, sym, ◌∙◌, arith,
  inl, inr, if◌then◌else◌, eq_iff, eq_refl, contains, contains-add, contains-remove, add, remove,
  length, Bool-cases, and→both,
}

unfoldable pub no_repeats : List String → Bool
unfolding contains
no_repeats [] = true
no_repeats (x ∷ xs) = not (contains x xs) && no_repeats xs

-- The tokens that pass a test, each once.
unfoldable pub chosen : (String → Bool) → List String → List String
unfolding contains
chosen test [] = []
chosen test (t ∷ ts) =
    let rest = chosen test ts in if test t && not (contains t ts) then t ∷ rest else rest

pub contains-chosen :
    (test : String → Bool) (t : String) (ts : List String)
    → contains t (chosen test ts) ≡ (contains t ts && test t)
unfolding chosen contains
contains-chosen test t [] = refl
contains-chosen test t (u ∷ ts) = elim (Bool-cases (u == t)) [
  | inl same ↦
      let e = (eq_iff u t).0 same in
      ground (arith, same, ap test e, ap (λ v. contains v ts) e, contains-chosen test t ts)
  | inr other ↦ ground (arith, other, contains-chosen test t ts)
]

pub no_repeats-chosen :
    (test : String → Bool) (ts : List String) → no_repeats (chosen test ts) ≡ true
unfolding chosen no_repeats
no_repeats-chosen test [] = refl
no_repeats-chosen test (t ∷ ts) =
    ground (arith, no_repeats-chosen test ts, contains-chosen test t ts)

pub no_repeats-add :
    (k : String) (xs : List String) → no_repeats xs ≡ true → no_repeats (add k xs) ≡ true
unfolding no_repeats add contains
no_repeats-add k [] h = refl
no_repeats-add k (x ∷ xs) h =
    let b = and→both (not (contains x xs)) (no_repeats xs) h in
    ground (arith, b.0, b.1, no_repeats-add k xs b.1, contains-add x k xs, eq_iff x k, eq_iff k x)

no_repeats-remove :
    (k : String) (xs : List String) → no_repeats xs ≡ true → no_repeats (remove k xs) ≡ true
unfolding no_repeats remove
no_repeats-remove k [] h = refl
no_repeats-remove k (x ∷ xs) h =
    let b = and→both (not (contains x xs)) (no_repeats xs) h in
    ground (arith, b.0, b.1, no_repeats-remove k xs b.1, contains-remove x k xs)

length-remove-absent :
    (k : String) (xs : List String) → contains k xs ≡ false → length (remove k xs) ≡ length xs
unfolding remove contains
length-remove-absent k [] h = refl
length-remove-absent k (x ∷ xs) h = ground (arith, h, length-remove-absent k xs)

length-remove :
    (k : String) (xs : List String)
    → no_repeats xs ≡ true
    → contains k xs ≡ true
    → suc (length (remove k xs)) ≡ length xs
unfolding no_repeats remove contains
length-remove k [] h c = cc
length-remove k (x ∷ xs) h c =
    let b = and→both (not (contains x xs)) (no_repeats xs) h in
    elim (Bool-cases (x == k)) [
      | inl same ↦
          let absent : contains k xs ≡ false =
            ap (λ j. contains j xs) (sym ((eq_iff x k).0 same)) ∙ ground (arith, b.0) in
          rw same omega (arith, length-remove-absent k xs absent)
      | inr other ↦ rw other omega (arith, length-remove k xs b.1 (ground (arith, c, other)))
    ]

-- Two lists without repeats that have the same members are equally long.
pub length-same_members :
    (xs ys : List String)
    → no_repeats xs ≡ true
    → no_repeats ys ≡ true
    → ((t : String) → contains t xs ≡ contains t ys)
    → length xs ≡ length ys
unfolding no_repeats contains
length-same_members [] [] h k e = refl
length-same_members [] (y ∷ ys) h k e = absurd (ground (arith, e y, eq_refl y))
length-same_members (x ∷ xs) ys h k e =
    let b = and→both (not (contains x xs)) (no_repeats xs) h in
    let there : contains x ys ≡ true = sym (e x) ∙ ground (arith, eq_refl x) in
    let rest = length-same_members xs (remove x ys) b.1 (no_repeats-remove x ys k) (λ t.
      elim (Bool-cases (x == t)) [
        | inl same ↦
            let absent : contains t xs ≡ false =
              ap (λ j. contains j xs) (sym ((eq_iff x t).0 same)) ∙ ground (arith, b.0) in
            ground (arith, absent, same, contains-remove t x ys)
        | inr other ↦ ground (arith, other, e t, contains-remove t x ys)
      ]) in
    omega (arith, rest, length-remove x ys k there)
