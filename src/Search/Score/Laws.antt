-- ===== src/Search/Score/Laws.antt =====
-- When a tool is found, told without the order of the loops.
pub mod Found
mod Tests
use text.Mathlib.Text.{starts_with}
use text.Mathlib.TextPositions.{starts_with-append}
use text.Mathlib.TextLemmas.{append-nil}
use mcp_adapter.Prelude.{
  ℕ, ◌+◌, ◌*◌, leb, String, Bool, true, false, not, ◌&&◌, ◌||◌, Option, none, some, List, [], ◌∷◌,
  ◌==◌, ◌≡◌, refl, subst, sym, ap, ◌∙◌, arith, inl, inr, if◌then◌else◌, eq_iff, eq_refl, any,
  contains, add, length, is_some, contains-add, contains-nil, nat_beq, Bool-cases, Option-cases,
}
use mcp_adapter.Search.Score.Distinct.{
  no_repeats, chosen, contains-chosen, no_repeats-chosen, no_repeats-add, length-same_members,
}
use mcp_adapter.Search.Score.{
  includes, matches_ascii_stem, SearchField, PreparedToolSearch, Tally, phrase_points, token_points,
  add_phrase, add_token, tally_tokens, tally_field, tally_fields, tally_phrases, tally_keywords,
  covers, finish, tally, score_prepared_tool_match,
}

starts_with-includes : (s q : String) → starts_with s q ≡ true → includes s q ≡ true
unfolding includes
starts_with-includes String.[] q h = h
starts_with-includes (String.◌∷◌ c s) q h = rw h refl

starts_with_self : (q : String) → starts_with q q ≡ true
starts_with_self q = subst (λ v. starts_with v q ≡ true) (append-nil q) (starts_with-append q "")

is_some-phrase_points :
    (value query : String) → is_some (phrase_points value query) ≡ includes value query
unfolding phrase_points
is_some-phrase_points value query = elim (Bool-cases (value == query)) [
  | inl same ↦
      let e = (eq_iff value query).0 same in
      ground (
        arith,
        same,
        subst (λ v. includes v query ≡ true) (sym e)
            (starts_with-includes query query (starts_with_self query)),
      )
  | inr other ↦ elim (Bool-cases (starts_with value query)) [
    | inl leads ↦ ground (arith, other, leads, starts_with-includes value query leads)
    | inr inner ↦ ground (arith, other, inner)
  ]
]

-- A token of the query matches: it is one of the tokens, or leads or follows one of them as a stem, or
-- stands inside a text.
abbrev pub matches_token : List String → Bool → String → Bool
matches_token tokens inside t =
    contains t tokens || any (λ u. matches_ascii_stem u t) tokens || inside

is_some-token_points :
    (tokens : List String) (inside : Bool) (t : String)
    → is_some (token_points tokens inside t) ≡ matches_token tokens inside t
unfolding token_points
is_some-token_points tokens inside t = ground arith

token_or :
    (a e r p q : Bool) → (e ≡ true → p ≡ q) → (a || (e && p) || (r && q)) ≡ (a || ((e || r) && q))
token_or a true r p q h = rw (h refl) ground arith
token_or a false r p q h = ground arith

module _ (t : String) where
  contains-add_token :
      (weight : ℕ) (token : String) (o : Option ℕ) (a : Tally)
      → contains t (add_token weight token o a).matched_tokens
        ≡ (contains t a.matched_tokens || (token == t && is_some o))
  unfolding add_token
  contains-add_token weight token none a = ground arith
  contains-add_token weight token (some n) a = ground (arith, contains-add t token a.matched_tokens)

  contains-tally_tokens :
      (weight : ℕ) (tokens : List String) (inside : String → Bool) (query : List String) (a : Tally)
      → contains t (tally_tokens weight tokens inside query a).matched_tokens
        ≡ (contains t a.matched_tokens || (contains t query && matches_token tokens (inside t) t))
  unfolding tally_tokens contains
  contains-tally_tokens weight tokens inside [] a = ground arith
  contains-tally_tokens weight tokens inside (token ∷ rest) a =
      contains-tally_tokens weight tokens inside rest
        (add_token weight token (token_points tokens (inside token) token) a)
      ∙ rw (contains-add_token weight token (token_points tokens (inside token) token) a) rw
          (is_some-token_points tokens (inside token) token)
          (token_or (contains t a.matched_tokens) (token == t) (contains t rest) _
            (matches_token tokens (inside t) t)
            (λ same. ap (λ u. matches_token tokens (inside u) u) ((eq_iff token t).0 same)))

  add_phrase-matched_tokens :
      (weight : ℕ) (exact : Bool) (o : Option ℕ) (a : Tally)
      → (add_phrase weight exact o a).matched_tokens ≡ a.matched_tokens
  unfolding add_phrase
  add_phrase-matched_tokens weight exact none a = refl
  add_phrase-matched_tokens weight exact (some n) a = refl

  -- The field has the token.
  abbrev field_has : SearchField → Bool
  unfolding includes
  field_has f = matches_token f.tokens (includes f.value t) t

  contains-tally_fields :
      (query : String) (tokens : List String) (fs : List SearchField) (a : Tally)
      → contains t (tally_fields query tokens fs a).matched_tokens
        ≡ (contains t a.matched_tokens || (contains t tokens && any field_has fs))
  unfolding tally_fields tally_field field_has
  contains-tally_fields query tokens [] a = ground arith
  contains-tally_fields query tokens (f ∷ fs) a =
      let with_phrase = add_phrase f.weight (f.value == query) (phrase_points f.value query) a in
      contains-tally_fields query tokens fs (tally_field query tokens f a)
      ∙ rw (contains-tally_tokens f.weight f.tokens (includes f.value) tokens with_phrase) rw
          (add_phrase-matched_tokens f.weight (f.value == query) (phrase_points f.value query) a)
          ground arith

tally_tokens-phrase_matched :
    (weight : ℕ) (tokens : List String) (inside : String → Bool) (query : List String) (a : Tally)
    → (tally_tokens weight tokens inside query a).phrase_matched ≡ a.phrase_matched
unfolding tally_tokens add_token
tally_tokens-phrase_matched weight tokens inside [] a = refl
tally_tokens-phrase_matched weight tokens inside (token ∷ rest) a =
    tally_tokens-phrase_matched weight tokens inside rest
      (add_token weight token (token_points tokens (inside token) token) a)
    ∙ add_token-phrase_matched weight token (token_points tokens (inside token) token) a
  where
    add_token-phrase_matched :
        (weight : ℕ) (token : String) (o : Option ℕ) (a : Tally)
        → (add_token weight token o a).phrase_matched ≡ a.phrase_matched
    add_token-phrase_matched weight token none a = refl
    add_token-phrase_matched weight token (some n) a = refl

add_phrase-phrase_matched :
    (weight : ℕ) (exact : Bool) (o : Option ℕ) (a : Tally)
    → (add_phrase weight exact o a).phrase_matched ≡ (a.phrase_matched || is_some o)
unfolding add_phrase
add_phrase-phrase_matched weight exact none a = ground arith
add_phrase-phrase_matched weight exact (some n) a = ground arith

tally_fields-phrase_matched :
    (query : String) (tokens : List String) (fs : List SearchField) (a : Tally)
    → (tally_fields query tokens fs a).phrase_matched
      ≡ (a.phrase_matched || any (λ f. includes f.value query) fs)
unfolding tally_fields tally_field
tally_fields-phrase_matched query tokens [] a = ground arith
tally_fields-phrase_matched query tokens (f ∷ fs) a =
    let with_phrase = add_phrase f.weight (f.value == query) (phrase_points f.value query) a in
    tally_fields-phrase_matched query tokens fs (tally_field query tokens f a)
    ∙ rw (tally_tokens-phrase_matched f.weight f.tokens (includes f.value) tokens with_phrase) rw
        (add_phrase-phrase_matched f.weight (f.value == query) (phrase_points f.value query) a) rw
        (is_some-phrase_points f.value query) ground arith

any_phrase :
    (query : String) (phrases : List String)
    → any (λ k. is_some (phrase_points k query)) phrases ≡ any (λ k. includes k query) phrases
any_phrase query [] = refl
any_phrase query (k ∷ phrases) =
    rw (is_some-phrase_points k query) rw (any_phrase query phrases) refl

-- The keywords have the token, where there are any.
phrases_have : List String → List String → String → Bool
unfolding includes
phrases_have keyword_tokens [] t = false
phrases_have keyword_tokens (k ∷ ks) t =
    matches_token keyword_tokens (any (λ i. includes i t) (k ∷ ks)) t

-- Some text that is searched holds the whole query.
unfoldable pub holds_query : PreparedToolSearch → String → Bool
unfolding includes
holds_query p query =
    any (λ f. includes f.value query) p.fields || any (λ k. includes k query) p.keyword_phrases

-- Some field or keyword matches the token.
unfoldable pub has_token : PreparedToolSearch → String → Bool
unfolding phrases_have field_has
has_token p t = any (field_has t) p.fields || phrases_have p.keyword_tokens p.keyword_phrases t

tally_phrases-phrase_matched :
    (query : String) (tokens keyword_tokens phrases : List String) (a : Tally)
    → (tally_phrases query tokens keyword_tokens phrases a).phrase_matched
      ≡ (a.phrase_matched || any (λ k. includes k query) phrases)
unfolding tally_phrases
tally_phrases-phrase_matched query tokens keyword_tokens [] a = ground arith
tally_phrases-phrase_matched query tokens keyword_tokens (k ∷ ks) a =
    tally_tokens-phrase_matched 5 keyword_tokens (λ t. any (λ i. includes i t) (k ∷ ks)) tokens _
    ∙ ap (λ b. a.phrase_matched || b) (any_phrase query (k ∷ ks))

contains-tally_phrases :
    (t query : String) (tokens keyword_tokens phrases : List String) (a : Tally)
    → contains t (tally_phrases query tokens keyword_tokens phrases a).matched_tokens ≡ (
        contains t a.matched_tokens || (contains t tokens && phrases_have keyword_tokens phrases t))
unfolding tally_phrases phrases_have
contains-tally_phrases t query tokens keyword_tokens [] a = ground arith
contains-tally_phrases t query tokens keyword_tokens (k ∷ ks) a =
    contains-tally_tokens t 5 keyword_tokens (λ u. any (λ i. includes i u) (k ∷ ks)) tokens _

is_some-if : (b : Bool) (n : ℕ) → is_some (if b then some n else none) ≡ b
is_some-if true n = refl
is_some-if false n = refl

finish-found :
    (p : PreparedToolSearch) (tokens : List String) (t : Tally)
    → is_some (finish p tokens t)
      ≡ (t.phrase_matched || covers (length t.matched_tokens) (length tokens))
unfolding finish
finish-found p tokens t =
    is_some-if (t.phrase_matched || covers (length t.matched_tokens) (length tokens)) _
