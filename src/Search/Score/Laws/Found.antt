-- ===== src/Search/Score/Laws/Found.antt =====
-- What is enough for a tool to be found.
use mcp_adapter.Prelude.{
  ℕ, ◌*◌, leb, String, Bool, true, false, ◌&&◌, ◌||◌, Option, none, some, List, [], ◌∷◌, ◌==◌, ◌≡◌,
  refl, sym, ap, ◌∙◌, arith, if◌then◌else◌, any, contains, length, is_some, contains-nil, nat_beq,
}
use mcp_adapter.Search.Score.Distinct.{
  no_repeats, chosen, contains-chosen, no_repeats-chosen, no_repeats-add, length-same_members,
}
use mcp_adapter.Search.Score.{
  includes, SearchField, PreparedToolSearch, Tally, phrase_points, token_points, add_phrase,
  add_token, tally_tokens, tally_field, tally_fields, tally_phrases, tally_keywords, covers, tally,
  score_prepared_tool_match,
}
use mcp_adapter.Search.Score.Laws.{
  contains-tally_phrases, contains-tally_fields, tally_phrases-phrase_matched,
  tally_fields-phrase_matched, add_phrase-matched_tokens, finish-found, holds_query, has_token,
}

tally_tokens-no_repeats :
    (weight : ℕ) (tokens : List String) (inside : String → Bool) (query : List String) (a : Tally)
    → no_repeats a.matched_tokens ≡ true
    → no_repeats (tally_tokens weight tokens inside query a).matched_tokens ≡ true
unfolding tally_tokens
tally_tokens-no_repeats weight tokens inside [] a h = h
tally_tokens-no_repeats weight tokens inside (token ∷ rest) a h =
    tally_tokens-no_repeats weight tokens inside rest
      (add_token weight token (token_points tokens (inside token) token) a)
      (add_token-no_repeats (token_points tokens (inside token) token))
  where
    add_token-no_repeats :
        (o : Option ℕ) → no_repeats (add_token weight token o a).matched_tokens ≡ true
    add_token-no_repeats none = h
    add_token-no_repeats (some n) = no_repeats-add token a.matched_tokens h

tally_fields-no_repeats :
    (query : String) (tokens : List String) (fs : List SearchField) (a : Tally)
    → no_repeats a.matched_tokens ≡ true
    → no_repeats (tally_fields query tokens fs a).matched_tokens ≡ true
unfolding tally_fields tally_field
tally_fields-no_repeats query tokens [] a h = h
tally_fields-no_repeats query tokens (f ∷ fs) a h =
    let points = phrase_points f.value query in
    tally_fields-no_repeats query tokens fs (tally_field query tokens f a) (
      tally_tokens-no_repeats f.weight f.tokens (includes f.value) tokens
        (add_phrase f.weight (f.value == query) points a)
        (rw (add_phrase-matched_tokens "" f.weight (f.value == query) points a) h))

tally_phrases-no_repeats :
    (query : String) (tokens keyword_tokens phrases : List String) (a : Tally)
    → no_repeats a.matched_tokens ≡ true
    → no_repeats (tally_phrases query tokens keyword_tokens phrases a).matched_tokens ≡ true
unfolding tally_phrases
tally_phrases-no_repeats query tokens keyword_tokens [] a h = h
tally_phrases-no_repeats query tokens keyword_tokens (k ∷ ks) a h =
    tally_tokens-no_repeats 5 keyword_tokens (λ t. any (λ i. includes i t) (k ∷ ks)) tokens _ h

tally-no_repeats :
    (p : PreparedToolSearch) (query : String) (tokens : List String)
    → no_repeats (tally p query tokens).matched_tokens ≡ true
unfolding tally tally_keywords no_repeats
tally-no_repeats p query tokens =
    tally_phrases-no_repeats query tokens p.keyword_tokens p.keyword_phrases _
      (tally_fields-no_repeats query tokens p.fields _ refl)

contains-tally :
    (p : PreparedToolSearch) (query : String) (tokens : List String) (t : String)
    → contains t (tally p query tokens).matched_tokens ≡ (contains t tokens && has_token p t)
unfolding tally tally_keywords has_token
contains-tally p query tokens t =
    let start : Tally = record {
      score = 0;
      phrase_matched = false;
      whole_field_exact = false;
      matched_tokens = [];
    } in
    contains-tally_phrases t query tokens p.keyword_tokens p.keyword_phrases
      (tally_fields query tokens p.fields start)
    ∙ rw (contains-tally_fields t query tokens p.fields start) ground (arith, contains-nil t)

length-tally :
    (p : PreparedToolSearch) (query : String) (tokens : List String)
    → length (tally p query tokens).matched_tokens ≡ length (chosen (has_token p) tokens)
length-tally p query tokens =
    length-same_members (tally p query tokens).matched_tokens (chosen (has_token p) tokens)
      (tally-no_repeats p query tokens) (no_repeats-chosen (has_token p) tokens)
      (λ t. contains-tally p query tokens t ∙ sym (contains-chosen (has_token p) t tokens))

tally-phrase_matched :
    (p : PreparedToolSearch) (query : String) (tokens : List String)
    → (tally p query tokens).phrase_matched ≡ holds_query p query
unfolding tally tally_keywords holds_query
tally-phrase_matched p query tokens =
    let start : Tally = record {
      score = 0;
      phrase_matched = false;
      whole_field_exact = false;
      matched_tokens = [];
    } in
    tally_phrases-phrase_matched query tokens p.keyword_tokens p.keyword_phrases
      (tally_fields query tokens p.fields start)
    ∙ ap (λ b. b || any (λ k. includes k query) p.keyword_phrases)
        (tally_fields-phrase_matched query tokens p.fields start)

-- Of one or two tokens all, and of more at least three fifths.
abbrev pub is_enough : ℕ → ℕ → Bool
is_enough found asked = if leb asked 2 then nat_beq found asked else leb (3 * asked) (5 * found)

covers-is_enough : (found asked : ℕ) → covers found asked ≡ is_enough found asked
covers-is_enough found asked = ground arith

-- A tool is found for a query exactly when one of its texts holds the whole query, or when enough of
-- the query's tokens, each counted once, are matched by some field or by the keywords: all of one or
-- two tokens, and at least three fifths of more. A token is matched by a field or by the keywords if
-- it is one of their tokens, shares a stem with one, or stands inside the text.
pub score_prepared_tool_match-found :
    (p : PreparedToolSearch) (query : String) (tokens : List String)
    → is_some (score_prepared_tool_match p query tokens)
      ≡ (holds_query p query || is_enough (length (chosen (has_token p) tokens)) (length tokens))
unfolding score_prepared_tool_match
score_prepared_tool_match-found p query tokens =
    finish-found p tokens (tally p query tokens)
    ∙ rw (tally-phrase_matched p query tokens) rw (length-tally p query tokens) (
        ap (λ b. holds_query p query || b)
          (covers-is_enough (length (chosen (has_token p) tokens)) (length tokens)))
