-- ===== src/Search/Score.antt =====
-- search-ranking.ts: `scorePreparedToolMatch`. The prepared texts and tokens come from regular
-- expressions and Unicode case folding, which are JavaScript's; they are taken as they are here.
pub mod Distinct
pub mod Laws
use Prim.Native.Char.{code}
use Prim.Native.String.{count}
use text.Mathlib.Text.{starts_with}
use mcp_adapter.Prelude.{
  ℕ, ◌+◌, ◌*◌, ◌/◌, max, String, Bool, true, false, not, ◌&&◌, ◌||◌, Option, none, some, List, [],
  ◌∷◌, ◌==◌, if◌then◌else◌, nat_beq, ltb, leb, any, contains, add, length, is_some,
}

-- `value.includes(part)`
unfoldable pub includes : String → String → Bool
includes String.[] part = starts_with String.[] part
includes (String.◌∷◌ c s) part =
    let later = includes s part in starts_with (String.◌∷◌ c s) part || later

abbrev is_ascii_word : ℕ → Bool
is_ascii_word c = (leb b'a' c && leb c b'z') || (leb b'0' c && leb c b'9')

all_ascii_words : String → Bool
all_ascii_words String.[] = true
all_ascii_words (String.◌∷◌ c s) = is_ascii_word (code c) && all_ascii_words s

-- `ASCII_RUN.test(value)`
is_ascii_run : String → Bool
unfolding all_ascii_words
is_ascii_run value = not (value == "") && all_ascii_words value

abbrev min_stem_length : ℕ
min_stem_length = 4

unfoldable pub matches_ascii_stem : String → String → Bool
unfolding is_ascii_run
matches_ascii_stem field_token query_token =
    is_ascii_run field_token
    && is_ascii_run query_token
    && (starts_with field_token query_token
        || (leb min_stem_length (count field_token) && starts_with query_token field_token))

pub record SearchField : Type 0 where
  pub weight : ℕ
  pub value : String
  pub tokens : List String

pub record PreparedToolSearch : Type 0 where
  pub fields : List SearchField
  pub name_tokens : List String
  pub keyword_phrases : List String
  pub keyword_tokens : List String

-- The variables of the function.
pub record Tally : Type 0 where
  pub score : ℕ
  pub phrase_matched : Bool
  pub whole_field_exact : Bool
  pub matched_tokens : List String

-- How a text matches the whole query: the multiple of its weight, and whether it is the query.
phrase_points : String → String → Option ℕ
unfolding includes
phrase_points value query =
    if value == query
    then some 14
    else if starts_with value query
    then some 9
    else if includes value query
    then some 6
    else none

-- How a token of the query matches tokens, or a text by `inside`.
token_points : List String → Bool → String → Option ℕ
unfolding contains matches_ascii_stem
token_points tokens inside token =
    if contains token tokens
    then some 4
    else if any (λ t. matches_ascii_stem t token) tokens
    then some 2
    else if inside
    then some 1
    else none

add_phrase : ℕ → Bool → Option ℕ → Tally → Tally
add_phrase weight exact none t = t
add_phrase weight exact (some points) t = record t {
  score = t.score + weight * points;
  phrase_matched = true;
  whole_field_exact = t.whole_field_exact || exact;
}

add_token : ℕ → String → Option ℕ → Tally → Tally
unfolding add
add_token weight token none t = t
add_token weight token (some points) t = record t {
  score = t.score + weight * points;
  matched_tokens = add token t.matched_tokens;
}

-- The loop over the query's tokens.
tally_tokens : ℕ → List String → (String → Bool) → List String → Tally → Tally
unfolding add_token token_points
tally_tokens weight tokens inside [] t = t
tally_tokens weight tokens inside (token ∷ rest) t =
    tally_tokens weight tokens inside rest
      (add_token weight token (token_points tokens (inside token) token) t)

-- One round of the loop over the fields.
tally_field : String → List String → SearchField → Tally → Tally
unfolding tally_tokens add_phrase phrase_points includes
tally_field query tokens f t =
    tally_tokens f.weight f.tokens (includes f.value) tokens
      (add_phrase f.weight (f.value == query) (phrase_points f.value query) t)

unfoldable pub tally_fields : String → List String → List SearchField → Tally → Tally
unfolding tally_field
tally_fields query tokens [] t = t
tally_fields query tokens (f ∷ fs) t = tally_fields query tokens fs (tally_field query tokens f t)

-- The best of the phrases counts; the score of the tally is kept apart from it.
best_phrase : String → List String → ℕ → ℕ
unfolding phrase_points
best_phrase query [] best = best
best_phrase query (phrase ∷ phrases) best =
    best_phrase query phrases
      (elim (phrase_points phrase query) as (λ _. ℕ) [ none ↦ best | some p ↦ max best (5 * p) ])

tally_phrases : String → List String → List String → List String → Tally → Tally
unfolding tally_tokens best_phrase phrase_points includes
tally_phrases query tokens keyword_tokens [] t = t
tally_phrases query tokens keyword_tokens (phrase ∷ phrases) t =
    let all_phrases = phrase ∷ phrases in
    tally_tokens 5 keyword_tokens (λ token. any (λ k. includes k token) all_phrases) tokens
      record {
        score = t.score + best_phrase query all_phrases 0;
        phrase_matched = t.phrase_matched || any (λ k. is_some (phrase_points k query)) all_phrases;
        whole_field_exact = t.whole_field_exact || any (λ k. k == query) all_phrases;
        matched_tokens = t.matched_tokens;
      }

unfoldable pub tally_keywords : String → List String → PreparedToolSearch → Tally → Tally
unfolding tally_phrases
tally_keywords query tokens p t = tally_phrases query tokens p.keyword_tokens p.keyword_phrases t

-- `matched / asked` against the bounds of the source, without fractions: all of one or two tokens,
-- and six tenths of more.
abbrev pub covers : ℕ → ℕ → Bool
covers matched asked = if leb asked 2 then nat_beq matched asked else leb (6 * asked) (10 * matched)

-- `coverage === 1 ? 25 : Math.round(coverage * 10)`
abbrev coverage_bonus : ℕ → ℕ → ℕ
coverage_bonus matched asked =
    if nat_beq matched asked then 25 else (20 * matched + asked) / (2 * asked)

first_bonus : List String → List String → ℕ
unfolding contains
first_bonus name_tokens [] = 0
first_bonus name_tokens (first ∷ rest) = if contains first name_tokens then 8 else 0

finish : PreparedToolSearch → List String → Tally → Option ℕ
unfolding first_bonus
finish p tokens t =
    let matched = length t.matched_tokens in
    if t.phrase_matched || covers matched (length tokens)
    then some (
        t.score
        + coverage_bonus matched (length tokens)
        + first_bonus p.name_tokens tokens
        + (if t.whole_field_exact then 20 else 0))
    else none

unfoldable pub tally : PreparedToolSearch → String → List String → Tally
unfolding tally_keywords tally_fields
tally p query tokens = tally_keywords query tokens p (
    tally_fields query tokens p.fields
      record { score = 0; phrase_matched = false; whole_field_exact = false; matched_tokens = [] })

-- `tokens` is not empty where the source calls this.
unfoldable pub score_prepared_tool_match : PreparedToolSearch → String → List String → Option ℕ
unfolding finish tally
score_prepared_tool_match p query tokens = finish p tokens (tally p query tokens)
