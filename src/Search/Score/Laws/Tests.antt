-- ===== src/Search/Score/Laws/Tests.antt =====
-- A search over two fields and a keyword.
use mcp_adapter.Prelude.{some, [], ◌∷◌, ◌≡◌, ◌||◌, refl, length, is_some}
use mcp_adapter.Search.Score.{PreparedToolSearch, score_prepared_tool_match}
use mcp_adapter.Search.Score.Distinct.{chosen}
use mcp_adapter.Search.Score.Laws.{holds_query, has_token}
use mcp_adapter.Search.Score.Laws.Found.{is_enough, score_prepared_tool_match-found}

abbrev search_issues : PreparedToolSearch
search_issues = record {
  fields =
      record { weight = 12; value = "search issues"; tokens = "search" ∷ "issues" ∷ [] }
      ∷ record { weight = 8; value = "tracker"; tokens = "tracker" ∷ [] }
      ∷ [];
  name_tokens = "search" ∷ "issues" ∷ [];
  keyword_phrases = "bug report" ∷ [];
  keyword_tokens = "bug" ∷ "report" ∷ [];
}

-- 48 for the token of the name, 20 for the keyword's, 25 for both and 8 for the first.
two_tokens : score_prepared_tool_match search_issues "issues bug" ("issues" ∷ "bug" ∷ []) ≡ some 101
unfolding score_prepared_tool_match
two_tokens = refl

score_prepared_tool_match-found_example :
    is_some (score_prepared_tool_match search_issues "issues bug" ("issues" ∷ "bug" ∷ [])) ≡ (
      holds_query search_issues "issues bug"
      || is_enough (length (chosen (has_token search_issues) ("issues" ∷ "bug" ∷ []))) 2)
score_prepared_tool_match-found_example =
    score_prepared_tool_match-found search_issues "issues bug" ("issues" ∷ "bug" ∷ [])
