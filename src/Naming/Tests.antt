-- ===== src/Naming/Tests.antt =====
-- Names, selectors and owners at concrete inputs.
use Prim.Native.String.{String}
use mcp_adapter.Prelude.{
  true, false, none, some, List, [], ◌∷◌, ◌≡◌, refl, ◌↔◌, AnyOf, nat_beq, keep,
}
use mcp_adapter.Json.{str, num, arr, items, no_elements, element, Elements}
use mcp_adapter.Naming.Prefix.{server, no_prefix, short, mcp, get_server_prefix, format_tool_name}
use mcp_adapter.Naming.Glob.{units, glob_source, glob_match, matches_tool_pattern}
use mcp_adapter.Naming.Glob.Compiled.{Matches, glob_match_iff}
use mcp_adapter.Naming.Glob.Laws.{Selects, matches_tool_pattern_iff}
use mcp_adapter.Naming.Owner.{resolve_server_from_tool_name}
use mcp_adapter.Naming.Owner.Laws.{Owns, resolve_server_from_tool_name-Owns}
use mcp_adapter.Naming.Ownership.{unique, producers, unique-eq-keep}

prefix_tests :
    (get_server_prefix "my.server" server ≡ "my_2e_server")
    × (get_server_prefix "github-MCP" short ≡ "github")
    × (get_server_prefix "mcp" short ≡ "mcp")
    × (format_tool_name "files_read" "files" server ≡ "files_read")
    × (format_tool_name "a.b" "files" mcp ≡ "mcp__files_a_b")
unfolding format_tool_name get_server_prefix
prefix_tests = (refl, refl, refl, refl, refl)

glob_tests :
    (glob_match (units "read_*") (units "read_file") ≡ true)
    × (glob_match (units "a?c*") (units "abc") ≡ true)
    × (glob_match (units "?") (units "😀") ≡ false)
    × (glob_match (units "a.c") (units "abc") ≡ false)
    × (glob_source (units "a+*?") ≡ units "a\\+.*.")
unfolding glob_match glob_source
glob_tests = (refl, refl, refl, refl, refl)

abbrev patterns : Elements
patterns = element (str "write") (element (num 3) (element (str "r*d") no_elements))

glob_match_iff_example :
    (glob_match (units "a*c") (units "abc") ≡ true) ↔ Matches (units "a*c") (units "abc")
glob_match_iff_example = glob_match_iff (units "a*c") (units "abc")

matches_tool_pattern_iff_example :
    (matches_tool_pattern ("read" ∷ []) (arr patterns) ≡ true)
    ↔ AnyOf (λ v. AnyOf (Selects v) ("read" ∷ [])) (items patterns)
matches_tool_pattern_iff_example = matches_tool_pattern_iff ("read" ∷ []) patterns

abbrev names : List String
names = "git" ∷ "git_hub" ∷ "files" ∷ []

owner_tests :
    (resolve_server_from_tool_name "git_hub_pull" names server ≡ some "git_hub")
    × (resolve_server_from_tool_name "foo_x" ("foo" ∷ "foo-mcp" ∷ []) short ≡ none)
    × (resolve_server_from_tool_name "git_hub" names no_prefix ≡ none)
unfolding resolve_server_from_tool_name get_server_prefix
owner_tests = (refl, refl, refl)

resolve_server_from_tool_name-Owns_example : Owns "git_hub_pull" server names "git_hub"
unfolding resolve_server_from_tool_name get_server_prefix
resolve_server_from_tool_name-Owns_example =
    resolve_server_from_tool_name-Owns "git_hub_pull" names server "git_hub" refl

unique-eq-keep_example :
    unique (λ s. s) names ≡ keep (λ e. nat_beq (producers (λ s. s) e names) 1) names
unique-eq-keep_example = unique-eq-keep (λ s. s) names
