-- ===== src/Naming/Owner.antt =====
-- types.ts: `resolveServerFromToolName`, from a prefixed tool name back to its server.
pub mod Laws
use Prim.Native.String.{count, ◌++◌}
use text.Mathlib.Text.{starts_with}
use mcp_adapter.Prelude.{
  ℕ, String, Bool, true, false, Option, none, some, List, [], ◌∷◌, ◌==◌, ◌&&◌, not, if◌then◌else◌,
  leb, any,
}
use mcp_adapter.Naming.Prefix.{ToolPrefix, no_prefix, get_server_prefix}

pub record Candidate : Type 0 where
  pub name : String
  pub prefix : String

-- `p && toolName.startsWith(p + "_")`
abbrev pub claims : String → String → Bool
claims tool p = not (p == "") && starts_with tool (p ++ "_")

candidates_from : String → ToolPrefix → List String → List Candidate
candidates_from tool mode [] = []
candidates_from tool mode (name ∷ names) =
    let rest = candidates_from tool mode names in
    let p = get_server_prefix name mode in
    if claims tool p then record { name = name; prefix = p } ∷ rest else rest

-- `sort((a, b) => b.prefix.length - a.prefix.length)`, stable.
insert_candidate : Candidate → List Candidate → List Candidate
insert_candidate c [] = c ∷ []
insert_candidate c (d ∷ ds) =
    if leb (count d.prefix) (count c.prefix) then c ∷ d ∷ ds else d ∷ insert_candidate c ds

sort_candidates : List Candidate → List Candidate
sort_candidates [] = []
sort_candidates (c ∷ cs) = insert_candidate c (sort_candidates cs)

abbrev is_rival : Candidate → Candidate → Bool
is_rival best c = c.prefix == best.prefix && not (c.name == best.name)

pick : List Candidate → Option String
pick [] = none
pick (best ∷ rest) = if any (is_rival best) (best ∷ rest) then none else some best.name

unfoldable pub resolve_server_from_tool_name : String → List String → ToolPrefix → Option String
unfolding candidates_from sort_candidates insert_candidate pick
resolve_server_from_tool_name tool names no_prefix = none
resolve_server_from_tool_name tool names mode =
    pick (sort_candidates (candidates_from tool mode names))
