-- ===== src/Approval/Gate/Required.antt =====
-- tool-approval.ts: `isToolCallApprovalRequired`, with the tool metadata that the gate passes.
use mcp_adapter.Prelude.{
  String, Bool, true, false, Option, none, some, List, [], ◌∷◌, ◌==◌, ◌&&◌, not, if◌then◌else◌, Map,
  get, remove, add, any, find, or_else,
}
use mcp_adapter.Json.{
  Value, null, undefined, bool, num, str, arr, obj, items, no_elements, element, prop, is_str,
  Elements,
}
use mcp_adapter.Naming.Prefix.{
  ToolPrefix, resolve_tool_prefix, get_tool_name_candidates, underscored, is_dash,
}
use mcp_adapter.Naming.Glob.{matches_tool_pattern}
use mcp_adapter.Approval.Session.{ApprovalState, ServerEntry, ToolMeta}

-- A configured `toolPrefix`; what is no known mode behaves as "server".
abbrev known_prefix : Value → ToolPrefix
known_prefix v =
    if is_str v "none"
    then ToolPrefix.no_prefix
    else if is_str v "short"
    then ToolPrefix.short
    else if is_str v "mcp"
    then ToolPrefix.mcp
    else ToolPrefix.server

abbrev pub tool_prefix_of : Value → Option ToolPrefix
tool_prefix_of undefined = none
tool_prefix_of null = none
tool_prefix_of v = some (known_prefix v)

abbrev entry_value : String → Option ServerEntry → Value
entry_value key none = undefined
entry_value key (some definition) = prop key definition.fields

abbrev pub server_approval : ApprovalState → String → Value
server_approval s name = entry_value "approveTools" (get name s.servers)

abbrev is_undefined : Value → Bool
is_undefined undefined = true
is_undefined _ = false

-- The setting that decides: the server's own, or else the global one.
abbrev pub approval_setting : ApprovalState → String → Value
approval_setting s name =
    if is_undefined (server_approval s name)
    then prop "approveTools" s.settings
    else server_approval s name

abbrev pub prefix_of : ApprovalState → String → ToolPrefix
prefix_of s name =
    resolve_tool_prefix (tool_prefix_of (entry_value "toolPrefix" (get name s.servers)))
      (tool_prefix_of (prop "toolPrefix" s.settings))

abbrev add_all : List String → List String → List String
add_all [] xs = xs
add_all (y ∷ ys) xs = add_all ys (add y xs)

abbrev remove_all : List String → List String → List String
remove_all [] xs = xs
remove_all (y ∷ ys) xs = remove_all ys (remove y xs)

current_candidates : ApprovalState → String → String → List String
unfolding get_tool_name_candidates
current_candidates s name tool = get_tool_name_candidates tool name (prefix_of s name) false

-- `[...current].find(c => c !== originalName)?.replace(/-/g, "_")`, added if it is not empty.
abbrev with_legacy_emitted : List String → String → List String → List String
with_legacy_emitted current tool legacy = elim (find (λ c. not (c == tool)) current) [
  | none ↦ legacy
  | some c ↦ if underscored is_dash c == "" then legacy else add (underscored is_dash c) legacy
]

legacy_candidates : ApprovalState → String → String → List String
unfolding get_tool_name_candidates current_candidates add remove underscored
legacy_candidates s name tool =
    let current = current_candidates s name tool in
    remove_all current (
      with_legacy_emitted current tool (get_tool_name_candidates tool name (prefix_of s name) true))

tools_candidates : ApprovalState → String → List ToolMeta → List String → List String
tools_candidates s name [] found = found
tools_candidates s name (t ∷ ts) found =
    tools_candidates s name ts (add_all (current_candidates s name t.original_name) found)

servers_candidates : ApprovalState → Map (List ToolMeta) → List String → List String
servers_candidates s [] found = found
servers_candidates s ((name, tools) ∷ rest) found =
    servers_candidates s rest (tools_candidates s name tools found)

-- The current names of the tools that a selector could mean: those of the server where the setting
-- is the server's own, and of every server where it is global.
other_candidates : ApprovalState → String → String → List String
unfolding tools_candidates servers_candidates current_candidates get remove add
other_candidates s name tool = remove_all (current_candidates s name tool) (
    if is_undefined (server_approval s name)
    then servers_candidates s s.tool_metadata []
    else tools_candidates s name (or_else (get name s.tool_metadata) []) [])

abbrev one_pattern : Value → Value
one_pattern v = arr (element v no_elements)

unfoldable pub selected : ApprovalState → String → String → Elements → Bool
unfolding current_candidates legacy_candidates other_candidates matches_tool_pattern
selected s name tool patterns =
    if matches_tool_pattern (current_candidates s name tool) (arr patterns)
    then true
    else any
        (λ v.
          matches_tool_pattern (legacy_candidates s name tool) (one_pattern v)
          && not (matches_tool_pattern (other_candidates s name tool) (one_pattern v)))
        (items patterns)

abbrev is_hint : Option Bool → Bool → Bool
is_hint (some true) b = b
is_hint (some false) b = not b
is_hint none b = false

abbrev is_absent : Option String → Bool
is_absent none = true
is_absent (some s) = false

unfoldable pub is_tool_call_approval_required : ApprovalState → String → ToolMeta → Bool
unfolding selected
is_tool_call_approval_required s name meta = elim (approval_setting s name) [
  | undefined ↦ false
  | bool b ↦ b
  | str text ↦
      if text == "destructive"
      then is_absent meta.resource_uri
        && not (is_hint meta.read_only_hint true)
        && not (is_hint meta.destructive_hint false)
      else true
  | arr patterns ↦ elim patterns [
    | no_elements ↦ false
    | element v vs ↦ selected s name meta.original_name (element v vs)
  ]
  | null ↦ true
  | num n ↦ true
  | obj fs ↦ true
]
