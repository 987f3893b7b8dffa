-- ===== src/Naming/Deferred.antt =====
-- deferred-tool-surface.ts: the names under which tools are registered as deferred.
pub mod Laws
mod Tests
use Prim.Native.Char.{code}
use Prim.Native.String.{count, ◌++◌}
use mcp_adapter.Prelude.{
  ℕ, ◌+◌, ◌-◌, String, Bool, true, false, not, ◌&&◌, ◌||◌, Option, none, some, List, [], ◌∷◌,
  ◌++◌ as list_append, ◌==◌, if◌then◌else◌, nat_beq, leb, ltb, Map, get, put, or_else, contains,
  add, keep, map,
}
use mcp_adapter.Naming.Prefix.{is_alnum}
use mcp_adapter.Naming.Namespace.{take_text, format_server_namespace}

abbrev pub max_tool_name_length : ℕ
max_tool_name_length = 64

-- The part of a `DirectToolSpec` that its name depends on.
pub record DirectToolSpec : Type 0 where
  pub server_name : String
  pub original_name : String
  pub resource_uri : Option String

-- `replace(/[^A-Za-z0-9_]/g, "_")`, which replaces each UTF-16 unit.
unfoldable pub as_identifier : String → String
as_identifier String.[] = ""
as_identifier (String.◌∷◌ c s) =
    (if is_alnum (code c) || nat_beq (code c) b'_'
      then String.◌∷◌ c ""
      else if ltb (code c) 0x10000
      then "_"
      else "__")
    ++ as_identifier s

-- `JSON.stringify` of a text and the hexadecimal SHA-256 of a text are parameters.
module _ (json_string sha256 : String → String) where
  abbrev json_or_null : Option String → String
  json_or_null none = "null"
  json_or_null (some uri) = json_string uri

  unfoldable pub deferred_tool_key : DirectToolSpec → String
  deferred_tool_key spec =
      "["
      ++ json_string spec.server_name
      ++ ","
      ++ json_string spec.original_name
      ++ ","
      ++ json_or_null spec.resource_uri
      ++ "]"

  unfoldable pub plain_deferred_tool_name : DirectToolSpec → String
  unfolding as_identifier format_server_namespace
  plain_deferred_tool_name spec =
      as_identifier
        ("mcp__" ++ format_server_namespace sha256 spec.server_name ++ "__" ++ spec.original_name)

  abbrev uri_part : Option String → String
  uri_part none = ""
  uri_part (some uri) = "\0" ++ uri

  hashed_tool_name : DirectToolSpec → String → String
  unfolding take_text
  hashed_tool_name spec name =
      let hash_input =
        spec.server_name ++ "\0" ++ spec.original_name ++ uri_part spec.resource_uri in
      let hash = take_text 8 (sha256 hash_input) in
      take_text (max_tool_name_length - count hash - 1) name ++ "_" ++ hash

  unfoldable pub format_deferred_tool_name : DirectToolSpec → (String → Bool) → String
  unfolding hashed_tool_name plain_deferred_tool_name
  format_deferred_tool_name spec is_taken =
      let name = plain_deferred_tool_name spec in
      if leb (count name) max_tool_name_length && not (is_taken name)
      then name
      else hashed_tool_name spec name

  -- For each server that is enabled and whose cached tools are valid, its tools and the tools of its
  -- Executor app.
  candidates_of :
      List String → List (List DirectToolSpec × List DirectToolSpec) → List DirectToolSpec
  unfolding deferred_tool_key contains
  candidates_of direct [] = []
  candidates_of direct ((specs, app_tools) ∷ servers) =
      list_append (keep (λ spec. not (contains (deferred_tool_key spec) direct)) specs)
        (list_append app_tools (candidates_of direct servers))

  count_plain : List DirectToolSpec → Map ℕ → Map ℕ
  unfolding plain_deferred_tool_name get put
  count_plain [] counts = counts
  count_plain (spec ∷ specs) counts =
      let plain = plain_deferred_tool_name spec in
      count_plain specs (put plain (or_else (get plain counts) 0 + 1) counts)

  unfoldable pub is_unavailable : Map String → List String → String → String → Bool
  unfolding contains get
  is_unavailable owners taken key candidate =
      contains candidate taken || not (or_else (get candidate owners) key == key)

  abbrev pub name_in : Map ℕ → Map String → List String → DirectToolSpec → String
  name_in counts owners taken spec = format_deferred_tool_name spec (λ candidate.
      is_unavailable owners taken (deferred_tool_key spec) candidate
      || ltb 1 (or_else (get candidate counts) 0))

  -- The second loop: the tools that get a name, with it.
  unfoldable pub name_specs :
      Map ℕ → Map String → List String → List DirectToolSpec → List (DirectToolSpec × String)
  unfolding is_unavailable format_deferred_tool_name deferred_tool_key add
  name_specs counts owners taken [] = []
  name_specs counts owners taken (spec ∷ specs) =
      let name = name_in counts owners taken spec in
      let skipped = name_specs counts owners taken specs in
      let named = name_specs counts owners (add name taken) specs in
      if is_unavailable owners taken (deferred_tool_key spec) name
      then skipped
      else (spec, name) ∷ named

  -- `resolveDeferredToolSpecs`, with the names, the direct tools and the owners that are reserved.
  unfoldable pub resolve_deferred_tool_specs :
      List (List DirectToolSpec × List DirectToolSpec)
      → List String
      → List DirectToolSpec
      → Map String
      → List (DirectToolSpec × String)
  unfolding candidates_of count_plain name_specs
  resolve_deferred_tool_specs servers names direct_tools owners =
      let candidates = candidates_of (map deferred_tool_key direct_tools) servers in
      name_specs (count_plain candidates []) owners names candidates
