-- ===== src/Naming/Deferred/Tests.antt =====
-- Deferred tool names at concrete inputs.
use Prim.Native.String.{◌++◌}
use mcp_adapter.Prelude.{String, true, none, List, [], ◌∷◌, ◌≡◌, refl, all}
use mcp_adapter.Naming.Namespace.{format_server_namespace}
use mcp_adapter.Naming.Deferred.{DirectToolSpec, resolve_deferred_tool_specs}
use mcp_adapter.Naming.Deferred.Laws.{
  no_repeats, names_of, is_free, resolve_deferred_tool_specs-free,
}

abbrev quoted : String → String
quoted s = "\"" ++ s ++ "\""

-- A hash that is the same for every text, so that the second of two hashed names is taken.
abbrev digest : String → String
digest s = "cafe0123cafe0123"

abbrev read_file : DirectToolSpec
read_file = record { server_name = "my-files"; original_name = "read.file"; resource_uri = none }

abbrev read_file_again : DirectToolSpec
read_file_again = record {
  server_name = "my_files";
  original_name = "read_file";
  resource_uri = none;
}

abbrev search : DirectToolSpec
search = record { server_name = "web"; original_name = "search"; resource_uri = none }

abbrev listed : List (List DirectToolSpec × List DirectToolSpec)
listed = (read_file ∷ read_file_again ∷ search ∷ [], []) ∷ []

deferred_tests :
    (names_of (resolve_deferred_tool_specs quoted digest listed [] [] [])
      ≡ "mcp__my_files__read_file_cafe0123" ∷ "mcp__web__search" ∷ [])
    × (names_of (
          resolve_deferred_tool_specs quoted digest listed
            ("mcp__web__search" ∷ [])
            (read_file ∷ [])
            [])
        ≡ "mcp__my_files__read_file" ∷ "mcp__web__search_cafe0123" ∷ [])
    × (format_server_namespace digest "a b" ≡ "_mcpns_a_20_b")
unfolding resolve_deferred_tool_specs format_server_namespace
deferred_tests = (refl, refl, refl)

resolve_deferred_tool_specs-free_example :
    (no_repeats (names_of (resolve_deferred_tool_specs quoted digest listed [] [] [])) ≡ true)
    × (all (is_free quoted digest [] []) (resolve_deferred_tool_specs quoted digest listed [] [] [])
        ≡ true)
resolve_deferred_tool_specs-free_example =
    resolve_deferred_tool_specs-free quoted digest listed [] [] []
