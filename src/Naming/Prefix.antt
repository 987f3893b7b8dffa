-- ===== src/Naming/Prefix.antt =====
-- types.ts: server prefixes, prefixed tool names and the set of names a tool is known by. Texts are
-- read by code point, as `Array.from` does.
use Prim.Native.Char.{code}
use Prim.Native.String.{slice, count, ◌++◌}
use text.Mathlib.Text.{starts_with}
use mcp_adapter.Prelude.{
  ℕ, zero, suc, ◌+◌, ◌/◌, ◌%◌, String, Bool, true, false, Option, List, [], ◌∷◌, ◌==◌, ◌&&◌, ◌||◌,
  if◌then◌else◌, nat_beq, leb, ltb, or_else, add,
}

pub data ToolPrefix : Type 0 where
  server no_prefix short mcp : ToolPrefix

abbrev pub is_alnum : ℕ → Bool
is_alnum c = (leb b'0' c && leb c b'9') || (leb b'A' c && leb c b'Z') || (leb b'a' c && leb c b'z')

-- `/^[A-Za-z0-9_-]$/`, and `/^[A-Za-z0-9]$/` for the legacy prefixes.
abbrev pub valid_character : Bool → ℕ → Bool
valid_character true c = is_alnum c || nat_beq c b'_' || nat_beq c b'-'
valid_character false c = is_alnum c

abbrev hex_digit : ℕ → String
hex_digit d = slice "0123456789abcdef" d (d + 1)

-- `toString(16)`; six digits hold every code point.
hex_from : ℕ → ℕ → String
hex_from zero n = ""
hex_from (suc fuel) n =
    let high = hex_from fuel (n / 16) in
    if ltb n 16 then hex_digit n else high ++ hex_digit (n % 16)

unfoldable pub hex : ℕ → String
unfolding hex_from
hex n = hex_from 6 n

unfoldable pub sanitize_server_prefix : Bool → String → String
unfolding hex
sanitize_server_prefix valid String.[] = ""
sanitize_server_prefix valid (String.◌∷◌ c s) =
    (if valid_character valid (code c) then String.◌∷◌ c "" else "_" ++ hex (code c) ++ "_")
    ++ sanitize_server_prefix valid s

abbrev lower : ℕ → ℕ
lower c = if leb b'A' c && leb c b'Z' then c + 32 else c

-- `/^-?mcp$/i`
is_mcp_suffix : String → Bool
is_mcp_suffix (String.◌∷◌ a (String.◌∷◌ b (String.◌∷◌ c String.[]))) =
    nat_beq (lower (code a)) b'm' && nat_beq (lower (code b)) b'c' && nat_beq (lower (code c)) b'p'
is_mcp_suffix (String.◌∷◌ d (String.◌∷◌ a (String.◌∷◌ b (String.◌∷◌ c String.[])))) =
    nat_beq (code d) b'-'
    && nat_beq (lower (code a)) b'm'
    && nat_beq (lower (code b)) b'c'
    && nat_beq (lower (code c)) b'p'
is_mcp_suffix _ = false

-- `replace(/-?mcp$/i, "")`: the leftmost match goes.
unfoldable pub strip_mcp : String → String
unfolding is_mcp_suffix
strip_mcp String.[] = ""
strip_mcp (String.◌∷◌ c s) =
    if is_mcp_suffix (String.◌∷◌ c s) then "" else String.◌∷◌ c (strip_mcp s)

abbrev non_empty : String → String → String
non_empty s fallback = if s == "" then fallback else s

unfoldable pub get_server_prefix : String → ToolPrefix → String
unfolding sanitize_server_prefix strip_mcp
get_server_prefix name no_prefix = ""
get_server_prefix name short = non_empty (sanitize_server_prefix true (strip_mcp name)) "mcp"
get_server_prefix name mcp = "mcp__" ++ sanitize_server_prefix true name
get_server_prefix name server = sanitize_server_prefix true name

unfoldable pub get_legacy_server_prefix : String → ToolPrefix → String
unfolding sanitize_server_prefix strip_mcp
get_legacy_server_prefix name no_prefix = ""
get_legacy_server_prefix name short =
    non_empty (sanitize_server_prefix false (strip_mcp name)) "mcp"
get_legacy_server_prefix name mcp = "mcp__" ++ sanitize_server_prefix false name
get_legacy_server_prefix name server = sanitize_server_prefix false name

-- `replace(/\./g, "_")`, `replace(/-/g, "_")` and `replace(/[.-]/g, "_")`, by the test for the
-- characters that go.
unfoldable pub underscored : (ℕ → Bool) → String → String
underscored test String.[] = ""
underscored test (String.◌∷◌ c s) =
    (if test (code c) then "_" else String.◌∷◌ c "") ++ underscored test s

abbrev pub is_dot : ℕ → Bool
is_dot c = nat_beq c b'.'

abbrev pub is_dash : ℕ → Bool
is_dash c = nat_beq c b'-'

abbrev pub is_dot_or_dash : ℕ → Bool
is_dot_or_dash c = is_dot c || is_dash c

-- `if (p && …) return sanitized; return p ? … : sanitized`
abbrev pub prefixed : String → String → String
prefixed p sanitized =
    if p == ""
    then sanitized
    else if starts_with sanitized (p ++ "_") && ltb (count p + 1) (count sanitized)
    then sanitized
    else p ++ "_" ++ sanitized

unfoldable pub format_tool_name : String → String → ToolPrefix → String
unfolding get_server_prefix underscored
format_tool_name tool name prefix =
    prefixed (get_server_prefix name prefix) (underscored is_dot tool)

unfoldable pub format_legacy_tool_name : String → String → ToolPrefix → String
unfolding get_legacy_server_prefix underscored
format_legacy_tool_name tool name prefix =
    let p = get_legacy_server_prefix name prefix in
    let sanitized = underscored is_dot_or_dash tool in
    if p == "" then sanitized else p ++ "_" ++ sanitized

abbrev pub resolve_tool_prefix : Option ToolPrefix → Option ToolPrefix → ToolPrefix
resolve_tool_prefix own global = or_else own (or_else global server)

abbrev add_all : List String → List String → List String
add_all [] s = s
add_all (x ∷ xs) s = add_all xs (add x s)

current_names : String → String → ToolPrefix → List String
current_names tool name prefix =
    tool
    ∷ format_tool_name tool name prefix
    ∷ format_tool_name tool name server
    ∷ format_tool_name tool name short
    ∷ format_tool_name tool name mcp
    ∷ []

legacy_names : String → String → ToolPrefix → List String
legacy_names tool name prefix =
    let plain = underscored is_dash tool in
    plain
    ∷ format_tool_name plain name prefix
    ∷ format_tool_name plain name server
    ∷ format_tool_name plain name short
    ∷ format_tool_name plain name mcp
    ∷ format_legacy_tool_name tool name prefix
    ∷ format_legacy_tool_name tool name server
    ∷ format_legacy_tool_name tool name short
    ∷ format_legacy_tool_name tool name mcp
    ∷ underscored is_dash (format_tool_name tool name prefix)
    ∷ underscored is_dash (format_tool_name tool name server)
    ∷ underscored is_dash (format_tool_name tool name short)
    ∷ underscored is_dash (format_tool_name tool name mcp)
    ∷ []

-- A `Set` in insertion order.
unfoldable pub get_tool_name_candidates : String → String → ToolPrefix → Bool → List String
unfolding current_names legacy_names format_tool_name format_legacy_tool_name underscored add
get_tool_name_candidates tool name prefix include_legacy =
    let current = add_all (current_names tool name prefix) [] in
    if include_legacy then add_all (legacy_names tool name prefix) current else current
