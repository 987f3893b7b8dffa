-- ===== src/Naming/Namespace.antt =====
-- types.ts: `formatServerNamespace`, the part of a tool's name that stands for its server. What the
-- code cuts is ASCII, so its lengths are numbers of characters.
pub mod Bounds
use Prim.Native.Char.{code}
use Prim.Native.String.{count, ◌++◌}
use text.Mathlib.Text.{starts_with}
use mcp_adapter.Prelude.{
  ℕ, zero, suc, ◌-◌, String, Bool, true, not, ◌&&◌, ◌||◌, if◌then◌else◌, nat_beq, leb,
}
use mcp_adapter.Naming.Prefix.{is_alnum, is_dash, hex, underscored}

-- `slice(0, n)`
unfoldable pub take_text : ℕ → String → String
take_text zero s = ""
take_text (suc n) String.[] = ""
take_text (suc n) (String.◌∷◌ c s) = String.◌∷◌ c (take_text n s)

abbrev pub encoded_server_namespace_marker : String
encoded_server_namespace_marker = "_mcpns_"

abbrev pub max_server_namespace_length : ℕ
max_server_namespace_length = 59

-- `/^[A-Za-z0-9_]*$/`
unfoldable pub is_word : String → Bool
is_word String.[] = true
is_word (String.◌∷◌ c s) = (is_alnum (code c) || nat_beq (code c) b'_') && is_word s

unfoldable pub encode_server_namespace : String → String
unfolding hex
encode_server_namespace String.[] = ""
encode_server_namespace (String.◌∷◌ c s) =
    (if nat_beq (code c) b'_'
      then "__"
      else if is_alnum (code c)
      then String.◌∷◌ c ""
      else "_" ++ hex (code c) ++ "_")
    ++ encode_server_namespace s

-- The body and the namespace before the bound on its length.
abbrev is_safe : String → Bool
is_safe normalized =
    is_word normalized && not (starts_with normalized encoded_server_namespace_marker)

abbrev namespace_body : String → String
namespace_body normalized =
    if is_safe normalized then normalized else encode_server_namespace normalized

abbrev long_namespace : String → String
long_namespace normalized =
    if is_safe normalized
    then namespace_body normalized
    else encoded_server_namespace_marker ++ namespace_body normalized

-- `createHash("sha256").update(text).digest("hex")` is a parameter.
module _ (sha256 : String → String) where
  hashed_namespace : String → String → String
  unfolding take_text
  hashed_namespace body namespace =
      let digest = take_text 16 (sha256 namespace) in
      let hash_prefix = encoded_server_namespace_marker ++ "_h_" in
      hash_prefix
      ++ take_text (max_server_namespace_length - count hash_prefix - count digest - 1) body
      ++ "_"
      ++ digest

  bounded_namespace : String → String → String
  unfolding hashed_namespace
  bounded_namespace body namespace =
      if leb (count namespace) max_server_namespace_length
      then namespace
      else hashed_namespace body namespace

  unfoldable pub format_server_namespace : String → String
  unfolding bounded_namespace underscored is_word encode_server_namespace
  format_server_namespace server_name =
      let normalized = underscored is_dash server_name in
      bounded_namespace (namespace_body normalized) (long_namespace normalized)
