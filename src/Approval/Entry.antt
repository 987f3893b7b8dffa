-- ===== src/Approval/Entry.antt =====
-- session-approvals.ts: the records that persist an approval, and the check on what is read back.
use Prim.Native.Char.{code}
use Prim.Native.String.{count}
use mcp_adapter.Prelude.{
  ℕ, String, Bool, true, false, Option, none, some, List, [], ◌∷◌, ◌==◌, ◌&&◌, ◌||◌, if◌then◌else◌,
  nat_beq, leb, not,
}
use mcp_adapter.Json.{
  Value, str, num, obj, Members, no_members, member, prop, is_str, is_num, has_exact_keys,
}

pub record ToolApproval : Type 0 where
  pub server_name : String
  pub original_tool_name : String
  pub definition_hash : String
  pub args_hash : String

pub data SessionApprovalEntry : Type 0 where
  tool : ToolApproval → SessionApprovalEntry
  iframe : (allowed : Bool) → (server_name : String) → SessionApprovalEntry

abbrev pub tool_approval_keys : List String
tool_approval_keys =
    "version" ∷ "kind" ∷ "decision" ∷ "serverName" ∷ "originalToolName" ∷ "definitionHash"
    ∷ "argsHash" ∷ []

abbrev pub iframe_approval_keys : List String
iframe_approval_keys = "version" ∷ "kind" ∷ "decision" ∷ "serverName" ∷ []

abbrev is_hex : ℕ → Bool
is_hex c = (leb b'0' c && leb c b'9') || (leb b'a' c && leb c b'f')

abbrev all_hex : String → Bool
all_hex String.[] = true
all_hex (String.◌∷◌ c s) = is_hex (code c) && all_hex s

-- `/^[0-9a-f]{64}$/`
unfoldable pub sha256_text : String → Bool
sha256_text s = nat_beq (count s) 64 && all_hex s

abbrev text_of : Value → Option String
text_of (str s) = some s
text_of _ = none

abbrev non_empty_string : Value → Option String
non_empty_string v = elim (text_of v) [ none ↦ none | some s ↦ if s == "" then none else some s ]

abbrev sha256_of : Value → Option String
sha256_of v = elim (text_of v) [ none ↦ none | some s ↦ if sha256_text s then some s else none ]

infixl 5 ◌>>=◌
abbrev ◌>>=◌ {ℓ κ} : {A : Type ℓ} {B : Type κ} → Option A → (A → Option B) → Option B
none >>= f = none
some a >>= f = f a

read_tool : Members → String → Option SessionApprovalEntry
read_tool fs server = do
  name ← non_empty_string (prop "originalToolName" fs)
  definition ← sha256_of (prop "definitionHash" fs)
  args ← sha256_of (prop "argsHash" fs)
  if has_exact_keys fs tool_approval_keys && is_str (prop "decision" fs) "allow_for_session"
      then some (
          tool (record {
            server_name = server;
            original_tool_name = name;
            definition_hash = definition;
            args_hash = args;
          }))
      else none

read_iframe : Members → String → Option SessionApprovalEntry
read_iframe fs server =
    if has_exact_keys fs iframe_approval_keys
    then (if is_str (prop "decision" fs) "allow"
        then some (iframe true server)
        else if is_str (prop "decision" fs) "deny"
        then some (iframe false server)
        else none)
    else none

-- `isSessionApprovalEntry`, with the entry that it lets through.
unfoldable pub read_entry : Value → Option SessionApprovalEntry
unfolding read_tool read_iframe
read_entry (obj fs) = elim (non_empty_string (prop "serverName" fs)) [
  | none ↦ none
  | some server ↦
      if not (is_num (prop "version" fs) 1)
      then none
      else if is_str (prop "kind" fs) "tool"
      then read_tool fs server
      else if is_str (prop "kind" fs) "iframe"
      then read_iframe fs server
      else none
]
read_entry _ = none

abbrev decision_text : Bool → String
decision_text true = "allow"
decision_text false = "deny"

-- The object that the writer passes to `appendEntry`.
unfoldable pub write_entry : SessionApprovalEntry → Value
write_entry (tool t) = obj (
    member "version" (num 1) (
      member "kind" (str "tool") (
        member "decision" (str "allow_for_session") (
          member "serverName" (str t.server_name) (
            member "originalToolName" (str t.original_tool_name) (
              member "definitionHash" (str t.definition_hash)
                (member "argsHash" (str t.args_hash) no_members)))))))
write_entry (iframe allowed server) = obj (
    member "version" (num 1) (
      member "kind" (str "iframe") (
        member "decision" (str (decision_text allowed))
          (member "serverName" (str server) no_members))))
