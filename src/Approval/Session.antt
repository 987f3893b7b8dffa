-- ===== src/Approval/Session.antt =====
-- session-approvals.ts: what a session remembers of approvals, and how it is rebuilt from a branch.
pub mod Laws
pub mod Keys
mod Tests
use mcp_adapter.Prelude.{
  ℕ, suc, String, Bool, true, false, Option, none, some, List, [], ◌∷◌, ◌++◌, ◌==◌, if◌then◌else◌,
  Map, get, put, contains, add, or_else, is_some,
}
use mcp_adapter.Json.{Value, null, undefined, str, obj, Members, no_members, member, prop, is_str}
use mcp_adapter.Json.Stable.{Platform, stable_stringify}
use mcp_adapter.Approval.Entry.{
  ToolApproval, SessionApprovalEntry, tool, iframe, read_entry, write_entry,
}
use mcp_adapter.Approval.Consent.{ConsentManager, restore_decision, clear}
use Prim.Native.Char.{nul}
use Prim.Native.String

-- A server's configuration object: `ref` is the object's identity, `fields` its properties.
pub record ServerEntry : Type 0 where
  pub ref : ℕ
  pub fields : Members

-- The part of `ToolMetadata` that approvals read. `undefined` stands for an absent schema.
pub record ToolMeta : Type 0 where
  pub original_name : String
  pub input_schema : Value
  pub resource_uri : Option String
  pub ui_resource_uri : Option String
  pub read_only_hint : Option Bool
  pub destructive_hint : Option Bool

pub record ServerIdentity : Type 0 where
  pub definition : ℕ
  pub hash : String

-- `config.settings` is `settings`. `grants_ref` is the identity of the `approvedServers` map, which
-- is replaced as a whole. `log` is what `appendEntry` has been given, through a sink that may be
-- missing.
pub record ApprovalState : Type 0 where
  pub servers : Map ServerEntry
  pub settings : Members
  pub tool_metadata : Map (List ToolMeta)
  pub approved_tool_calls : List String
  pub approved_servers : Map ServerIdentity
  pub grants_ref : ℕ
  pub consent_manager : ConsentManager
  pub has_sink : Bool
  pub log : List Value
  pub has_ui : Bool

abbrev separator : String
separator = String.◌∷◌ nul ""

unfoldable pub make_tool_approval_key : String → String → String → String → String
make_tool_approval_key server name definition args = String.◌++◌ server (
    String.◌∷◌ nul
      (String.◌++◌ name (String.◌∷◌ nul (String.◌++◌ definition (String.◌∷◌ nul args)))))

abbrev pub entry_key : ToolApproval → String
entry_key t =
    make_tool_approval_key t.server_name t.original_tool_name t.definition_hash t.args_hash

-- `value ?? null` of an optional text.
abbrev text_or_null : Option String → Value
text_or_null none = null
text_or_null (some s) = str s

abbrev value_or_null : Value → Value
value_or_null undefined = null
value_or_null v = v

-- `args ?? {}`
abbrev or_empty : Value → Value
or_empty undefined = obj no_members
or_empty null = obj no_members
or_empty v = v

module _ (platform : Platform) where
  unfoldable pub compute_tool_arguments_hash : Value → String
  unfolding stable_stringify
  compute_tool_arguments_hash args = platform.sha256 (stable_stringify platform (or_empty args))

  unfoldable pub compute_tool_definition_hash : ToolMeta → String
  unfolding stable_stringify
  compute_tool_definition_hash meta = platform.sha256 (
      stable_stringify platform (
        obj (
          member "originalName" (str meta.original_name) (
            member "inputSchema" (value_or_null meta.input_schema) (
              member "resourceUri" (text_or_null meta.resource_uri)
                (member "uiResourceUri" (text_or_null meta.ui_resource_uri) no_members))))))

  -- The record that `rememberToolApproval` persists; its key is the `cacheKey`.
  unfoldable pub tool_approval : String → ToolMeta → Value → ToolApproval
  unfolding compute_tool_arguments_hash compute_tool_definition_hash
  tool_approval server meta args = record {
    server_name = server;
    original_tool_name = meta.original_name;
    definition_hash = compute_tool_definition_hash meta;
    args_hash = compute_tool_arguments_hash args;
  }

  unfoldable pub cache_key : String → ToolMeta → Value → String
  unfolding tool_approval make_tool_approval_key
  cache_key server meta args = entry_key (tool_approval server meta args)

  unfoldable pub get_server_approval_identity : ApprovalState → String → Option ServerIdentity
  unfolding get stable_stringify
  get_server_approval_identity s server = elim (get server s.servers) [
    | none ↦ none
    | some definition ↦ some (record {
      definition = definition.ref;
      hash = platform.sha256 (stable_stringify platform (obj definition.fields));
    })
  ]

-- The sink given to the session: it appends an entry of the adapter's own type.
unfoldable pub persist : ApprovalState → SessionApprovalEntry → ApprovalState
persist s entry = if s.has_sink then record s { log = s.log ++ write_entry entry ∷ [] } else s

-- `rememberToolApproval`, for the record that it builds.
unfoldable pub remember : ApprovalState → ToolApproval → ApprovalState
unfolding persist make_tool_approval_key
remember s approval =
    let key = entry_key approval in
    if contains key s.approved_tool_calls
    then s
    else persist (record s { approved_tool_calls = add key s.approved_tool_calls }) (tool approval)

-- One entry of the branch: those that do not validate are skipped.
restore_entry : ApprovalState → Option SessionApprovalEntry → ApprovalState
restore_entry s none = s
restore_entry s (some (tool approval)) = record s {
  approved_tool_calls = add (entry_key approval) s.approved_tool_calls;
}
restore_entry s (some (iframe allowed server)) = record s {
  consent_manager = restore_decision s.consent_manager server allowed;
}

restore_entries : ApprovalState → List Value → ApprovalState
restore_entries s [] = s
restore_entries s (v ∷ vs) = restore_entries (restore_entry s (read_entry v)) vs

-- `restoreSessionApprovalState`, on the data of the branch's entries of the adapter's type. The
-- fresh map of server grants gets the identity `fresh`.
unfoldable pub restore_session_approval_state : ℕ → ApprovalState → List Value → ApprovalState
unfolding restore_entry restore_entries make_tool_approval_key
restore_session_approval_state fresh s entries =
    restore_entries
      (record s {
        approved_tool_calls = [];
        approved_servers = [];
        grants_ref = fresh;
        consent_manager = clear s.consent_manager none;
      })
      entries
