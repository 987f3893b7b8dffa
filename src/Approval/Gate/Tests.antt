-- ===== src/Approval/Gate/Tests.antt =====
-- The gate at concrete calls.
use mcp_adapter.Prelude.{
  Bool, true, false, none, [], ◌∷◌, ◌≡◌, refl, contains, add, remove, get, put, delete,
}
use mcp_adapter.Json.{undefined, bool, str, arr, element, no_elements, Members, no_members, member}
use mcp_adapter.Json.Stable.{Platform}
use mcp_adapter.Approval.Consent.{once_per_server, init}
use mcp_adapter.Approval.Session.{
  ApprovalState, ToolMeta, get_server_approval_identity, cache_key, restore_session_approval_state,
  remember,
}
use mcp_adapter.Approval.Gate.{
  allow_for_session, abstain, deny, Answer, World, ToolCallApprovalResult, ok, denied,
  approval_required_headless, ensure_tool_call_approved,
}
use mcp_adapter.Approval.Gate.Required.{is_tool_call_approval_required}
use mcp_adapter.Approval.Gate.Laws.{
  Justified, ensure_tool_call_approved-Justified, ensure_tool_call_approved-again,
}

-- A hash that keeps its input, and scalars printed without quotes.
abbrev plain : Platform
plain = record { sha256 = λ s. s; json_string = λ s. s; json_number = λ n. "0" }

abbrev guarded : Members
guarded = member "approveTools" (arr (element (str "write_*") no_elements)) no_members

abbrev writer : ToolMeta
writer = record {
  original_name = "write_file";
  input_schema = undefined;
  resource_uri = none;
  ui_resource_uri = none;
  read_only_hint = none;
  destructive_hint = none;
}

abbrev reader : ToolMeta
reader = record writer { original_name = "read_file" }

abbrev session : Bool → ApprovalState
session has_ui = record {
  servers = ("files", record { ref = 7; fields = guarded }) ∷ [];
  settings = no_members;
  tool_metadata = ("files", writer ∷ reader ∷ []) ∷ [];
  approved_tool_calls = [];
  approved_servers = [];
  grants_ref = 0;
  consent_manager = init once_per_server;
  has_sink = false;
  log = [];
  has_ui = has_ui;
}

abbrev asks : Answer → World
asks answer = record {
  broker = abstain;
  during_broker = λ s. s;
  answer = answer;
  during_dialog = λ s. s;
  aborted_at_grant = false;
  aborted_at_answer = false;
  approval_metadata = none;
}

-- The user moves to another branch while the dialog is open.
abbrev navigates : World
navigates = record (asks Answer.server_session) {
  during_dialog = λ s. restore_session_approval_state 1 s [];
}

opened : Unit {0}
unfolding ensure_tool_call_approved get_server_approval_identity is_tool_call_approval_required
    remember cache_key get put delete contains add remove restore_session_approval_state
opened = tt

abbrev run : World → ToolMeta → Bool → ApprovalState × ToolCallApprovalResult
run w meta has_ui = ensure_tool_call_approved plain "files" meta undefined w (session has_ui)

gate_tests :
    ((run (asks Answer.once) writer true).1 ≡ ok)
    × ((run (asks Answer.once) reader false).1 ≡ ok)
    × ((run (asks Answer.once) writer false).1 ≡ approval_required_headless)
    × ((run (asks Answer.other) writer true).1 ≡ denied none)
    × ((run navigates writer true).1 ≡ denied none)
    × ((run navigates writer true).0.approved_servers ≡ [])
    × ((ensure_tool_call_approved plain "files" writer
          (bool true)
          (asks Answer.other)
          (run (asks Answer.server_session) writer true).0).1
        ≡ ok)
unfolding opened
gate_tests = (refl, refl, refl, refl, refl, refl, refl)

ensure_tool_call_approved-Justified_example :
    Justified plain "files" writer undefined (session true) (asks Answer.once) (session true)
unfolding opened
ensure_tool_call_approved-Justified_example =
    ensure_tool_call_approved-Justified plain "files" writer undefined (asks Answer.once)
      (session true) refl

abbrev allows : World
allows = record (asks Answer.other) { broker = allow_for_session }

-- The broker denies the call that it allowed for the session before.
abbrev denies : World
denies = record (asks Answer.other) { broker = deny }

ensure_tool_call_approved-again_example :
    (ensure_tool_call_approved plain "files" writer undefined denies (run allows writer true).0).1
    ≡ denied none
ensure_tool_call_approved-again_example =
    ensure_tool_call_approved-again plain "files" writer undefined allows denies (session true) refl
      refl refl
