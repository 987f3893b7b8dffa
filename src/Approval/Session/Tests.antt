-- ===== src/Approval/Session/Tests.antt =====
-- Remembered approvals at concrete sessions.
use mcp_adapter.Prelude.{
  String, true, false, some, List, [], ◌∷◌, ◌≡◌, refl, contains, add, length, arith,
}
use mcp_adapter.Json.{no_members}
use mcp_adapter.Approval.Entry.{ToolApproval, tool, read_entry, write_entry, sha256_text}
use mcp_adapter.Approval.Consent.{once_per_server, init, register_decision, restore_decision, clear}
use mcp_adapter.Approval.Session.{
  ApprovalState, entry_key, remember, restore_session_approval_state,
}
use mcp_adapter.Approval.Session.Keys.{entry_key-injective}
use mcp_adapter.Approval.Session.Laws.{
  IsWellFormed, read_entry-write_entry, Decided, remembers, registers, decide, decide_all,
  restore-decide_all,
}

abbrev hash : String
hash = "0123456789abcdef0123456789abcdef0123456789abcdef0123456789abcdef"

abbrev listing : ToolApproval
listing = record {
  server_name = "files";
  original_tool_name = "list";
  definition_hash = hash;
  args_hash = hash;
}

abbrev idle : ApprovalState
idle = record {
  servers = [];
  settings = no_members;
  tool_metadata = [];
  approved_tool_calls = [];
  approved_servers = [];
  grants_ref = 0;
  consent_manager = init once_per_server;
  has_sink = true;
  log = [];
  has_ui = true;
}

abbrev decisions : List Decided
decisions = remembers listing ∷ registers "files" false ∷ remembers listing ∷ []

listing-IsWellFormed : IsWellFormed (tool listing)
unfolding sha256_text
listing-IsWellFormed = (λ e. cc, λ e. cc, refl, refl)

decide_all_tests :
    (length (decide_all idle decisions).log ≡ 2)
    × ((restore_session_approval_state 1 idle (decide_all idle decisions).log).approved_tool_calls
        ≡ entry_key listing ∷ [])
unfolding decide_all decide remember read_entry write_entry restore_session_approval_state
    sha256_text register_decision restore_decision clear contains add
decide_all_tests = (refl, refl)

read_entry-write_entry_example : read_entry (write_entry (tool listing)) ≡ some (tool listing)
read_entry-write_entry_example = read_entry-write_entry (tool listing) listing-IsWellFormed

restore-decide_all_example :
    (restore_session_approval_state 1
      (decide_all idle decisions)
      (decide_all idle decisions).log).approved_tool_calls
    ≡ (decide_all idle decisions).approved_tool_calls
restore-decide_all_example =
    (restore-decide_all 1 idle decisions refl refl refl refl (λ e. cc)
      (listing-IsWellFormed, (λ e. cc, (listing-IsWellFormed, tt)))).0

abbrev brief : ToolApproval
brief = record {
  server_name = "a";
  original_tool_name = "b";
  definition_hash = "d0";
  args_hash = "d1";
}

entry_key-injective_example : brief ≡ brief
entry_key-injective_example =
    entry_key-injective brief brief (omega arith) (omega arith) (omega arith) (omega arith)
      (omega arith) (omega arith) refl
