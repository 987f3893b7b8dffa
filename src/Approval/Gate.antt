-- ===== src/Approval/Gate.antt =====
-- tool-approval.ts: which calls need an approval, and the gate that asks for it.
pub mod Required
pub mod Laws
mod Tests
use mcp_adapter.Prelude.{
  ℕ, String, Bool, true, false, Option, none, some, List, [], ◌∷◌, ◌==◌, ◌&&◌, if◌then◌else◌,
  nat_beq, put, delete, get, contains, is_some, Map, or_else,
}
use mcp_adapter.Json.{Value}
use mcp_adapter.Json.Stable.{Platform}
use mcp_adapter.Approval.Session.{
  ApprovalState, ServerIdentity, ToolMeta, tool_approval, cache_key, get_server_approval_identity,
  remember,
}
use Required.{is_tool_call_approval_required}

-- What `requestBrokerApproval` resolves to; `rejected` is its rethrow on an aborted signal.
pub data BrokerDecision : Type 0 where
  allow_once allow_for_session deny abstain rejected : BrokerDecision
  deny_with : (reason : String) → BrokerDecision

-- The dialog's answer: one of the options, anything else, or a rejection on an aborted signal.
pub data Answer : Type 0 where
  once session server_session denial other aborted : Answer

pub data ToolCallApprovalResult : Type 0 where
  ok : ToolCallApprovalResult
  denied : (reason : Option String) → ToolCallApprovalResult
  approval_required_headless : ToolCallApprovalResult
  thrown : ToolCallApprovalResult

-- What the world does while the gate waits: the broker's decision and what else changed the state
-- meanwhile, then the same for the dialog, and whether the signal is aborted where it is checked.
-- `approval_metadata` is the gate's own optional argument of that name.
pub record World : Type 0 where
  pub broker : BrokerDecision
  pub during_broker : ApprovalState → ApprovalState
  pub answer : Answer
  pub during_dialog : ApprovalState → ApprovalState
  pub aborted_at_grant : Bool
  pub aborted_at_answer : Bool
  pub approval_metadata : Option (Map (List ToolMeta))

-- The state, with `approvalMetadata ?? state.toolMetadata` for its tool metadata.
abbrev pub for_approval : World → ApprovalState → ApprovalState
for_approval w s = record s { tool_metadata = or_else w.approval_metadata s.tool_metadata }

abbrev pub dialog_denial : String
dialog_denial = "The user denied it in the approval dialog."

abbrev pub same_identity : ServerIdentity → ServerIdentity → Bool
same_identity a b = nat_beq a.definition b.definition && a.hash == b.hash

-- `grant && grant.definition === live?.definition && grant.hash === live?.hash`
abbrev pub grant_holds : Option ServerIdentity → Option ServerIdentity → Bool
grant_holds (some grant) (some live) = same_identity grant live
grant_holds _ _ = false

-- `delete` on the map that the call captured: the state has moved on to another one if the
-- identities differ.
unfoldable pub forget_grant : ℕ → String → ApprovalState → ApprovalState
forget_grant captured server s =
    if nat_beq captured s.grants_ref
    then record s { approved_servers = delete server s.approved_servers }
    else s

module _ (platform : Platform) (server : String) (meta : ToolMeta) (args : Value) where
  -- The code behind the dialog. `captured` and `asked` are the map and the identity that the call
  -- took before its first wait.
  answered :
      ℕ → Option ServerIdentity → World → ApprovalState → ApprovalState × ToolCallApprovalResult
  unfolding get_server_approval_identity remember put
  answered captured asked w s = elim w.answer [
    | Answer.once ↦ (s, ok)
    | Answer.session ↦ (remember s (tool_approval platform server meta args), ok)
    | Answer.server_session ↦ if w.aborted_at_answer then (s, thrown) else elim asked [
      | none ↦ (s, denied none)
      | some identity ↦
          if nat_beq captured s.grants_ref
            && grant_holds (some identity) (get_server_approval_identity platform s server)
          then (record s { approved_servers = put server identity s.approved_servers }, ok)
          else (s, denied none)
    ]
    | Answer.denial ↦ (s, denied (some dialog_denial))
    | Answer.other ↦ (s, denied none)
    | Answer.aborted ↦ (s, thrown)
  ]

  -- The code between the broker's abstention and the dialog.
  unclaimed :
      ℕ → Option ServerIdentity → World → ApprovalState → ApprovalState × ToolCallApprovalResult
  unfolding answered forget_grant get_server_approval_identity is_tool_call_approval_required get
      delete contains
  unclaimed captured asked w s =
      if nat_beq captured s.grants_ref
        && grant_holds (get server s.approved_servers)
            (get_server_approval_identity platform s server)
      then (if w.aborted_at_grant then (s, thrown) else (s, ok))
      else let s' = forget_grant captured server s in
        if contains (cache_key platform server meta args) s'.approved_tool_calls
        then (s', ok)
        else if is_tool_call_approval_required (for_approval w s') server meta
        then (if s'.has_ui
            then answered captured asked w (w.during_dialog s')
            else (s', approval_required_headless))
        else (s', ok)

  -- `ensureToolCallApproved`
  unfoldable pub ensure_tool_call_approved :
      World → ApprovalState → ApprovalState × ToolCallApprovalResult
  unfolding unclaimed remember get_server_approval_identity
  ensure_tool_call_approved w s =
      let captured = s.grants_ref in
      let asked = get_server_approval_identity platform s server in
      let s' = w.during_broker s in
      elim w.broker [
        | allow_once ↦ (s', ok)
        | allow_for_session ↦ (remember s' (tool_approval platform server meta args), ok)
        | deny ↦ (s', denied none)
        | deny_with reason ↦ (s', denied (some reason))
        | rejected ↦ (s', thrown)
        | abstain ↦ unclaimed captured asked w s'
      ]
