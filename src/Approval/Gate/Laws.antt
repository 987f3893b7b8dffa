-- ===== src/Approval/Gate/Laws.antt =====
-- What a call that passes the gate has behind it, and what the gate remembers.
use mcp_adapter.Prelude.{
  ℕ, String, Bool, true, false, Option, none, some, ◌≡◌, ◌≢◌, ◌⊎◌, inl, inr, refl, sym, ap, arith,
  eq_iff, eq_refl, ◌&&◌, if◌then◌else◌, contains, contains-add, get, nat_beq, Bool-cases,
}
use mcp_adapter.Json.{Value}
use mcp_adapter.Json.Stable.{Platform}
use mcp_adapter.Approval.Session.{
  ApprovalState, ServerIdentity, ToolMeta, tool_approval, cache_key, get_server_approval_identity,
  remember, entry_key,
}
use mcp_adapter.Approval.Gate.{
  BrokerDecision, allow_once, allow_for_session, deny, abstain, rejected, deny_with, Answer,
  ToolCallApprovalResult, ok, denied, thrown, approval_required_headless, World, for_approval,
  same_identity, grant_holds, forget_grant, answered, unclaimed, ensure_tool_call_approved,
}
use mcp_adapter.Approval.Gate.Required.{is_tool_call_approval_required}

if_ok :
    (b : Bool) (x y : ApprovalState × ToolCallApprovalResult)
    → (if b then x else y).1 ≡ ok
    → y.1 ≢ ok
    → (b ≡ true) × (x.1 ≡ ok)
if_ok true x y h n = (refl, h)
if_ok false x y h n = absurd (n h)

module _ (platform : Platform) (server : String) (meta : ToolMeta) (args : Value) where
  -- The server's grant was made for the configuration that is live now, and on the same branch.
  abbrev pub has_grant : ℕ → ApprovalState → Bool
  has_grant captured s =
      nat_beq captured s.grants_ref
      && grant_holds (get server s.approved_servers)
          (get_server_approval_identity platform s server)

  abbrev pub is_remembered : ApprovalState → Bool
  is_remembered s = contains (cache_key platform server meta args) s.approved_tool_calls

  -- The server-wide answer, taken for the configuration that was asked about and is still live, on
  -- the branch where it was asked.
  abbrev pub GrantsServer : ℕ → Option ServerIdentity → ApprovalState → Type 0
  GrantsServer captured asked s =
      (identity : ServerIdentity) × (asked ≡ some identity)
      × (get_server_approval_identity platform s server ≡ some identity)
      × (s.grants_ref ≡ captured)

  -- What can stand behind a call that passes; `s` is the state when the broker has answered.
  pub data Justified (before : ApprovalState) (w : World) (s : ApprovalState) : Type 0 where
    by_broker : (w.broker ≡ allow_once) ⊎ (w.broker ≡ allow_for_session) → Justified before w s
    by_grant : has_grant before.grants_ref s ≡ true → Justified before w s
    by_memory : is_remembered s ≡ true → Justified before w s
    not_required :
        is_tool_call_approval_required (for_approval w s) server meta ≡ false → Justified before w s
    by_dialog :
        s.has_ui ≡ true
        → (w.answer ≡ Answer.once) ⊎ (w.answer ≡ Answer.session)
        → Justified before w s
    by_server_dialog :
        s.has_ui ≡ true
        → w.answer ≡ Answer.server_session
        → GrantsServer before.grants_ref
            (get_server_approval_identity platform before server)
            (w.during_dialog (forget_grant before.grants_ref server s))
        → Justified before w s

  required-forget_grant :
      (captured : ℕ) (w : World) (s : ApprovalState)
      → is_tool_call_approval_required (for_approval w (forget_grant captured server s)) server meta
        ≡ is_tool_call_approval_required (for_approval w s) server meta
  unfolding is_tool_call_approval_required forget_grant
  required-forget_grant captured w s = elim (Bool-cases (nat_beq captured s.grants_ref)) [
    | inl e ↦ rw (e, forget_grant) refl
    | inr e ↦ rw (e, forget_grant) refl
  ]

  memory-forget_grant :
      (captured : ℕ) (s : ApprovalState)
      → (forget_grant captured server s).approved_tool_calls ≡ s.approved_tool_calls
  unfolding forget_grant
  memory-forget_grant captured s = ground arith

  ui-forget_grant :
      (captured : ℕ) (s : ApprovalState) → (forget_grant captured server s).has_ui ≡ s.has_ui
  unfolding forget_grant
  ui-forget_grant captured s = ground arith

  same_identity→eq : (a b : ServerIdentity) → same_identity a b ≡ true → a ≡ b
  same_identity→eq a b h = ground (arith, eq_iff a.hash b.hash)

  grant_holds→eq :
      (i : ServerIdentity) (live : Option ServerIdentity)
      → grant_holds (some i) live ≡ true
      → live ≡ some i
  grant_holds→eq i none h = cc
  grant_holds→eq i (some j) h = ap some (sym (same_identity→eq i j h))

  server_answer_ok :
      (captured : ℕ) (asked : Option ServerIdentity) (w : World) (s : ApprovalState)
      → w.answer ≡ Answer.server_session
      → (answered platform server meta args captured asked w s).1 ≡ ok
      → GrantsServer captured asked s
  unfolding answered
  server_answer_ok captured none w s e h = ground arith
  server_answer_ok captured (some identity) w s e h =
      (identity, refl, grant_holds→eq identity _ (ground arith), ground arith)

  -- A dialog lets the call through only by one of its three grants.
  answered_ok :
      (captured : ℕ) (asked : Option ServerIdentity) (w : World) (s : ApprovalState)
      → (answered platform server meta args captured asked w s).1 ≡ ok
      → (w.answer ≡ Answer.once) ⊎ (w.answer ≡ Answer.session) ⊎ (w.answer ≡ Answer.server_session)
  unfolding answered
  answered_ok captured asked w s h = ground arith

  -- With no grant and no memory of it, a call that needs an approval goes to the dialog, or is
  -- refused where there is none.
  unclaimed_gated :
      (captured : ℕ) (asked : Option ServerIdentity) (s : ApprovalState) (w : World)
      → has_grant captured s ≡ false
      → is_remembered s ≡ false
      → is_tool_call_approval_required (for_approval w s) server meta ≡ true
      → unclaimed platform server meta args captured asked w s ≡ (
          if s.has_ui
          then answered platform server meta args captured asked w
              (w.during_dialog (forget_grant captured server s))
          else (forget_grant captured server s, approval_required_headless))
  unfolding unclaimed
  unclaimed_gated captured asked s w g m r = rw (
    g,
    required-forget_grant captured w s,
    r,
    memory-forget_grant captured s,
    m,
    ui-forget_grant captured s,
  )

  dialog_ok :
      (before s : ApprovalState) (w : World)
      → s.has_ui ≡ true
      → (answered platform server meta args before.grants_ref
          (get_server_approval_identity platform before server)
          w
          (w.during_dialog (forget_grant before.grants_ref server s))).1
        ≡ ok
      → Justified before w s
  dialog_ok before s w on e = elim (answered_ok _ _ w _ e) [
    | inl once ↦ by_dialog on (inl once)
    | inr rest ↦ elim rest [
      | inl session ↦ by_dialog on (inr session)
      | inr wide ↦ by_server_dialog on wide (server_answer_ok _ _ w _ wide e)
    ]
  ]

  unclaimed_ok :
      (before s : ApprovalState) (w : World)
      → (unclaimed platform server meta args before.grants_ref
          (get_server_approval_identity platform before server)
          w
          s).1
        ≡ ok
      → Justified before w s
  unclaimed_ok before s w h = elim (Bool-cases (has_grant before.grants_ref s)) [
    | inl granted ↦ by_grant granted
    | inr ungranted ↦ elim (Bool-cases (is_remembered s)) [
      | inl known ↦ by_memory known
      | inr unknown ↦
          elim (Bool-cases (is_tool_call_approval_required (for_approval w s) server meta)) [
            | inr free ↦ not_required free
            | inl gated ↦
                let (on, e) =
                  if_ok s.has_ui _ _
                    (rw (unclaimed_gated before.grants_ref _ s w ungranted unknown gated) at h)
                    (λ e. cc) in
                dialog_ok before s w on e
          ]
    ]
  ]

  -- No call passes the gate without a reason: the broker allowed it, the live configuration has a
  -- grant for the whole server on this branch, this very call is remembered, no approval is
  -- required, or there is a dialog and its answer allowed it, a server-wide answer only while the
  -- configuration that was asked about is still live on the branch where it was asked.
  pub ensure_tool_call_approved-Justified :
      (w : World) (s : ApprovalState)
      → (ensure_tool_call_approved platform server meta args w s).1 ≡ ok
      → Justified s w (w.during_broker s)
  unfolding ensure_tool_call_approved
  ensure_tool_call_approved-Justified w s h = by_decision w.broker refl
    where
      by_decision : (b : BrokerDecision) → w.broker ≡ b → Justified s w (w.during_broker s)
      by_decision allow_once e = by_broker (inl e)
      by_decision allow_for_session e = by_broker (inr e)
      by_decision abstain e =
          unclaimed_ok s (w.during_broker s) w (rw (e, ensure_tool_call_approved) at h)
      by_decision deny e = absurd (ground arith)
      by_decision rejected e = absurd (ground arith)
      by_decision (deny_with reason) e = absurd (ground arith)

  entry_key-tool_approval :
      entry_key (tool_approval platform server meta args) ≡ cache_key platform server meta args
  unfolding cache_key
  entry_key-tool_approval = refl

  remembered :
      (s : ApprovalState)
      → is_remembered (remember s (tool_approval platform server meta args)) ≡ true
  unfolding remember cache_key
  remembered s =
      let key = cache_key platform server meta args in
      ground (arith, contains-add key key s.approved_tool_calls, eq_refl key)

  unclaimed-remembered :
      (captured : ℕ) (asked : Option ServerIdentity) (w : World) (s : ApprovalState)
      → is_remembered s ≡ true
      → w.aborted_at_grant ≡ false
      → (unclaimed platform server meta args captured asked w s).1 ≡ ok
  unfolding unclaimed
  unclaimed-remembered captured asked w s known live =
      ground (arith, memory-forget_grant captured s)

  -- What a decision of the broker gives a call that is remembered.
  abbrev pub by_broker_alone : BrokerDecision → ToolCallApprovalResult
  by_broker_alone allow_once = ok
  by_broker_alone allow_for_session = ok
  by_broker_alone abstain = ok
  by_broker_alone deny = denied none
  by_broker_alone (deny_with reason) = denied (some reason)
  by_broker_alone rejected = thrown

  -- After the broker has allowed a call for the session, the broker alone decides about the same
  -- call, with no dialog and no report of a missing one: it passes where the broker allows it or
  -- abstains, and it is denied, or throws, where the broker denies it or its request is rejected.
  -- This is so while the signal is not aborted and the second request to the broker changes nothing.
  pub ensure_tool_call_approved-again :
      (w again : World) (s : ApprovalState)
      → w.broker ≡ allow_for_session
      → again.aborted_at_grant ≡ false
      → let t = (ensure_tool_call_approved platform server meta args w s).0 in
        again.during_broker t ≡ t
        → (ensure_tool_call_approved platform server meta args again t).1
          ≡ by_broker_alone again.broker
  unfolding ensure_tool_call_approved
  ensure_tool_call_approved-again w again s b live same = decided again.broker refl
    where
      decided :
          (d : BrokerDecision)
          → again.broker ≡ d
          → (ensure_tool_call_approved platform server meta args again
              (ensure_tool_call_approved platform server meta args w s).0).1
            ≡ by_broker_alone again.broker
      decided abstain a =
          let t = (ensure_tool_call_approved platform server meta args w s).0 in
          let known : is_remembered t ≡ true =
            rw (b, ensure_tool_call_approved) (remembered (w.during_broker s)) in
          rw (a, ensure_tool_call_approved)
            (unclaimed-remembered t.grants_ref _ again (again.during_broker t) (rw same known) live)
      decided allow_once a = rw (a, ensure_tool_call_approved) refl
      decided allow_for_session a = rw (a, ensure_tool_call_approved) refl
      decided deny a = rw (a, ensure_tool_call_approved) refl
      decided rejected a = rw (a, ensure_tool_call_approved) refl
      decided (deny_with reason) a = rw (a, ensure_tool_call_approved) refl
