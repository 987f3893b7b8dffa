-- ===== src/Approval/Consent/Laws.antt =====
-- The consent manager against a record of one decision per server.
use mcp_adapter.Prelude.{
  String, Bool, true, false, none, some, List, [], ◌∷◌, ◌==◌, ◌≡◌, ◌∙◌, ◌≢◌, ◌↔◌, refl, arith,
  eq_iff, eq_refl, if◌then◌else◌, contains, remove, contains-add, contains-remove, contains-nil,
}
use mcp_adapter.Approval.Consent.{
  ToolConsentMode, always, ConsentManager, requires_approval, Checked, passed, thrown, init,
  is_always, requires_prompt, apply_decision, register_decision, clear_server, restore_decision,
  ensure_approved, clear,
}

-- The abstract state of a server.
pub data Decision : Type 0 where
  undecided granted refused : Decision

abbrev pub decision : ConsentManager → String → Decision
decision c server =
    if contains server c.denied_servers
    then refused
    else if contains server c.approved_servers
    then granted
    else undecided

-- The calls that change the manager. A check that throws leaves it as it was.
pub data Call : Type 0 where
  register restore : String → Bool → Call
  ensure : String → Call
  clear_one : String → Call
  clear_all : Call

abbrev pub after : ConsentManager → Checked → ConsentManager
after c (passed d) = d
after c (thrown e) = c

abbrev pub registered : ConsentManager → String → Bool → ConsentManager
registered c server approved = (register_decision {W = Unit {0}} none c server approved tt).0

unfoldable pub step : ConsentManager → Call → ConsentManager
step c (register server approved) = registered c server approved
step c (restore server approved) = restore_decision c server approved
step c (ensure server) = after c (ensure_approved c server)
step c (clear_one server) = clear c (some server)
step c clear_all = clear c none

unfoldable pub run : ConsentManager → List Call → ConsentManager
run c [] = c
run c (call ∷ calls) = run (step c call) calls

abbrev decided : Bool → Decision
decided true = granted
decided false = refused

-- What a call means for the decision on `server`.
abbrev pub spec_step : ToolConsentMode → String → Decision → Call → Decision
spec_step mode server d (register s approved) = if s == server then decided approved else d
spec_step mode server d (restore s approved) =
    if s == server
    then (if is_always mode then (if approved then undecided else refused) else decided approved)
    else d
spec_step always server granted (ensure s) = if s == server then undecided else granted
spec_step mode server d (ensure s) = d
spec_step mode server d (clear_one s) =
    if s == "" then undecided else if s == server then undecided else d
spec_step mode server d clear_all = undecided

abbrev pub spec_run : ToolConsentMode → String → Decision → List Call → Decision
spec_run mode server d [] = d
spec_run mode server d (call ∷ calls) = spec_run mode server (spec_step mode server d call) calls

abbrev pub IsDisjoint : ConsentManager → Type 0
IsDisjoint c =
    (s : String) → contains s c.approved_servers ≡ true → contains s c.denied_servers ≡ false

mode-step : (c : ConsentManager) (call : Call) → (step c call).mode ≡ c.mode
unfolding step register_decision restore_decision ensure_approved clear
mode-step c (register s a) = ground arith
mode-step c (restore s a) = ground arith
mode-step c (ensure s) = ground arith
mode-step c (clear_one s) = ground arith
mode-step c clear_all = refl

module _ (c : ConsentManager) (server s : String) where
  decision-apply :
      (a : Bool)
      → decision (apply_decision c s a) server
        ≡ (if s == server then decided a else decision c server)
  unfolding apply_decision
  decision-apply a = ground (
    arith,
    contains-add server s (remove s c.denied_servers),
    contains-add server s (remove s c.approved_servers),
    contains-remove server s c.denied_servers,
    contains-remove server s c.approved_servers,
  )

  decision-clear_server :
      decision (clear_server c s) server ≡ (if s == server then undecided else decision c server)
  unfolding clear_server
  decision-clear_server = ground (
    arith,
    contains-remove server s c.denied_servers,
    contains-remove server s c.approved_servers,
  )

  decision-ensure :
      decision (after c (ensure_approved c s)) server
      ≡ spec_step c.mode server (decision c server) (ensure s)
  unfolding ensure_approved
  decision-ensure = ground (arith, eq_iff s server, contains-remove server s c.approved_servers)

decision-clear_all :
    (c : ConsentManager) (server : String) → decision (init c.mode) server ≡ undecided
decision-clear_all c server = simp contains-nil

decision-step :
    (c : ConsentManager) (server : String) (call : Call)
    → decision (step c call) server ≡ spec_step c.mode server (decision c server) call
unfolding step register_decision restore_decision clear
decision-step c server (register s a) = decision-apply c server s a
decision-step c server (restore s a) =
    ground (arith, decision-apply c server s a, decision-clear_server c server s)
decision-step c server (ensure s) = decision-ensure c server s
decision-step c server (clear_one s) =
    ground (arith, decision-clear_all c server, decision-clear_server c server s)
decision-step c server clear_all = decision-clear_all c server

run-mode : (c : ConsentManager) (calls : List Call) → (run c calls).mode ≡ c.mode
unfolding run
run-mode c [] = refl
run-mode c (call ∷ calls) = run-mode (step c call) calls ∙ mode-step c call

-- After any history of decisions, restores, checks and clears, each server's state is the one that
-- the same history gives when it is followed for that server alone.
pub decision-run :
    (c : ConsentManager) (server : String) (calls : List Call)
    → decision (run c calls) server ≡ spec_run c.mode server (decision c server) calls
unfolding run
decision-run c server [] = refl
decision-run c server (call ∷ calls) =
    rw (decision-run (step c call) server calls, mode-step c call, decision-step c server call) refl

decision-granted :
    (c : ConsentManager) (s : String)
    → IsDisjoint c
    → (contains s c.approved_servers ≡ true) ↔ (decision c s ≡ granted)
decision-granted c s h = (λ e. ground (arith, h s e), λ e. ground arith)

IsDisjoint-step : (c : ConsentManager) (call : Call) → IsDisjoint c → IsDisjoint (step c call)
unfolding step register_decision restore_decision clear apply_decision clear_server ensure_approved
IsDisjoint-step c (register s a) h x = grind (arith, h x, contains-add, contains-remove)
IsDisjoint-step c (restore s a) h x = grind (arith, h x, contains-add, contains-remove)
IsDisjoint-step c (ensure s) h x = grind (arith, h x, contains-remove)
IsDisjoint-step c (clear_one s) h x = grind (arith, h x, contains-remove, contains-nil)
IsDisjoint-step c clear_all h x = λ _. contains-nil x

run-IsDisjoint : (c : ConsentManager) (calls : List Call) → IsDisjoint c → IsDisjoint (run c calls)
unfolding run
run-IsDisjoint c [] h = h
run-IsDisjoint c (call ∷ calls) h = run-IsDisjoint (step c call) calls (IsDisjoint-step c call h)

-- No server is ever both approved and denied, whatever the history since the manager was made.
pub run-init-IsDisjoint :
    (mode : ToolConsentMode) (calls : List Call) → IsDisjoint (run (init mode) calls)
run-init-IsDisjoint mode calls = run-IsDisjoint (init mode) calls (λ s _. contains-nil s)

-- In mode "always" one grant pays for one call: right after a check that passes, the next check of
-- the same server asks for approval again.
pub ensure_approved-twice :
    (c d : ConsentManager) (s : String)
    → c.mode ≡ always
    → ensure_approved c s ≡ passed d
    → ensure_approved d s ≡ thrown (requires_approval s)
unfolding ensure_approved
ensure_approved-twice c d s m e = ground (arith, contains-remove s s c.approved_servers, eq_refl s)

-- Outside mode "always", the prompt is skipped exactly where the check passes and changes nothing.
pub requires_prompt_iff :
    (c : ConsentManager) (s : String)
    → c.mode ≢ always
    → (requires_prompt c s ≡ false) ↔ (ensure_approved c s ≡ passed c)
unfolding requires_prompt ensure_approved
requires_prompt_iff c s h = (λ e. ground arith, λ e. ground arith)
