-- ===== src/Approval/Consent.antt =====
-- consent-manager.ts: the `ConsentManager`, which remembers per server whether its UI may call tools.
pub mod Laws
mod Tests
use mcp_adapter.Prelude.{
  String, Bool, true, false, Option, none, some, List, [], ◌==◌, if◌then◌else◌, contains, add,
  remove, not,
}
use mcp_adapter.Approval.Entry.{SessionApprovalEntry, iframe}

pub data ToolConsentMode : Type 0 where
  never once_per_server always : ToolConsentMode

pub record ConsentManager : Type 0 where
  pub mode : ToolConsentMode
  pub approved_servers : List String
  pub denied_servers : List String

pub data ConsentError : Type 0 where
  denied requires_approval : String → ConsentError

-- A call that may throw: the manager afterwards, or the error.
pub data Checked : Type 0 where
  passed : ConsentManager → Checked
  thrown : ConsentError → Checked

abbrev pub init : ToolConsentMode → ConsentManager
init mode = record { mode = mode; approved_servers = []; denied_servers = [] }

-- `mode === "always"`
abbrev pub is_always : ToolConsentMode → Bool
is_always always = true
is_always _ = false

abbrev pub is_never : ToolConsentMode → Bool
is_never never = true
is_never _ = false

unfoldable pub requires_prompt : ConsentManager → String → Bool
requires_prompt c server =
    if is_never c.mode
    then false
    else if contains server c.denied_servers
    then true
    else if is_always c.mode
    then true
    else not (contains server c.approved_servers)

pub should_cache_consent : ConsentManager → Bool
should_cache_consent c = not (is_always c.mode)

apply_decision : ConsentManager → String → Bool → ConsentManager
apply_decision c server approved =
    let denied = remove server c.denied_servers in
    let allowed = remove server c.approved_servers in
    if approved
    then record c { approved_servers = add server allowed; denied_servers = denied }
    else record c { approved_servers = allowed; denied_servers = add server denied }

-- `persistDecision` may be missing, and its effects are on a world of its own. What it throws is
-- caught and logged, so only the world that it leaves is seen.
unfoldable pub register_decision {ℓ} :
    {W : Type ℓ}
    → Option (SessionApprovalEntry → W → W)
    → ConsentManager
    → String
    → Bool
    → W
    → ConsentManager × W
unfolding apply_decision
register_decision persist c server approved w = (
  apply_decision c server approved,
  elim persist [ none ↦ w | some write ↦ write (iframe approved server) w ],
)

clear_server : ConsentManager → String → ConsentManager
clear_server c server = record c {
  approved_servers = remove server c.approved_servers;
  denied_servers = remove server c.denied_servers;
}

unfoldable pub restore_decision : ConsentManager → String → Bool → ConsentManager
unfolding apply_decision clear_server
restore_decision c server approved =
    if is_always c.mode
    then (if approved then clear_server c server else apply_decision c server approved)
    else apply_decision c server approved

unfoldable pub ensure_approved : ConsentManager → String → Checked
ensure_approved c server =
    if is_never c.mode
    then passed c
    else if contains server c.denied_servers
    then thrown (denied server)
    else if not (contains server c.approved_servers)
    then thrown (requires_approval server)
    else if is_always c.mode
    then passed (record c { approved_servers = remove server c.approved_servers })
    else passed c

-- `clear(serverName?)`; an empty name is falsy, and clears everything as a missing one does.
unfoldable pub clear : ConsentManager → Option String → ConsentManager
unfolding clear_server
clear c none = init c.mode
clear c (some server) = if server == "" then init c.mode else clear_server c server
