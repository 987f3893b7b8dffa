-- ===== src/Approval/Project.antt =====
-- project-server-trust.ts: the servers and script tools that a project's own configuration adds are
-- blocked until the user allows them. The store of approvals is a list here, its file is not modelled.
pub mod Laws
mod Tests
use mcp_adapter.Prelude.{
  ℕ, String, Bool, true, false, not, ◌&&◌, ◌||◌, Option, none, some, List, [], ◌∷◌,
  ◌++◌ as list_append, ◌==◌, if◌then◌else◌, nat_beq, length, any, keep, bool_beq, Map, get, put,
  delete, or_else,
}
use Prim.Native.String.{◌++◌}
use mcp_adapter.Json.{
  Value, null, undefined, bool, num, str, arr, obj, Elements, no_elements, element, Members,
  no_members, member, own,
}

-- Code that is not the program's: `localeCompare`, as "not after", `JSON.stringify` and SHA-256.
pub record TrustPlatform : Type 0 where
  pub locale_not_after : String → String → Bool
  pub json_text : Value → String
  pub sha256 : String → String

pub record ApprovalRecord : Type 0 where
  pub project_root : String
  pub server_name : String
  pub definition_hash : String
  pub approved_at : String
  pub is_script_tool : Bool

pub data BlockReason : Type 0 where
  untrusted approval_required denied : BlockReason

abbrev is_undefined : Value → Bool
is_undefined undefined = true
is_undefined v = false

-- `definition.disabled === true`
abbrev is_true : Option Value → Bool
is_true (some (bool true)) = true
is_true v = false

abbrev pub is_server_disabled : Members → Bool
is_server_disabled definition = is_true (own "disabled" definition)

-- `{ ...definition, disabled: true }`
unfoldable pub disable : Members → Members
disable no_members = member "disabled" (bool true) no_members
disable (member k v ms) =
    let rest = disable ms in if k == "disabled" then member k (bool true) ms else member k v rest

abbrev pub script_tool_approval_key : String → String
script_tool_approval_key name = "scriptTools/" ++ name

module _ (platform : TrustPlatform) where
  insert_member : String → Value → Members → Members
  insert_member k v no_members = member k v no_members
  insert_member k v (member j w ms) =
      let rest = insert_member k v ms in
      if platform.locale_not_after k j then member k v (member j w ms) else member j w rest

  unfoldable mutual
    unfolding insert_member

    pub canonicalize : Value → Value
    canonicalize (arr vs) = arr (canonical_elements vs)
    canonicalize (obj ms) = obj (canonical_members ms)
    canonicalize v = v

    pub canonical_elements : Elements → Elements
    canonical_elements no_elements = no_elements
    canonical_elements (element v vs) = element (canonicalize v) (canonical_elements vs)

    pub canonical_members : Members → Members
    canonical_members no_members = no_members
    canonical_members (member k v ms) =
        let rest = canonical_members ms in
        let here = canonicalize v in if is_undefined v then rest else insert_member k here rest

  unfoldable pub hash_project_server_definition : Members → String
  unfolding canonicalize
  hash_project_server_definition definition =
      platform.sha256 (platform.json_text (canonicalize (obj definition)))

  unfoldable pub is_approved : List ApprovalRecord → String → String → Members → Bool → Bool
  unfolding hash_project_server_definition
  is_approved approvals root name definition script =
      any
        (λ e.
          e.project_root == root
          && (e.server_name == name
              && (e.definition_hash == hash_project_server_definition definition
                  && bool_beq e.is_script_tool script)))
        approvals

-- `saveApproval`, on the list that the file holds.
unfoldable pub save_approval : ApprovalRecord → List ApprovalRecord → List ApprovalRecord
save_approval r store =
    list_append
      (keep
        (λ e.
          not (e.project_root == r.project_root)
          || (not (e.server_name == r.server_name)
              || not (bool_beq e.is_script_tool r.is_script_tool)))
        store)
      (r ∷ [])

-- What the loop knows: the approvals are those of the store at its start, the choices say in which
-- dialogs the user chooses "Allow", and `now` is the time of an approval.
pub record TrustGate : Type 0 where
  pub project_trusted : Bool
  pub interactive : Bool
  pub allow_option : Bool
  pub policy_allows : Bool
  pub project_root : String
  pub approvals : List ApprovalRecord
  pub choose_server : String → Bool
  pub choose_script_tool : String → Bool
  pub now : String

pub record TrustResult : Type 0 where
  pub servers : Map Members
  pub script_tools : Map Members
  pub blocked_servers : Map BlockReason
  pub blocked_script_tools : Map BlockReason
  pub store : List ApprovalRecord

-- Whether the entry is passed, allowed in a dialog, or blocked.
pub data Verdict : Type 0 where
  passed allowed : Verdict
  blocked : BlockReason → Verdict

-- `allowUnapproved`, by the option, and by the policy of a session without dialogs.
abbrev pub allows_unapproved : TrustGate → Bool
allows_unapproved g = g.allow_option || (not g.interactive && g.policy_allows)

unfoldable pub verdict : TrustGate → Bool → Bool → Verdict
verdict g approved chosen =
    if g.project_trusted && (approved || allows_unapproved g)
    then passed
    else if not g.project_trusted
    then blocked untrusted
    else if not g.interactive
    then blocked approval_required
    else if chosen
    then allowed
    else blocked denied

module _ (platform : TrustPlatform) (g : TrustGate) where
  approval : String → Members → Bool → ApprovalRecord
  unfolding hash_project_server_definition
  approval name definition script = record {
    project_root = g.project_root;
    server_name = name;
    definition_hash = hash_project_server_definition platform definition;
    approved_at = g.now;
    is_script_tool = script;
  }

  -- What is done with a server, by its verdict.
  settle_server : String → Members → Verdict → TrustResult → TrustResult
  unfolding approval save_approval disable put
  settle_server name definition passed t = t
  settle_server name definition allowed t = record t {
    store = save_approval (approval name definition false) t.store;
  }
  settle_server name definition (blocked reason) t = record t {
    servers = put name (disable definition) t.servers;
    blocked_servers = put name reason t.blocked_servers;
  }

  apply_to_server : String → Option Members → TrustResult → TrustResult
  unfolding settle_server verdict is_approved
  apply_to_server name none t = t
  apply_to_server name (some definition) t =
      if is_server_disabled definition
      then t
      else settle_server name definition
          (verdict g (is_approved platform g.approvals g.project_root name definition false)
            (g.choose_server name))
          t

  -- The loop over the servers of the project.
  unfoldable pub apply_to_servers : List String → TrustResult → TrustResult
  unfolding apply_to_server get
  apply_to_servers [] t = t
  apply_to_servers (name ∷ names) t =
      apply_to_servers names (apply_to_server name (get name t.servers) t)

  settle_script_tool : String → Members → Verdict → TrustResult → TrustResult
  unfolding approval save_approval delete put
  settle_script_tool name definition passed t = t
  settle_script_tool name definition allowed t = record t {
    store = save_approval (approval (script_tool_approval_key name) definition true) t.store;
  }
  settle_script_tool name definition (blocked reason) t = record t {
    script_tools = delete name t.script_tools;
    blocked_script_tools = put name reason t.blocked_script_tools;
  }

  apply_to_script_tool : String → Option Members → TrustResult → TrustResult
  unfolding settle_script_tool verdict is_approved
  apply_to_script_tool name none t = t
  apply_to_script_tool name (some definition) t =
      settle_script_tool name definition
        (verdict g
          (is_approved platform g.approvals g.project_root (script_tool_approval_key name)
            definition true)
          (g.choose_script_tool name))
        t

  unfoldable pub apply_to_script_tools : List String → TrustResult → TrustResult
  unfolding apply_to_script_tool get
  apply_to_script_tools [] t = t
  apply_to_script_tools (name ∷ names) t =
      apply_to_script_tools names (apply_to_script_tool name (get name t.script_tools) t)

  -- What is known before the loops.
  abbrev pub untested : Map Members → Map Members → TrustResult
  untested servers script_tools = record {
    servers = servers;
    script_tools = script_tools;
    blocked_servers = [];
    blocked_script_tools = [];
    store = g.approvals;
  }

  -- `applyProjectServerTrust`, for the names of the project's servers and of its script tools, with
  -- its early return.
  unfoldable pub apply_project_server_trust :
      List String → List String → Map Members → Map Members → TrustResult
  unfolding apply_to_servers apply_to_script_tools
  apply_project_server_trust project_servers project_script_tools servers script_tools =
      if nat_beq (length project_servers) 0 && nat_beq (length project_script_tools) 0
      then untested servers script_tools
      else apply_to_script_tools project_script_tools
          (apply_to_servers project_servers (untested servers script_tools))
