-- ===== src/Approval/Project/Laws.antt =====
-- No server of a project is enabled, and no script tool of it is kept, without the user's leave.
use mcp_adapter.Prelude.{
  nat_beq, length, String, Bool, true, false, ◌&&◌, ◌||◌, Option, none, some, List, [], ◌∷◌, ◌==◌,
  ◌≡◌, ◌⊎◌, refl, sym, subst, ◌∙◌, arith, inl, inr, Map, get, put, delete, get-put, get-delete,
  contains, eq_iff, eq_refl, Bool-cases, or→either,
}
use mcp_adapter.Json.{Members, no_members, member, own}
use mcp_adapter.Approval.Project.{
  allows_unapproved, TrustPlatform, TrustGate, TrustResult, Verdict, passed, allowed, blocked,
  verdict, is_approved, is_server_disabled, disable, script_tool_approval_key, settle_server,
  apply_to_server, apply_to_servers, settle_script_tool, apply_to_script_tool,
  apply_to_script_tools, apply_project_server_trust,
}

disable-is_server_disabled : (ms : Members) → is_server_disabled (disable ms) ≡ true
unfolding disable
disable-is_server_disabled no_members = refl
disable-is_server_disabled (member k v ms) = elim (Bool-cases (k == "disabled")) [
  | inl same ↦ rw same (rw (same, own) refl)
  | inr other ↦ rw other (rw (other, own) (disable-is_server_disabled ms))
]

module _ (platform : TrustPlatform) (g : TrustGate) where
  -- The project is trusted, and the definition was approved as it is, or the session allows what is
  -- not approved, or the user chose to allow it.
  abbrev pub has_leave : Bool → Bool → Bool
  has_leave approved chosen =
      g.project_trusted && (approved || (allows_unapproved g || (g.interactive && chosen)))

  abbrev pub may_run : String → Option Members → Bool
  may_run name none = true
  may_run name (some definition) =
      is_server_disabled definition
      || has_leave (is_approved platform g.approvals g.project_root name definition false)
          (g.choose_server name)

  abbrev pub may_register : String → Option Members → Bool
  may_register name none = true
  may_register name (some definition) =
      has_leave
        (is_approved platform g.approvals g.project_root (script_tool_approval_key name) definition
          true)
        (g.choose_script_tool name)

  abbrev is_blocked : Verdict → Bool
  is_blocked (blocked reason) = true
  is_blocked v = false

  verdict-has_leave :
      (approved chosen : Bool)
      → is_blocked (verdict g approved chosen) ≡ false
      → has_leave approved chosen ≡ true
  unfolding verdict
  verdict-has_leave approved chosen h = ground (arith, h)

  -- A server is left as it is, or disabled.
  settle_server-get :
      (j name : String) (definition : Members) (v : Verdict) (t : TrustResult)
      → (get j (settle_server platform g name definition v t).servers ≡ get j t.servers)
        ⊎ (get j (settle_server platform g name definition v t).servers ≡ some (disable definition))
  unfolding settle_server
  settle_server-get j name definition passed t = inl refl
  settle_server-get j name definition allowed t = inl refl
  settle_server-get j name definition (blocked reason) t = elim (Bool-cases (name == j)) [
    | inl same ↦ inr (get-put j name (disable definition) t.servers ∙ rw same refl)
    | inr other ↦ inl (get-put j name (disable definition) t.servers ∙ rw other refl)
  ]

  disabled-may_run :
      (j : String) (definition : Members) → may_run j (some (disable definition)) ≡ true
  disabled-may_run j definition = rw (disable-is_server_disabled definition) refl

  settle_server-may_run :
      (j name : String) (definition : Members) (v : Verdict) (t : TrustResult)
      → may_run j (get j t.servers) ≡ true
      → may_run j (get j (settle_server platform g name definition v t).servers) ≡ true
  settle_server-may_run j name definition v t h = elim (settle_server-get j name definition v t) [
    | inl same ↦ subst (λ o. may_run j o ≡ true) (sym same) h
    | inr off ↦ subst (λ o. may_run j o ≡ true) (sym off) (disabled-may_run j definition)
  ]

  -- The server that a verdict is about.
  settle_server-here :
      (name : String) (definition : Members) (v : Verdict) (t : TrustResult)
      → get name t.servers ≡ some definition
      → (is_blocked v ≡ false → may_run name (some definition) ≡ true)
      → may_run name (get name (settle_server platform g name definition v t).servers) ≡ true
  unfolding settle_server
  settle_server-here name definition passed t e h =
      subst (λ o. may_run name o ≡ true) (sym e) (h refl)
  settle_server-here name definition allowed t e h =
      subst (λ o. may_run name o ≡ true) (sym e) (h refl)
  settle_server-here name definition (blocked reason) t e h =
      let off : get name (put name (disable definition) t.servers) ≡ some (disable definition) =
        get-put name name (disable definition) t.servers ∙ rw (eq_refl name) refl in
      subst (λ o. may_run name o ≡ true) (sym off) (disabled-may_run name definition)

  server-may_run :
      (name : String) (o : Option Members) (t : TrustResult)
      → get name t.servers ≡ o
      → may_run name (get name (apply_to_server platform g name o t).servers) ≡ true
  unfolding apply_to_server
  server-may_run name none t e = subst (λ o. may_run name o ≡ true) (sym e) refl
  server-may_run name (some definition) t e = elim (Bool-cases (is_server_disabled definition)) [
    | inl off ↦ rw off (subst (λ o. may_run name o ≡ true) (sym e) (rw off refl))
    | inr live ↦ rw live (
        settle_server-here name definition _ t e
          (λ h. ground (arith, verdict-has_leave _ (g.choose_server name) h)))
  ]

  server-keeps :
      (j name : String) (o : Option Members) (t : TrustResult)
      → may_run j (get j t.servers) ≡ true
      → may_run j (get j (apply_to_server platform g name o t).servers) ≡ true
  unfolding apply_to_server
  server-keeps j name none t h = h
  server-keeps j name (some definition) t h = elim (Bool-cases (is_server_disabled definition)) [
    | inl off ↦ rw off h
    | inr live ↦ rw live (settle_server-may_run j name definition _ t h)
  ]

  servers-keep :
      (j : String) (names : List String) (t : TrustResult)
      → may_run j (get j t.servers) ≡ true
      → may_run j (get j (apply_to_servers platform g names t).servers) ≡ true
  unfolding apply_to_servers
  servers-keep j [] t h = h
  servers-keep j (name ∷ names) t h =
      servers-keep j names (apply_to_server platform g name (get name t.servers) t)
        (server-keeps j name (get name t.servers) t h)

  servers-may_run :
      (j : String) (names : List String) (t : TrustResult)
      → contains j names ≡ true
      → may_run j (get j (apply_to_servers platform g names t).servers) ≡ true
  unfolding apply_to_servers contains
  servers-may_run j [] t c = cc
  servers-may_run j (name ∷ names) t c =
      let u = apply_to_server platform g name (get name t.servers) t in
      elim (or→either (name == j) (contains j names) c) [
        | inl same ↦ servers-keep j names u (
            subst (λ i. may_run i (get i u.servers) ≡ true) ((eq_iff name j).0 same)
              (server-may_run name (get name t.servers) t refl))
        | inr later ↦ servers-may_run j names u later
      ]

  -- Script tools: what is kept has leave.
  settle_script_tool-get :
      (j name : String) (definition : Members) (v : Verdict) (t : TrustResult)
      → (get j (settle_script_tool platform g name definition v t).script_tools
          ≡ get j t.script_tools)
        ⊎ (get j (settle_script_tool platform g name definition v t).script_tools ≡ none)
  unfolding settle_script_tool
  settle_script_tool-get j name definition passed t = inl refl
  settle_script_tool-get j name definition allowed t = inl refl
  settle_script_tool-get j name definition (blocked reason) t = elim (Bool-cases (name == j)) [
    | inl same ↦ inr (get-delete j name t.script_tools ∙ rw same refl)
    | inr other ↦ inl (get-delete j name t.script_tools ∙ rw other refl)
  ]

  settle_script_tool-may_register :
      (j name : String) (definition : Members) (v : Verdict) (t : TrustResult)
      → may_register j (get j t.script_tools) ≡ true
      → may_register j (get j (settle_script_tool platform g name definition v t).script_tools)
        ≡ true
  settle_script_tool-may_register j name definition v t h =
      elim (settle_script_tool-get j name definition v t) [
        | inl same ↦ subst (λ o. may_register j o ≡ true) (sym same) h
        | inr gone ↦ subst (λ o. may_register j o ≡ true) (sym gone) refl
      ]

  settle_script_tool-here :
      (name : String) (definition : Members) (v : Verdict) (t : TrustResult)
      → get name t.script_tools ≡ some definition
      → (is_blocked v ≡ false → may_register name (some definition) ≡ true)
      → may_register name
          (get name (settle_script_tool platform g name definition v t).script_tools)
        ≡ true
  unfolding settle_script_tool
  settle_script_tool-here name definition passed t e h =
      subst (λ o. may_register name o ≡ true) (sym e) (h refl)
  settle_script_tool-here name definition allowed t e h =
      subst (λ o. may_register name o ≡ true) (sym e) (h refl)
  settle_script_tool-here name definition (blocked reason) t e h =
      let gone : get name (delete name t.script_tools) ≡ none =
        get-delete name name t.script_tools ∙ rw (eq_refl name) refl in
      subst (λ o. may_register name o ≡ true) (sym gone) refl

  script_tool-may_register :
      (name : String) (o : Option Members) (t : TrustResult)
      → get name t.script_tools ≡ o
      → may_register name (get name (apply_to_script_tool platform g name o t).script_tools) ≡ true
  unfolding apply_to_script_tool
  script_tool-may_register name none t e = subst (λ o. may_register name o ≡ true) (sym e) refl
  script_tool-may_register name (some definition) t e =
      settle_script_tool-here name definition _ t e
        (λ h. verdict-has_leave _ (g.choose_script_tool name) h)

  script_tool-keeps :
      (j name : String) (o : Option Members) (t : TrustResult)
      → may_register j (get j t.script_tools) ≡ true
      → may_register j (get j (apply_to_script_tool platform g name o t).script_tools) ≡ true
  unfolding apply_to_script_tool
  script_tool-keeps j name none t h = h
  script_tool-keeps j name (some definition) t h =
      settle_script_tool-may_register j name definition _ t h

  script_tools-keep :
      (j : String) (names : List String) (t : TrustResult)
      → may_register j (get j t.script_tools) ≡ true
      → may_register j (get j (apply_to_script_tools platform g names t).script_tools) ≡ true
  unfolding apply_to_script_tools
  script_tools-keep j [] t h = h
  script_tools-keep j (name ∷ names) t h =
      script_tools-keep j names (apply_to_script_tool platform g name (get name t.script_tools) t)
        (script_tool-keeps j name (get name t.script_tools) t h)

  script_tools-may_register :
      (j : String) (names : List String) (t : TrustResult)
      → contains j names ≡ true
      → may_register j (get j (apply_to_script_tools platform g names t).script_tools) ≡ true
  unfolding apply_to_script_tools contains
  script_tools-may_register j [] t c = cc
  script_tools-may_register j (name ∷ names) t c =
      let u = apply_to_script_tool platform g name (get name t.script_tools) t in
      elim (or→either (name == j) (contains j names) c) [
        | inl same ↦ script_tools-keep j names u (
            subst (λ i. may_register i (get i u.script_tools) ≡ true) ((eq_iff name j).0 same)
              (script_tool-may_register name (get name t.script_tools) t refl))
        | inr later ↦ script_tools-may_register j names u later
      ]

  -- The loop over the script tools leaves the servers alone.
  settle_script_tool-servers :
      (name : String) (definition : Members) (v : Verdict) (t : TrustResult)
      → (settle_script_tool platform g name definition v t).servers ≡ t.servers
  unfolding settle_script_tool
  settle_script_tool-servers name definition passed t = refl
  settle_script_tool-servers name definition allowed t = refl
  settle_script_tool-servers name definition (blocked reason) t = refl

  script_tool-servers :
      (name : String) (o : Option Members) (t : TrustResult)
      → (apply_to_script_tool platform g name o t).servers ≡ t.servers
  unfolding apply_to_script_tool
  script_tool-servers name none t = refl
  script_tool-servers name (some definition) t = settle_script_tool-servers name definition _ t

  script_tools-servers :
      (names : List String) (t : TrustResult)
      → (apply_to_script_tools platform g names t).servers ≡ t.servers
  unfolding apply_to_script_tools
  script_tools-servers [] t = refl
  script_tools-servers (name ∷ names) t =
      script_tools-servers names (apply_to_script_tool platform g name (get name t.script_tools) t)
      ∙ script_tool-servers name (get name t.script_tools) t

  contains-length :
      (j : String) (names : List String)
      → contains j names ≡ true
      → nat_beq (length names) 0 ≡ false
  unfolding contains
  contains-length j [] c = cc
  contains-length j (name ∷ names) c = ground arith

  -- A server that the project's configuration adds, with or without script tools beside it, may run
  -- only in a trusted project, and only if it was approved as it now is, or what is not approved is
  -- allowed by the caller or, without dialogs, by the policy, or the user chose to allow it in a
  -- dialog; if not, it is disabled in the result or is none of its servers.
  pub apply_project_server_trust-may_run :
      (project_servers project_script_tools : List String) (servers script_tools : Map Members)
      (server : String)
      → contains server project_servers ≡ true
      → may_run server (
          get server
            (apply_project_server_trust platform g project_servers project_script_tools servers
              script_tools).servers)
        ≡ true
  unfolding apply_project_server_trust
  apply_project_server_trust-may_run project_servers project_script_tools servers script_tools
        server c =
      rw (contains-length server project_servers c) (
        subst (λ m. may_run server (get server m) ≡ true)
          (sym (script_tools-servers project_script_tools _))
          (servers-may_run server project_servers _ c))

  and_false : (b : Bool) → (b && false) ≡ false
  and_false true = refl
  and_false false = refl

  -- A script tool that the project's configuration adds, with or without servers beside it, stays in
  -- the result only in a trusted project, and only if it was approved as it now is, or what is not
  -- approved is allowed by the caller or, without dialogs, by the policy, or the user chose to allow it
  -- in a dialog.
  pub apply_project_server_trust-may_register :
      (project_servers project_script_tools : List String) (servers script_tools : Map Members)
      (script_tool : String)
      → contains script_tool project_script_tools ≡ true
      → may_register script_tool (
          get script_tool
            (apply_project_server_trust platform g project_servers project_script_tools servers
              script_tools).script_tools)
        ≡ true
  unfolding apply_project_server_trust
  apply_project_server_trust-may_register project_servers project_script_tools servers script_tools
        tool c =
      rw (contains-length tool project_script_tools c) (
        rw (and_false (nat_beq (length project_servers) 0))
          (script_tools-may_register tool project_script_tools _ c))
