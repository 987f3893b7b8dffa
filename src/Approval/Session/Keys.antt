-- ===== src/Approval/Session/Keys.antt =====
-- The keys of remembered approvals: four texts joined by NUL.
use Prim.Native.Char.{nul, code}
use Prim.Native.String
use text.Mathlib.TextLemmas.{nil-append, cons-append, cons-eq-cons}
use mcp_adapter.Prelude.{String, ◌≡◌, ◌≢◌, ◌∙◌, refl, sym, ap, ap₂}
use mcp_adapter.Approval.Entry.{ToolApproval}
use mcp_adapter.Approval.Session.{make_tool_approval_key, entry_key}

abbrev pub HasNoNul : String → Type 0
HasNoNul String.[] = Unit
HasNoNul (String.◌∷◌ c s) = (code c ≢ 0) × HasNoNul s

-- Of two texts that meet a NUL, the parts before it and after it agree.
split_at_nul :
    (s t x y : String)
    → HasNoNul s
    → HasNoNul t
    → String.◌++◌ s (String.◌∷◌ nul x) ≡ String.◌++◌ t (String.◌∷◌ nul y)
    → (s ≡ t) × (x ≡ y)
split_at_nul String.[] String.[] x y h k e =
    let e' = sym (nil-append _) ∙ e ∙ nil-append _ in (refl, (cons-eq-cons.0 e').1)
split_at_nul String.[] (String.◌∷◌ d t) x y h k e =
    let e' = sym (nil-append _) ∙ e ∙ cons-append d t _ in
    absurd (k.0 (ap code (sym (cons-eq-cons.0 e').0)))
split_at_nul (String.◌∷◌ c s) String.[] x y h k e =
    let e' = sym (cons-append c s _) ∙ e ∙ nil-append _ in
    absurd (h.0 (ap code (cons-eq-cons.0 e').0))
split_at_nul (String.◌∷◌ c s) (String.◌∷◌ d t) x y h k e =
    let e' = sym (cons-append c s _) ∙ e ∙ cons-append d t _ in
    let (head, tail) = cons-eq-cons.0 e' in
    let (front, back) = split_at_nul s t x y h.1 k.1 tail in (ap₂ String.◌∷◌ head front, back)

-- An approval is remembered for one server, one tool, one definition and one set of arguments: two
-- approvals share a key only if they agree in all four, where no server or tool name holds a NUL
-- and no definition hash does.
pub entry_key-injective :
    (a b : ToolApproval)
    → HasNoNul a.server_name
    → HasNoNul b.server_name
    → HasNoNul a.original_tool_name
    → HasNoNul b.original_tool_name
    → HasNoNul a.definition_hash
    → HasNoNul b.definition_hash
    → entry_key a ≡ entry_key b
    → a ≡ b
unfolding make_tool_approval_key
entry_key-injective a b s s' n n' d d' e =
    let (server, e₁) = split_at_nul _ _ _ _ s s' e in
    let (name, e₂) = split_at_nul _ _ _ _ n n' e₁ in
    let (definition, args) = split_at_nul _ _ _ _ d d' e₂ in
    λ i. record {
      server_name = server i;
      original_tool_name = name i;
      definition_hash = definition i;
      args_hash = args i;
    }
