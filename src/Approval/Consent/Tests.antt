-- ===== src/Approval/Consent/Tests.antt =====
-- The consent manager at concrete histories.
use mcp_adapter.Prelude.{true, false, List, [], ◌∷◌, ◌≡◌, refl, contains, add, remove, ◌↔◌}
use mcp_adapter.Approval.Consent.{
  ConsentManager, once_per_server, always, requires_approval, denied, passed, thrown, init,
  ensure_approved, requires_prompt, restore_decision, register_decision, clear,
}
use mcp_adapter.Approval.Consent.Laws.{
  Call, register, restore, ensure, clear_one, run, step, decision, spec_run, granted, undecided,
  decision-run, run-init-IsDisjoint, IsDisjoint, ensure_approved-twice, requires_prompt_iff,
}

opened : Unit {0}
unfolding register_decision restore_decision clear ensure_approved contains add remove run step
    requires_prompt
opened = tt

abbrev history : List Call
history = register "a" true ∷ register "b" false ∷ ensure "a" ∷ clear_one "b" ∷ []

decision_tests :
    (decision (run (init once_per_server) history) "a" ≡ granted)
    × (decision (run (init always) history) "a" ≡ undecided)
    × (decision (run (init always) (register "a" false ∷ restore "a" true ∷ [])) "a" ≡ undecided)
    × (requires_prompt (run (init once_per_server) history) "b" ≡ true)
    × (ensure_approved (run (init always) (register "a" false ∷ [])) "a" ≡ thrown (denied "a"))
unfolding opened
decision_tests = (refl, refl, refl, refl, refl)

decision-run_example :
    decision (run (init always) history) "a" ≡ spec_run always "a" undecided history
unfolding opened
decision-run_example = decision-run (init always) "a" history

run-init-IsDisjoint_example : IsDisjoint (run (init always) history)
run-init-IsDisjoint_example = run-init-IsDisjoint always history

abbrev allowed : ConsentManager
allowed = record { mode = always; approved_servers = "a" ∷ []; denied_servers = "b" ∷ [] }

abbrev spent : ConsentManager
spent = record { mode = always; approved_servers = []; denied_servers = "b" ∷ [] }

ensure_approved-twice_example : ensure_approved spent "a" ≡ thrown (requires_approval "a")
unfolding opened
ensure_approved-twice_example = ensure_approved-twice allowed spent "a" refl refl

requires_prompt_iff_example :
    (requires_prompt (record allowed { mode = once_per_server }) "a" ≡ false) ↔ (
      ensure_approved (record allowed { mode = once_per_server }) "a"
      ≡ passed (record allowed { mode = once_per_server }))
requires_prompt_iff_example =
    requires_prompt_iff (record allowed { mode = once_per_server }) "a" (λ e. cc)
