-- ===== src/Runtime/Owner/Tests.antt =====
-- An owner that is stopped between cleanups.
use mcp_adapter.Prelude.{String, List, [], ◌∷◌, ◌≡◌, refl}
use mcp_adapter.Runtime.Owner.{
  Call, add_cleanup, stop, create_mcp_runtime_owner, run_calls, fulfilled, rejected,
  aggregate_error, stop_result,
}
use mcp_adapter.Runtime.Owner.Laws.{
  before_stop, after_stop, starts, first_reason, run_calls-started,
}

abbrev calls : List (Call String)
calls =
    add_cleanup "servers"
    ∷ add_cleanup "tasks"
    ∷ stop "reload"
    ∷ add_cleanup "late"
    ∷ stop "again"
    ∷ []

owner_tests :
    ((run_calls calls create_mcp_runtime_owner).started ≡ "tasks" ∷ "servers" ∷ "late" ∷ [])
    × (stop_result (fulfilled ∷ rejected "busy" ∷ []) ≡ aggregate_error ("busy" ∷ []))
unfolding run_calls create_mcp_runtime_owner stop_result
owner_tests = (refl, refl)

run_calls-started_example :
    ((run_calls calls create_mcp_runtime_owner).started
      ≡ starts (first_reason calls) (before_stop calls) (after_stop calls))
    × ((run_calls calls create_mcp_runtime_owner).reason ≡ first_reason calls)
run_calls-started_example = run_calls-started calls
