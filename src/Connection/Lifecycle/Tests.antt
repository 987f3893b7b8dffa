-- ===== src/Connection/Lifecycle/Tests.antt =====
-- The life cycle on concrete servers.
use mcp_adapter.Prelude.{
  true, false, none, some, List, [], ◌∷◌, ◌++◌, ◌≡◌, refl, get, put, delete, contains,
  if◌then◌else◌, ◌&&◌, ◌+◌, ◌*◌, ◌^◌, leb,
}
use mcp_adapter.Connection.Failure.{Failure, no_error, error, http_error, plain_error}
use mcp_adapter.Connection.Lifecycle.{
  McpLifecycleManager, ServerDefinition, closed, mark_keep_alive, unregister_server, is_current,
  record_retry, retry_delay, status_at, same_connection, same_status, should_attempt_connection,
  forget_retry, attempts_of, retry_base_ms, retry_max_ms,
}
use mcp_adapter.Connection.Lifecycle.Check.{Waits, failed, refreshed, check_keep_alive_connection}
use mcp_adapter.Connection.Lifecycle.Steps.{
  marks, checks, unregisters, Steps, done, next, IsTracked,
}
use mcp_adapter.Connection.Lifecycle.Steps.Laws.{Steps-IsTracked}
use mcp_adapter.Connection.Lifecycle.Backoff.{
  fail_at, fail_at-retry, retry_after, should_attempt_connection-record_retry, report_all,
  report_all-warnings, warnings_due, is_told, retry_delay-schedule,
}

abbrev docs : ServerDefinition
docs = record { identity = 7; disabled = false; has_url = true; bearer = false }

abbrev fresh : McpLifecycleManager
fresh = record {
  keep_alive_servers = [];
  all_servers = [];
  server_settings = [];
  global_idle_timeout = 600000;
  retry_states = [];
  pending_metadata_publications = [];
  stopped = false;
  connections = [];
  status_of = λ _. closed;
  has_session_id = λ _. false;
  pending_auth = λ _. false;
  aborted = false;
  now = 1000;
  warnings = [];
}

abbrev kept : McpLifecycleManager
unfolding mark_keep_alive put
kept = mark_keep_alive "docs" docs fresh

-- The connection attempt fails, and the server is removed while it is waited for.
abbrev removed_meanwhile : Waits
unfolding unregister_server
removed_meanwhile = record {
  connect = λ s. (failed no_error, unregister_server "docs" s);
  reconnect = λ c s. (failed no_error, s);
  refresh_tools = λ c s. (refreshed, s);
  on_reconnect = λ s. (none, s);
  on_reconnect_failure = λ e s. s;
  on_health_restored = λ s. s;
  on_auth_required = λ s. s;
  close = λ s. s;
}

removal : Steps fresh (check_keep_alive_connection removed_meanwhile "docs" docs kept)
unfolding kept unregister_server removed_meanwhile
removal = next fresh kept _ (marks "docs" docs fresh) (
    next kept _ _
      (checks removed_meanwhile "docs" docs kept (λ t. next t _ _ (unregisters "docs" t) (done _))
        (λ _ t. done t) (λ _ t. done t) (λ t. done t) (λ _ t. done t) (λ t. done t) (λ t. done t)
        (λ t. done t))
      (done _))

fresh-IsTracked : IsTracked fresh
unfolding IsTracked get contains
fresh-IsTracked = λ j. record { unknown = λ _. (refl, refl); bounded = tt }

Steps-IsTracked_example : IsTracked (check_keep_alive_connection removed_meanwhile "docs" docs kept)
Steps-IsTracked_example =
    Steps-IsTracked fresh (check_keep_alive_connection removed_meanwhile "docs" docs kept) removal
      fresh-IsTracked

removal_leaves_nothing :
    (check_keep_alive_connection removed_meanwhile "docs" docs kept).retry_states ≡ []
unfolding check_keep_alive_connection kept removed_meanwhile delete
removal_leaves_nothing = refl

fail_at-retry_example :
    get "docs" (fail_at "docs" docs (((2000, none) ∷ []) ++ (9000, some 4) ∷ []) kept).retry_states
    ≡ some (retry_after (get "docs" kept.retry_states) 1 9000 (some 4) kept)
unfolding is_current kept
fail_at-retry_example = fail_at-retry "docs" docs ((2000, none) ∷ []) 9000 (some 4) kept refl

abbrev failed_kept : McpLifecycleManager
unfolding record_retry
failed_kept = (record_retry "docs" docs none kept).1

should_attempt_connection-record_retry_example :
    should_attempt_connection "docs" none failed_kept ≡ (
      if same_connection none none && same_status (status_at none kept) (status_at none failed_kept)
      then (
        leb
            (kept.now + retry_delay (attempts_of (get "docs" kept.retry_states) + 1))
            failed_kept.now,
        failed_kept,
      )
      else (true, forget_retry "docs" failed_kept))
unfolding is_current kept record_retry failed_kept
should_attempt_connection-record_retry_example =
    should_attempt_connection-record_retry "docs" docs kept failed_kept none none refl refl

abbrev outage : List Failure
outage = error (http_error 503) "busy" no_error ∷ error plain_error "gone" no_error ∷ no_error ∷ []

report_all-warnings_example :
    (report_all "docs" docs none outage kept).warnings
    ≡ kept.warnings ++ warnings_due "docs" (is_told "docs" kept) outage
unfolding is_current kept
report_all-warnings_example = report_all-warnings "docs" docs none outage kept refl

retry_delay-schedule_example :
    retry_delay 3 ≡ (if leb 2 3 then retry_base_ms * 2 ^ 2 else retry_max_ms)
retry_delay-schedule_example = retry_delay-schedule 2
