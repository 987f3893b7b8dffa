-- ===== src/Connection/Lifecycle/Check.antt =====
-- lifecycle.ts: `checkKeepAliveConnection`, one pass over one server, and what it calls. Each wait
-- is an argument that gives what was waited for and the state that is found afterwards, so
-- everything that other code does meanwhile (another pass, an unregistration, a stop) is in it.
pub mod Keeps
use mcp_adapter.Prelude.{
  ℕ, String, Bool, true, false, not, ◌&&◌, ◌||◌, Option, none, some, ◌==◌, if◌then◌else◌, get,
  contains, is_some,
}
use mcp_adapter.Connection.Failure.{
  Failure, error, no_error, plain_error, is_terminated_session, should_reconnect_after_refresh,
}
use mcp_adapter.Connection.Lifecycle.{
  McpLifecycleManager, ServerDefinition, Status, connected, closed, needs_auth, status_beq,
  same_connection, is_current, should_attempt_connection, report_connection_failure,
  defer_refresh_timeout, forget_retry, forget_publication, expect_publication,
}

pub data Attempt : Type 0 where
  obtained : (connection : ℕ) → Attempt
  failed : Failure → Attempt

pub data Refresh : Type 0 where
  refreshed superseded refresh_timeout : Refresh
  refresh_failed : Failure → Refresh

-- The waits of a pass. A callback that is not set changes nothing. After the health and the
-- closing callbacks a pass does nothing more, so what they throw is seen in no state.
pub record Waits : Type 0 where
  pub connect : McpLifecycleManager → Attempt × McpLifecycleManager
  pub reconnect : ℕ → McpLifecycleManager → Attempt × McpLifecycleManager
  pub refresh_tools : ℕ → McpLifecycleManager → Refresh × McpLifecycleManager
  pub on_reconnect : McpLifecycleManager → Option Failure × McpLifecycleManager
  pub on_reconnect_failure : Failure → McpLifecycleManager → McpLifecycleManager
  pub on_health_restored : McpLifecycleManager → McpLifecycleManager
  pub on_auth_required : McpLifecycleManager → McpLifecycleManager
  pub close : McpLifecycleManager → McpLifecycleManager

module _ (waits : Waits) (name : String) (d : ServerDefinition) where
  abbrev report : Failure → Option ℕ → McpLifecycleManager → McpLifecycleManager
  unfolding report_connection_failure
  report = report_connection_failure waits.on_reconnect_failure name d

  -- A stale pass closes its own connection while that is still the current one.
  unfoldable pub close_own : ℕ → McpLifecycleManager → McpLifecycleManager
  unfolding get
  close_own connection s =
      if same_connection (get name s.connections) (some connection) then waits.close s else s

  after_publication : ℕ → Option Failure × McpLifecycleManager → McpLifecycleManager
  unfolding report forget_retry forget_publication
  after_publication connection (none, s) = forget_retry name (forget_publication name s)
  after_publication connection (some failure, s) =
      if s.stopped then s else report failure (some connection) s

  unfoldable pub publish_connected_metadata : ℕ → McpLifecycleManager → McpLifecycleManager
  unfolding is_current close_own after_publication expect_publication
  publish_connected_metadata connection s =
      if is_current name d s
      then after_publication connection (waits.on_reconnect (expect_publication name s))
      else close_own connection s

  unfoldable pub notify_auth_required : ℕ → McpLifecycleManager → McpLifecycleManager
  unfolding is_current close_own forget_retry forget_publication
  notify_auth_required connection s =
      if is_current name d s
      then waits.on_auth_required (forget_retry name (forget_publication name s))
      else close_own connection s

  abbrev no_session : Failure
  no_session = error plain_error "MCP server did not return a connected session" no_error

  -- The code after `connect` and, but for a debug line the same, after `reconnect`.
  unfoldable pub settle : Attempt × McpLifecycleManager → McpLifecycleManager
  unfolding publish_connected_metadata notify_auth_required get
  settle (failed failure, s) =
      if s.stopped || s.aborted then s else report failure (get name s.connections) s
  settle (obtained connection, s) =
      if s.stopped || s.aborted then s else elim (s.status_of connection) [
        | needs_auth ↦ notify_auth_required connection s
        | connected ↦ publish_connected_metadata connection s
        | closed ↦ report no_session (some connection) s
      ]

  -- `if (this.retryStates.delete(name)) await this.onHealthRestored?.(name)`
  unfoldable pub restore_health : McpLifecycleManager → McpLifecycleManager
  unfolding get forget_retry
  restore_health s =
      if is_some (get name s.retry_states)
      then waits.on_health_restored (forget_retry name s)
      else s

  run_again :
      Option (McpLifecycleManager → McpLifecycleManager) → McpLifecycleManager → McpLifecycleManager
  run_again none s = s
  run_again (some second) s = second s

  -- `again` is the second pass, where one is left.
  unfoldable pub handle_superseded_connection :
      Option (McpLifecycleManager → McpLifecycleManager)
      → ℕ
      → McpLifecycleManager
      → McpLifecycleManager
  unfolding run_again is_current restore_health publish_connected_metadata notify_auth_required get
  handle_superseded_connection again stale s =
      if not (is_current name d s)
      then s
      else let retried = run_again again s in
        elim (get name s.connections) [
          | none ↦ retried
          | some current ↦
              if same_connection (some current) (some stale)
                && status_beq (s.status_of current) connected
              then restore_health s
              else elim (s.status_of current) [
                | connected ↦ publish_connected_metadata current s
                | needs_auth ↦ notify_auth_required current s
                | closed ↦ retried
              ]
        ]

  -- The code behind a refresh that threw.
  unfoldable pub recover_refresh :
      Option (McpLifecycleManager → McpLifecycleManager)
      → ℕ
      → Bool
      → Failure
      → McpLifecycleManager
      → McpLifecycleManager
  unfolding handle_superseded_connection should_reconnect_after_refresh settle get
  recover_refresh again connection had_session_id failure s =
      if s.stopped || s.aborted
      then s
      else if same_connection (get name s.connections) (some connection)
          && status_beq (s.status_of connection) connected
      then (if should_reconnect_after_refresh failure had_session_id d.bearer
          then (if s.pending_auth name then s else settle (waits.reconnect connection s))
          else report failure (some connection) s)
      else handle_superseded_connection again connection s

  after_refresh :
      Option (McpLifecycleManager → McpLifecycleManager)
      → ℕ
      → Bool
      → Refresh × McpLifecycleManager
      → McpLifecycleManager
  unfolding recover_refresh handle_superseded_connection defer_refresh_timeout restore_health
      is_current
  after_refresh again connection had_session_id (refresh_failed failure, s) =
      recover_refresh again connection had_session_id failure s
  after_refresh again connection had_session_id (superseded, s) =
      handle_superseded_connection again connection s
  after_refresh again connection had_session_id (refresh_timeout, s) =
      defer_refresh_timeout name d (some connection) s
  after_refresh again connection had_session_id (refreshed, s) =
      if is_current name d s then restore_health s else s

  -- The code for a connection that the server manager has and reports as connected.
  check_connected :
      Option (McpLifecycleManager → McpLifecycleManager)
      → ℕ
      → McpLifecycleManager
      → McpLifecycleManager
  unfolding publish_connected_metadata after_refresh contains
  check_connected again connection s =
      if contains name s.pending_metadata_publications
      then publish_connected_metadata connection s
      else if d.has_url
      then after_refresh again connection (s.has_session_id connection)
          (waits.refresh_tools connection s)
      else s

  check_missing : McpLifecycleManager → McpLifecycleManager
  unfolding settle
  check_missing s = if s.pending_auth name then s else settle (waits.connect s)

  -- The code from `shouldAttemptConnection` on.
  attempt :
      Option (McpLifecycleManager → McpLifecycleManager)
      → Option ℕ
      → Bool × McpLifecycleManager
      → McpLifecycleManager
  unfolding check_connected check_missing
  attempt again connection (false, s) = s
  attempt again none (true, s) = check_missing s
  attempt again (some c) (true, s) =
      if status_beq (s.status_of c) connected then check_connected again c s else check_missing s

  abbrev awaits_auth : Option ℕ → McpLifecycleManager → Bool
  awaits_auth none s = false
  awaits_auth (some c) s = status_beq (s.status_of c) needs_auth

  pass :
      Option (McpLifecycleManager → McpLifecycleManager) → McpLifecycleManager → McpLifecycleManager
  unfolding attempt should_attempt_connection is_current forget_publication get
  pass again s =
      if (d.disabled || s.stopped || s.aborted) || not (is_current name d s)
      then s
      else let connection = get name s.connections in
        if awaits_auth connection s
        then forget_publication name s
        else attempt again connection (should_attempt_connection name connection s)

  -- A pass that was superseded is followed by one more, and that one by none.
  unfoldable pub check_keep_alive_connection : McpLifecycleManager → McpLifecycleManager
  unfolding pass
  check_keep_alive_connection s = pass (some (pass none)) s
