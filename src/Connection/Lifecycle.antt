-- ===== src/Connection/Lifecycle.antt =====
-- lifecycle.ts: the state of `McpLifecycleManager` and the operations that do not wait.
pub mod Check
pub mod Steps
pub mod Backoff
mod Tests
use mcp_adapter.Prelude.{
  ℕ, ◌+◌, ◌*◌, ◌-◌, ◌^◌, min, String, Bool, true, false, not, ◌&&◌, ◌||◌, Option, none, some, List,
  [], ◌∷◌, ◌++◌, if◌then◌else◌, leb, ltb, nat_beq, or_else, Map, get, put, delete, add, remove,
}
use mcp_adapter.Connection.Failure.{Failure, is_transient_http_connect_error}

-- A server's definition: its identity as an object and what the life cycle reads of it.
pub record ServerDefinition : Type 0 where
  pub identity : ℕ
  pub disabled : Bool
  pub has_url : Bool
  pub bearer : Bool

pub data Status : Type 0 where
  connected closed needs_auth : Status

abbrev pub status_beq : Status → Status → Bool
status_beq connected connected = true
status_beq closed closed = true
status_beq needs_auth needs_auth = true
status_beq _ _ = false

-- A connection is named by a number, its identity as an object; its status can change.
pub record RetryState : Type 0 where
  pub attempts : ℕ
  pub next_attempt_at : ℕ
  pub connection : Option ℕ
  pub status : Option Status
  pub warning_reported : Bool

-- The manager's own fields, then what it reads of the rest of the program: the connections of the
-- server manager, the pending authorizations, the abort signal, the clock, and the lines written
-- to the console.
pub record McpLifecycleManager : Type 0 where
  pub keep_alive_servers : Map ServerDefinition
  pub all_servers : Map ServerDefinition
  pub server_settings : Map ℕ
  pub global_idle_timeout : ℕ
  pub retry_states : Map RetryState
  pub pending_metadata_publications : List String
  pub stopped : Bool
  pub connections : Map ℕ
  pub status_of : ℕ → Status
  pub has_session_id : ℕ → Bool
  pub pending_auth : String → Bool
  pub aborted : Bool
  pub now : ℕ
  pub warnings : List (String × Failure)

abbrev pub retry_base_ms : ℕ
retry_base_ms = 30000

abbrev pub retry_max_ms : ℕ
retry_max_ms = 300000

unfoldable pub mark_keep_alive :
    String → ServerDefinition → McpLifecycleManager → McpLifecycleManager
mark_keep_alive name d s =
    if d.disabled then s else record s { keep_alive_servers = put name d s.keep_alive_servers }

-- The last argument is `settings?.idleTimeout`, in minutes.
unfoldable pub register_server :
    String → ServerDefinition → Option ℕ → McpLifecycleManager → McpLifecycleManager
register_server name d none s =
    if d.disabled then s else record s { all_servers = put name d s.all_servers }
register_server name d (some minutes) s = if d.disabled then s else record s {
  all_servers = put name d s.all_servers;
  server_settings = put name minutes s.server_settings;
}

unfoldable pub unregister_server : String → McpLifecycleManager → McpLifecycleManager
unregister_server name s = record s {
  all_servers = delete name s.all_servers;
  keep_alive_servers = delete name s.keep_alive_servers;
  server_settings = delete name s.server_settings;
  retry_states = delete name s.retry_states;
  pending_metadata_publications = remove name s.pending_metadata_publications;
}

unfoldable pub set_global_idle_timeout : ℕ → McpLifecycleManager → McpLifecycleManager
set_global_idle_timeout minutes s = record s { global_idle_timeout = minutes * 60 * 1000 }

unfoldable pub get_idle_timeout : String → McpLifecycleManager → ℕ
unfolding get
get_idle_timeout name s = elim (get name s.server_settings) [
  | none ↦ s.global_idle_timeout
  | some minutes ↦ minutes * 60 * 1000
]

unfoldable pub forget_retry : String → McpLifecycleManager → McpLifecycleManager
forget_retry name s = record s { retry_states = delete name s.retry_states }

unfoldable pub forget_publication : String → McpLifecycleManager → McpLifecycleManager
forget_publication name s = record s {
  pending_metadata_publications = remove name s.pending_metadata_publications;
}

unfoldable pub expect_publication : String → McpLifecycleManager → McpLifecycleManager
expect_publication name s = record s {
  pending_metadata_publications = add name s.pending_metadata_publications;
}

-- `connection?.status`
abbrev pub status_at : Option ℕ → McpLifecycleManager → Option Status
status_at none s = none
status_at (some c) s = some (s.status_of c)

abbrev pub same_connection : Option ℕ → Option ℕ → Bool
same_connection none none = true
same_connection (some a) (some b) = nat_beq a b
same_connection _ _ = false

abbrev pub same_status : Option Status → Option Status → Bool
same_status none none = true
same_status (some a) (some b) = status_beq a b
same_status _ _ = false

-- `this.keepAliveServers.get(name) === definition`
unfoldable pub is_current : String → ServerDefinition → McpLifecycleManager → Bool
unfolding get
is_current name d s = elim (get name s.keep_alive_servers) [
  | none ↦ false
  | some e ↦ nat_beq e.identity d.identity
]

-- Whether an attempt is due, and the state after the question.
unfoldable pub should_attempt_connection :
    String → Option ℕ → McpLifecycleManager → Bool × McpLifecycleManager
unfolding get forget_retry
should_attempt_connection name connection s = elim (get name s.retry_states) [
  | none ↦ (true, s)
  | some retry ↦
      if same_connection retry.connection connection
        && same_status retry.status (status_at connection s)
      then (leb retry.next_attempt_at s.now, s)
      else (true, forget_retry name s)
]

unfoldable pub retry_delay : ℕ → ℕ
retry_delay attempts = min (retry_base_ms * 2 ^ min (attempts - 1) 10) retry_max_ms

abbrev attempts_of : Option RetryState → ℕ
attempts_of none = 0
attempts_of (some retry) = retry.attempts

abbrev reported_of : Option RetryState → Bool
reported_of none = false
reported_of (some retry) = retry.warning_reported

unfoldable pub next_retry : Option RetryState → Option ℕ → McpLifecycleManager → RetryState
unfolding retry_delay
next_retry previous connection s = record {
  attempts = attempts_of previous + 1;
  next_attempt_at = s.now + retry_delay (attempts_of previous + 1);
  connection = connection;
  status = status_at connection s;
  warning_reported = reported_of previous;
}

unfoldable pub record_retry :
    String → ServerDefinition → Option ℕ → McpLifecycleManager → Bool × McpLifecycleManager
unfolding is_current next_retry get put
record_retry name d connection s =
    if is_current name d s
    then (
      true,
      record s {
        retry_states = put name (next_retry (get name s.retry_states) connection s) s.retry_states;
      },
    )
    else (false, s)

warned_with : String → Failure → Option RetryState → McpLifecycleManager → McpLifecycleManager
unfolding put
warned_with name failure none s = record s { warnings = s.warnings ++ (name, failure) ∷ [] }
warned_with name failure (some retry) s = if retry.warning_reported then s else record s {
  retry_states = put name (record retry { warning_reported = true }) s.retry_states;
  warnings = s.warnings ++ (name, failure) ∷ [];
}

-- What follows the failure callback: a line on the console, once in a row of failures.
unfoldable pub warn_once : String → Failure → McpLifecycleManager → McpLifecycleManager
unfolding is_transient_http_connect_error warned_with get
warn_once name failure s =
    if is_transient_http_connect_error failure
    then s
    else warned_with name failure (get name s.retry_states) s

-- `callback` is `onReconnectFailure`, the identity where none is set.
unfoldable pub report_connection_failure :
    (Failure → McpLifecycleManager → McpLifecycleManager)
    → String
    → ServerDefinition
    → Failure
    → Option ℕ
    → McpLifecycleManager
    → McpLifecycleManager
unfolding record_retry warn_once
report_connection_failure callback name d failure connection s =
    let recorded = record_retry name d connection s in
    if recorded.0 then warn_once name failure (callback failure recorded.1) else s

unfoldable pub defer_refresh_timeout :
    String → ServerDefinition → Option ℕ → McpLifecycleManager → McpLifecycleManager
unfolding record_retry
defer_refresh_timeout name d connection s = (record_retry name d connection s).1
