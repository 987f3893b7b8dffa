-- ===== src/Connection/Manager.antt =====
-- server-manager.ts: the account of the calls in flight on each connection, by which an idle
-- connection is told. A connection is kept under its server's name; one that is no longer kept there
-- is read by none of these operations.
pub mod Traffic
mod Tests
use mcp_adapter.Prelude.{
  ℕ, ◌+◌, ◌-◌, max, String, Bool, true, false, not, ◌&&◌, ◌||◌, Option, none, some, if◌then◌else◌,
  nat_beq, ltb, Map, get, put, delete,
}
use mcp_adapter.Connection.Lifecycle.{Status, connected, closed, status_beq}

-- What these operations read and write of a connection; `active_protocol_operations` is 0 where the
-- source has none.
pub record ServerConnection : Type 0 where
  pub identity : ℕ
  pub status : Status
  pub last_used_at : ℕ
  pub in_flight : ℕ
  pub active_protocol_operations : ℕ

pub record McpServerManager : Type 0 where
  pub connections : Map ServerConnection
  pub close_generations : Map ℕ
  pub now : ℕ

-- An update of the connection that is kept under a name, if there is one.
update :
    String
    → (ServerConnection → ServerConnection)
    → Option ServerConnection
    → McpServerManager
    → McpServerManager
unfolding put
update name change none m = m
update name change (some c) m = record m { connections = put name (change c) m.connections }

unfoldable pub touch : String → McpServerManager → McpServerManager
unfolding update get
touch name m = update name (λ c. record c { last_used_at = m.now }) (get name m.connections) m

unfoldable pub increment_in_flight : String → McpServerManager → McpServerManager
unfolding update get
increment_in_flight name m =
    update name (λ c. record c { in_flight = c.in_flight + 1 }) (get name m.connections) m

-- The source leaves a count of 0 as it is, as the subtraction here does.
unfoldable pub decrement_in_flight : String → McpServerManager → McpServerManager
unfolding update get
decrement_in_flight name m =
    update name (λ c. record c { in_flight = c.in_flight - 1 }) (get name m.connections) m

abbrev pub is_busy : ServerConnection → Bool
is_busy c = ltb 0 c.in_flight || ltb 0 c.active_protocol_operations

idle_since : ℕ → ℕ → Option ServerConnection → Bool
idle_since now timeout none = false
idle_since now timeout (some c) =
    status_beq c.status connected && not (is_busy c) && ltb timeout (now - c.last_used_at)

unfoldable pub is_idle : String → ℕ → McpServerManager → Bool
unfolding idle_since get
is_idle name timeout m = idle_since m.now timeout (get name m.connections)

publish_over :
    String → ℕ → ServerConnection → Option ServerConnection → McpServerManager → McpServerManager
unfolding put
publish_over name stale fresh none m = m
publish_over name stale fresh (some c) m =
    if nat_beq c.identity stale
    then record m {
      connections =
          put name (record fresh { in_flight = max fresh.in_flight c.in_flight }) m.connections;
    }
    else m

-- `doReconnect` from the check of the route on: a fresh connection takes over the calls in flight.
-- `stale` is the identity of the connection that it was made to replace.
unfoldable pub publish_fresh : String → ℕ → ServerConnection → McpServerManager → McpServerManager
unfolding publish_over get
publish_fresh name stale fresh m = publish_over name stale fresh (get name m.connections) m

-- The state that `close` leaves before its first wait: a new generation, and no connection.
unfoldable pub close_connection : String → McpServerManager → McpServerManager
unfolding get put delete
close_connection name m = record m {
  close_generations =
      put name (elim (get name m.close_generations) as (λ _. ℕ) [ none ↦ 1 | some g ↦ g + 1 ])
        m.close_generations;
  connections = delete name m.connections;
}

-- A call's own account, before and after what it waits for.
unfoldable pub begin_call : String → McpServerManager → McpServerManager
unfolding touch increment_in_flight
begin_call name m = increment_in_flight name (touch name m)

unfoldable pub finish_call : String → McpServerManager → McpServerManager
unfolding touch decrement_in_flight
finish_call name m = touch name (decrement_in_flight name m)
