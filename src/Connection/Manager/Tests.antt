-- ===== src/Connection/Manager/Tests.antt =====
-- A call that outlives its connection, and the idleness that follows it.
use mcp_adapter.Prelude.{ℕ, ◌+◌, true, false, [], ◌≡◌, refl, get, put}
use mcp_adapter.Connection.Lifecycle.{connected}
use mcp_adapter.Connection.Manager.{
  ServerConnection, McpServerManager, is_idle, publish_fresh, close_connection, begin_call,
  finish_call,
}
use mcp_adapter.Connection.Manager.Traffic.{
  account, Traffic, starts, begins, replaces, connects, Traffic-account, is_idle-begun,
}

abbrev connection : ℕ → ServerConnection
connection id = record {
  identity = id;
  status = connected;
  last_used_at = 0;
  in_flight = 0;
  active_protocol_operations = 0;
}

abbrev empty : McpServerManager
empty = record { connections = []; close_generations = []; now = 5 }

abbrev ready : McpServerManager
unfolding put
ready = record empty { connections = put "docs" (connection 1) empty.connections }

-- A call is open, and a reconnect replaces its connection.
abbrev moved : McpServerManager
unfolding begin_call publish_fresh ready
moved = publish_fresh "docs" 1 (connection 2) (begin_call "docs" ready)

moved-Traffic : Traffic "docs" moved 1 0
unfolding moved ready get
moved-Traffic =
    replaces (begin_call "docs" ready) 1 0 1 (connection 2)
      (begins ready 0 0 (connection 1) (connects empty 0 0 (connection 1) (starts 5) refl) refl)
      refl

Traffic-account_example : account (get "docs" moved.connections) + 0 ≡ 1
Traffic-account_example = Traffic-account "docs" moved 1 0 moved-Traffic

abbrev rested : McpServerManager
unfolding finish_call moved
rested = record (finish_call "docs" moved) { now = 1000 }

rested_idle : is_idle "docs" 900 rested ≡ true
unfolding is_idle rested moved ready
rested_idle = refl

-- A call is open while the server is closed and connected anew; a second call begins, and the first
-- one ends: the account says that none is open.
abbrev reopened : McpServerManager
unfolding begin_call close_connection put ready
reopened =
    let closed = close_connection "docs" (begin_call "docs" ready) in
    begin_call "docs" (record closed { connections = put "docs" (connection 2) closed.connections })

forgotten_call :
    (account (get "docs" reopened.connections) ≡ 1)
    × (account (get "docs" (finish_call "docs" reopened).connections) ≡ 0)
unfolding finish_call reopened ready
forgotten_call = (refl, refl)

is_idle-begun_example : is_idle "docs" 900 moved ≡ false
is_idle-begun_example = is_idle-begun "docs" moved 0 0 900 moved-Traffic
