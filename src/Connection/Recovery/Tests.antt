-- ===== src/Connection/Recovery/Tests.antt =====
-- A call whose session the server no longer knows.
use mcp_adapter.Prelude.{
  ℕ, ◌+◌, ◌-◌, ◌≤◌, true, false, none, some, ◌≡◌, refl, if◌then◌else◌, nat_beq,
}
use mcp_adapter.Connection.Failure.{no_error, error, http_error}
use mcp_adapter.Connection.Lifecycle.{connected}
use mcp_adapter.Connection.Recovery.{
  resolved, rejected, returned, SessionRecoveryDeps, with_session_recovery,
}
use mcp_adapter.Connection.Recovery.Counts.{Counts, with_session_recovery-once}
use mcp_adapter.Connection.Recovery.Returns.{IsCallEnd, with_session_recovery-IsCallEnd}

-- The state is the number of calls and the number of reconnects; connection 1 has expired, and a
-- reconnect gives connection 2.
abbrev expired : SessionRecoveryDeps (ℕ × ℕ) ℕ
expired = record {
  definition = λ w. some record { disabled = false; supports_oauth = true; has_provider = false };
  get_connection = λ w. some 1;
  has_session_id = λ c w. true;
  status = λ c w. connected;
  aborted = λ w. false;
  fn = λ c w. (
    if nat_beq c 1
        then rejected (error (http_error 404) "unknown session" no_error)
        else resolved 42,
    (w.0 + 1, w.1),
  );
  invalidate_auth_entry_cache = λ w. w;
  reconnect = λ c w. (resolved 2, (w.0, w.1 + 1));
  on_needs_auth = λ w. (resolved none, w);
  publish_metadata_changed = λ c w. w;
}

expired-Counts : Counts expired (λ w. w.0) (λ w. w.1)
expired-Counts = record {
  called = λ c w. refl;
  called_only = λ c w. refl;
  reconnected = λ c w. refl;
  reconnected_only = λ c w. refl;
  invalidating = λ w. (refl, refl);
  signing_in = λ w. (refl, refl);
  publishing = λ c w. (refl, refl);
}

expired_call : with_session_recovery expired (0, 0) ≡ (returned 42, (2, 1))
unfolding with_session_recovery
expired_call = refl

with_session_recovery-once_example :
    let after = (with_session_recovery expired (0, 0)).1 in
    (after.0 ≤ 0 + 1 + (after.1 - 0)) × (0 ≤ after.1) × (after.1 ≤ 0 + 1)
with_session_recovery-once_example =
    with_session_recovery-once expired (λ w. w.0) (λ w. w.1) expired-Counts (0, 0)

with_session_recovery-IsCallEnd_example : IsCallEnd expired (with_session_recovery expired (0, 0))
with_session_recovery-IsCallEnd_example = with_session_recovery-IsCallEnd expired (0, 0)
