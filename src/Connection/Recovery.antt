-- ===== src/Connection/Recovery.antt =====
-- session-recovery.ts: `withSessionRecovery`, one reconnect and one retry after a session that the
-- server no longer knows.
pub mod Counts
pub mod Returns
mod Tests
use mcp_adapter.Prelude.{
  ℕ, String, Bool, true, false, not, ◌&&◌, ◌||◌, Option, none, some, if◌then◌else◌, nat_beq,
}
use mcp_adapter.Connection.Failure.{
  Failure, no_error, error, http_error, unauthorized_error, ErrorClass, is_terminated_session,
}
use mcp_adapter.Connection.Lifecycle.{Status, connected, closed, needs_auth}

-- What the recovery reads of a server's definition. `supports_oauth` is `supportsOAuth(definition)`
-- and `has_provider` is `typeof definition.auth === "object"`.
pub record RecoveryDefinition : Type 0 where
  pub disabled : Bool
  pub supports_oauth : Bool
  pub has_provider : Bool

-- What is awaited resolves or rejects.
pub data Awaited {ℓ} (A : Type ℓ) : Type ℓ where
  resolved : A → Awaited A
  rejected : Failure → Awaited A

-- What `withSessionRecovery` throws, if it does.
pub data Recovered {ℓ} (A : Type ℓ) : Type ℓ where
  returned : A → Recovered A
  failed : Failure → Recovered A
  server_disabled server_not_connected request_aborted auth_required : Recovered A

-- The dependencies for one server, over the states `W` of the rest of the program: its live
-- definition, the server manager, the signal, the credentials and the call itself.
pub record SessionRecoveryDeps {ℓ κ} (W : Type ℓ) (A : Type κ) : Type (ℓ ⊔ κ) where
  pub definition : W → Option RecoveryDefinition
  pub get_connection : W → Option ℕ
  pub has_session_id : ℕ → W → Bool
  pub status : ℕ → W → Status
  pub aborted : W → Bool
  pub fn : ℕ → W → Awaited A × W
  pub invalidate_auth_entry_cache : W → W
  pub reconnect : ℕ → W → Awaited ℕ × W
  pub on_needs_auth : W → Awaited (Option ℕ) × W
  pub publish_metadata_changed : ℕ → W → W

abbrev is_disabled : Option RecoveryDefinition → Bool
is_disabled none = false
is_disabled (some d) = d.disabled

abbrev pub is_unauthorized : Failure → Bool
is_unauthorized no_error = false
is_unauthorized (error unauthorized_error message cause) = true
is_unauthorized (error (http_error status) message cause) = nat_beq status 401
is_unauthorized (error class message cause) = false

-- Whether a failure is one to reconnect after.
unfoldable pub is_recoverable : Failure → Bool → RecoveryDefinition → Bool
unfolding is_terminated_session
is_recoverable failure had d =
    is_terminated_session failure had || (is_unauthorized failure && d.has_provider)

module _ {ℓ κ} {W : Type ℓ} {A : Type κ} (deps : SessionRecoveryDeps W A) where
  as_outcome : Awaited A × W → Recovered A × W
  as_outcome (resolved a, w) = (returned a, w)
  as_outcome (rejected failure, w) = (failed failure, w)

  -- The code behind the last check of the status.
  retry : ℕ → W → Recovered A × W
  unfolding as_outcome
  retry fresh w =
      let w' = deps.publish_metadata_changed fresh w in
      if deps.aborted w' then (request_aborted, w') else as_outcome (deps.fn fresh w')

  -- The check of the status of the connection to retry over; `first` is the first call's failure.
  unfoldable pub settle_fresh : Failure → ℕ → W → Recovered A × W
  unfolding retry
  settle_fresh first fresh w = elim (deps.status fresh w) [
    | needs_auth ↦ (auth_required, w)
    | closed ↦ (failed first, w)
    | connected ↦ retry fresh w
  ]

  after_sign_in : Failure → ℕ → Awaited (Option ℕ) × W → Recovered A × W
  unfolding settle_fresh
  after_sign_in first fresh (rejected failure, w) = (failed failure, w)
  after_sign_in first fresh (resolved none, w) =
      if deps.aborted w then (request_aborted, w) else settle_fresh first fresh w
  after_sign_in first fresh (resolved (some signed_in), w) =
      if deps.aborted w then (request_aborted, w) else settle_fresh first signed_in w

  after_reconnect : Failure → Awaited ℕ × W → Recovered A × W
  unfolding after_sign_in settle_fresh
  after_reconnect first (rejected failure, w) = (failed failure, w)
  after_reconnect first (resolved fresh, w) =
      if deps.aborted w then (request_aborted, w) else elim (deps.status fresh w) [
        | needs_auth ↦ after_sign_in first fresh (deps.on_needs_auth w)
        | connected ↦ settle_fresh first fresh w
        | closed ↦ settle_fresh first fresh w
      ]

  -- The code behind the check of the credentials.
  renew : ℕ → Bool → Failure → RecoveryDefinition → W → Recovered A × W
  unfolding after_reconnect is_recoverable
  renew connection had first d w =
      if is_recoverable first had d
      then (if deps.aborted w
          then (request_aborted, w)
          else after_reconnect first (deps.reconnect connection w))
      else (failed first, w)

  invalidated : Bool → W → W
  invalidated b w = if b then deps.invalidate_auth_entry_cache w else w

  -- The code behind the first failure.
  recover : ℕ → Bool → Failure → Option RecoveryDefinition → W → Recovered A × W
  unfolding renew invalidated
  recover connection had first none w = (failed first, w)
  recover connection had first (some d) w =
      renew connection had first d (invalidated (d.supports_oauth && is_unauthorized first) w)

  after_first : ℕ → Bool → Awaited A × W → Recovered A × W
  unfolding recover
  after_first connection had (resolved a, w) = (returned a, w)
  after_first connection had (rejected failure, w) =
      recover connection had failure (deps.definition w) w

  unfoldable pub with_session_recovery : W → Recovered A × W
  unfolding after_first
  with_session_recovery w =
      if is_disabled (deps.definition w)
      then (server_disabled, w)
      else elim (deps.get_connection w) [
        | none ↦ (server_not_connected, w)
        | some connection ↦
            after_first connection (deps.has_session_id connection w) (deps.fn connection w)
      ]
