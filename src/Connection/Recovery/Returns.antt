-- ===== src/Connection/Recovery/Returns.antt =====
-- What a value is that the recovery returns.
use mcp_adapter.Prelude.{ℕ, Bool, true, false, ◌&&◌, Option, none, some, ◌≡◌, refl, if◌then◌else◌}
use mcp_adapter.Connection.Failure.{Failure}
use mcp_adapter.Connection.Lifecycle.{connected, closed, needs_auth}
use mcp_adapter.Connection.Recovery.{
  RecoveryDefinition, Awaited, resolved, rejected, Recovered, returned, failed, server_disabled,
  server_not_connected, request_aborted, auth_required, SessionRecoveryDeps, is_disabled,
  is_unauthorized, is_recoverable, as_outcome, retry, settle_fresh, after_sign_in, after_reconnect,
  renew, invalidated, recover, after_first, with_session_recovery,
}

module _ {ℓ κ} {W : Type ℓ} {A : Type κ} (deps : SessionRecoveryDeps W A) where
  -- If a value is returned, it is the last call's, and nothing was done after that call.
  unfoldable pub IsCallEnd : Recovered A × W → Type (ℓ ⊔ κ)
  IsCallEnd (returned a, w) = (c : ℕ) × (v : W) × (deps.fn c v ≡ (resolved a, w))
  IsCallEnd (failed e, w) = Unit
  IsCallEnd (server_disabled, w) = Unit
  IsCallEnd (server_not_connected, w) = Unit
  IsCallEnd (request_aborted, w) = Unit
  IsCallEnd (auth_required, w) = Unit

  IsCallEnd-if :
      (b : Bool) (x y : Recovered A × W)
      → IsCallEnd x
      → IsCallEnd y
      → IsCallEnd (if b then x else y)
  IsCallEnd-if true x y h k = h
  IsCallEnd-if false x y h k = k

  end-as_outcome :
      (c : ℕ) (v : W) (r : Awaited A × W) → deps.fn c v ≡ r → IsCallEnd (as_outcome deps r)
  unfolding as_outcome IsCallEnd
  end-as_outcome c v (resolved a, w) h = (c, v, h)
  end-as_outcome c v (rejected e, w) h = tt

  end-retry : (c : ℕ) (w : W) → IsCallEnd (retry deps c w)
  unfolding retry IsCallEnd
  end-retry c w =
      let w' = deps.publish_metadata_changed c w in
      IsCallEnd-if (deps.aborted w') (request_aborted, w') _ tt
        (end-as_outcome c w' (deps.fn c w') refl)

  end-settle : (e : Failure) (c : ℕ) (w : W) → IsCallEnd (settle_fresh deps e c w)
  unfolding settle_fresh IsCallEnd
  end-settle e c w =
      elim (deps.status c w)
        as (λ st. IsCallEnd (elim st [
          | needs_auth ↦ (auth_required, w)
          | closed ↦ (failed e, w)
          | connected ↦ retry deps c w
        ])) [ needs_auth ↦ tt | closed ↦ tt | connected ↦ end-retry c w ]

  end-sign_in :
      (e : Failure) (c : ℕ) (r : Awaited (Option ℕ) × W) → IsCallEnd (after_sign_in deps e c r)
  unfolding after_sign_in IsCallEnd
  end-sign_in e c (rejected f, v) = tt
  end-sign_in e c (resolved none, v) =
      IsCallEnd-if (deps.aborted v) (request_aborted, v) _ tt (end-settle e c v)
  end-sign_in e c (resolved (some d), v) =
      IsCallEnd-if (deps.aborted v) (request_aborted, v) _ tt (end-settle e d v)

  end-reconnect : (e : Failure) (r : Awaited ℕ × W) → IsCallEnd (after_reconnect deps e r)
  unfolding after_reconnect IsCallEnd
  end-reconnect e (rejected f, v) = tt
  end-reconnect e (resolved c, v) =
      IsCallEnd-if (deps.aborted v) (request_aborted, v) _ tt
        (elim (deps.status c v)
          as (λ st. IsCallEnd (elim st [
            | needs_auth ↦ after_sign_in deps e c (deps.on_needs_auth v)
            | connected ↦ settle_fresh deps e c v
            | closed ↦ settle_fresh deps e c v
          ])) [
            | needs_auth ↦ end-sign_in e c (deps.on_needs_auth v)
            | connected ↦ end-settle e c v
            | closed ↦ end-settle e c v
          ])

  end-renew :
      (c : ℕ) (had : Bool) (e : Failure) (d : RecoveryDefinition) (w : W)
      → IsCallEnd (renew deps c had e d w)
  unfolding renew IsCallEnd
  end-renew c had e d w =
      IsCallEnd-if (is_recoverable e had d) _ (failed e, w)
        (IsCallEnd-if (deps.aborted w) (request_aborted, w) _ tt
          (end-reconnect e (deps.reconnect c w)))
        tt

  end-first :
      (c : ℕ) (had : Bool) (w : W) (r : Awaited A × W)
      → deps.fn c w ≡ r
      → IsCallEnd (after_first deps c had r)
  unfolding after_first recover IsCallEnd
  end-first c had w (resolved a, v) h = (c, w, h)
  end-first c had w (rejected e, v) h =
      elim (deps.definition v) as (λ o. IsCallEnd (recover deps c had e o v)) [
        | none ↦ tt
        | some d ↦ end-renew c had e d (invalidated deps (d.supports_oauth && is_unauthorized e) v)
      ]

  -- A value that the recovery returns is the value of its last call, and nothing is done after it.
  pub with_session_recovery-IsCallEnd : (w : W) → IsCallEnd (with_session_recovery deps w)
  unfolding with_session_recovery IsCallEnd
  with_session_recovery-IsCallEnd w =
      IsCallEnd-if (is_disabled (deps.definition w)) (server_disabled, w) _ tt
        (elim (deps.get_connection w)
          as (λ o. IsCallEnd (elim o [
            | none ↦ (server_not_connected, w)
            | some c ↦ after_first deps c (deps.has_session_id c w) (deps.fn c w)
          ])) [ none ↦ tt | some c ↦ end-first c (deps.has_session_id c w) w (deps.fn c w) refl ])
