-- ===== src/Connection/Lifecycle/Steps.antt =====
-- The life cycle as a system of steps. What happens during a wait of a pass is a row of whole steps, so
-- passes are nested in each other's waits; two passes that overlap without one standing inside a wait
-- of the other are no row of steps here. The clock does not go back.
pub mod Laws
use mcp_adapter.Prelude.{
  ℕ, ◌+◌, ◌≤◌, String, Bool, true, false, not, Option, none, some, List, ◌==◌, ◌≡◌, ◌≢◌, arith,
  if◌then◌else◌, refl, sym, subst, eq_iff, eq_refl, get, put, delete, contains, add, remove,
  is_some, Option-cases, Bool-cases, inl, inr, get-put, get-delete, contains-add, contains-remove,
}
use mcp_adapter.Connection.Failure.{Failure, is_transient_http_connect_error}
use mcp_adapter.Connection.Lifecycle.{
  McpLifecycleManager, ServerDefinition, RetryState, is_current, mark_keep_alive, register_server,
  unregister_server, set_global_idle_timeout, record_retry, next_retry, warn_once, warned_with,
  forget_retry, forget_publication, expect_publication, retry_delay, retry_max_ms,
}
use mcp_adapter.Connection.Lifecycle.Check.{Waits, check_keep_alive_connection}
use mcp_adapter.Connection.Lifecycle.Check.Keeps.{WaitsKeep, WritesKeep, check-keeps, if_keeps}

-- Other code leaves the manager's maps alone, and the clock does not go back.
pub record IsOutside (s t : McpLifecycleManager) : Type 0 where
  pub same_servers : t.keep_alive_servers ≡ s.keep_alive_servers
  pub same_retries : t.retry_states ≡ s.retry_states
  pub same_publications : t.pending_metadata_publications ≡ s.pending_metadata_publications
  pub clock : s.now ≤ t.now

mutual
  pub data Step : McpLifecycleManager → McpLifecycleManager → Type 0 where
    marks :
        (name : String) (d : ServerDefinition) (s : McpLifecycleManager)
        → Step s (mark_keep_alive name d s)
    registers :
        (name : String) (d : ServerDefinition) (minutes : Option ℕ) (s : McpLifecycleManager)
        → Step s (register_server name d minutes s)
    unregisters : (name : String) (s : McpLifecycleManager) → Step s (unregister_server name s)
    sets_timeout :
        (minutes : ℕ) (s : McpLifecycleManager) → Step s (set_global_idle_timeout minutes s)
    outside : (s t : McpLifecycleManager) → IsOutside s t → Step s t
    checks :
        (waits : Waits) (name : String) (d : ServerDefinition) (s : McpLifecycleManager)
        → ((t : McpLifecycleManager) → Steps t (waits.connect t).1)
        → ((c : ℕ) (t : McpLifecycleManager) → Steps t (waits.reconnect c t).1)
        → ((c : ℕ) (t : McpLifecycleManager) → Steps t (waits.refresh_tools c t).1)
        → ((t : McpLifecycleManager) → Steps t (waits.on_reconnect t).1)
        → ((e : Failure) (t : McpLifecycleManager) → Steps t (waits.on_reconnect_failure e t))
        → ((t : McpLifecycleManager) → Steps t (waits.on_health_restored t))
        → ((t : McpLifecycleManager) → Steps t (waits.on_auth_required t))
        → ((t : McpLifecycleManager) → Steps t (waits.close t))
        → Step s (check_keep_alive_connection waits name d s)

  pub data Steps : McpLifecycleManager → McpLifecycleManager → Type 0 where
    done : (s : McpLifecycleManager) → Steps s s
    next : (s t u : McpLifecycleManager) → Step s t → Steps t u → Steps s u

-- A retry that is due within the longest delay.
abbrev pub IsBounded : ℕ → Option RetryState → Type 0
IsBounded now none = Unit
IsBounded now (some retry) = (1 ≤ retry.attempts) × (retry.next_attempt_at ≤ now + retry_max_ms)

-- The server `j` has a retry or an expected publication only while it is kept alive.
pub record IsTrackedAt (j : String) (s : McpLifecycleManager) : Type 0 where
  pub unknown :
      get j s.keep_alive_servers ≡ none
      → (get j s.retry_states ≡ none) × (contains j s.pending_metadata_publications ≡ false)
  pub bounded : IsBounded s.now (get j s.retry_states)

unfoldable pub IsTracked : McpLifecycleManager → Type 0
IsTracked s = (j : String) → IsTrackedAt j s

IsBounded-later : (m n : ℕ) → m ≤ n → (r : Option RetryState) → IsBounded m r → IsBounded n r
IsBounded-later m n le none h = tt
IsBounded-later m n le (some r) h = (h.0, omega (arith, h.1, le))

delay_bound : (n : ℕ) → retry_delay n ≤ retry_max_ms
unfolding retry_delay
delay_bound n = omega arith

IsBounded-next :
    (previous : Option RetryState) (c : Option ℕ) (s : McpLifecycleManager)
    → IsBounded s.now (some (next_retry previous c s))
unfolding next_retry
IsBounded-next none c s = (omega arith, omega (arith, delay_bound 1))
IsBounded-next (some r) c s = (omega arith, omega (arith, delay_bound (r.attempts + 1)))

IsBounded-if :
    (now : ℕ) (b : Bool) (x y : Option RetryState)
    → (b ≡ true → IsBounded now x)
    → IsBounded now y
    → IsBounded now (if b then x else y)
IsBounded-if now true x y h k = h refl
IsBounded-if now false x y h k = k

is_current-known :
    (name : String) (d : ServerDefinition) (s : McpLifecycleManager)
    → is_current name d s ≡ true
    → get name s.keep_alive_servers ≢ none
unfolding is_current
is_current-known name d s now gone = ground (arith, now, gone)

module _ (j name : String) (s : McpLifecycleManager) (h : IsTrackedAt j s) where
  forgetting-tracked : IsTrackedAt j (forget_retry name s)
  unfolding forget_retry
  forgetting-tracked = record {
    unknown = λ k.
        (rw (get-delete j name s.retry_states) ground (arith, (h.unknown k).0), (h.unknown k).1);
    bounded =
        rw (get-delete j name s.retry_states)
          (IsBounded-if s.now (name == j) none (get j s.retry_states) (λ _. tt) h.bounded);
  }

  unpublishing-tracked : IsTrackedAt j (forget_publication name s)
  unfolding forget_publication
  unpublishing-tracked = record {
    unknown = λ k. (
      (h.unknown k).0,
      rw (contains-remove j name s.pending_metadata_publications) ground (arith, (h.unknown k).1),
    );
    bounded = h.bounded;
  }

  -- A write to a registered server's entry is none to an unknown one's.
  other_name :
      (name ≡ j → get name s.keep_alive_servers ≢ none)
      → get j s.keep_alive_servers ≡ none
      → (name == j) ≡ false
  other_name known k = elim (Bool-cases (name == j)) [
    | inl same ↦ let e = (eq_iff name j).0 same in absurd (known e (rw e k))
    | inr e ↦ e
  ]

  expecting-tracked :
      get name s.keep_alive_servers ≢ none → IsTrackedAt j (expect_publication name s)
  unfolding expect_publication
  expecting-tracked known = record {
    unknown = λ k. (
      (h.unknown k).0,
      rw (contains-add j name s.pending_metadata_publications) ground
          (arith, (h.unknown k).1, other_name (λ _. known) k),
    );
    bounded = h.bounded;
  }

  put-tracked :
      (r : RetryState)
      → (name ≡ j → get name s.keep_alive_servers ≢ none)
      → (name ≡ j → IsBounded s.now (some r))
      → IsTrackedAt j (record s { retry_states = put name r s.retry_states })
  put-tracked r known b = record {
    unknown = λ k. (
      rw (get-put j name r s.retry_states) ground (arith, (h.unknown k).0, other_name known k),
      (h.unknown k).1,
    );
    bounded = rw (get-put j name r s.retry_states) (
        IsBounded-if s.now (name == j) (some r) (get j s.retry_states)
          (λ e. b ((eq_iff name j).0 e)) h.bounded);
  }

  warning-tracked :
      (e : Failure) (o : Option RetryState)
      → get name s.retry_states ≡ o
      → IsTrackedAt j (warned_with name e o s)
  unfolding warned_with
  warning-tracked e none eq = record { unknown = h.unknown; bounded = h.bounded }
  warning-tracked e (some r) eq = elim (Bool-cases r.warning_reported) [
    | inl told ↦ rw told h
    | inr first ↦
        let t =
          put-tracked (record r { warning_reported = true })
            (λ same gone. ground (
              arith,
              (h.unknown (subst (λ n. get n s.keep_alive_servers ≡ none) same gone)).0,
              subst (λ n. get n s.retry_states ≡ some r) same eq,
            ))
            (λ same.
              subst (IsBounded s.now) (subst (λ n. get n s.retry_states ≡ some r) same eq)
                h.bounded) in
        rw first record { unknown = t.unknown; bounded = t.bounded }
  ]

writes : (j name : String) (d : ServerDefinition) → WritesKeep (IsTrackedAt j) name d
unfolding record_retry warn_once
writes j name d = record {
  forgetting = forgetting-tracked j name;
  unpublishing = unpublishing-tracked j name;
  expecting = λ s now h. expecting-tracked j name s h (is_current-known name d s now);
  recording = λ c s now h. rw now (
      put-tracked j name s h (next_retry (get name s.retry_states) c s)
        (λ _. is_current-known name d s now) (λ _. IsBounded-next (get name s.retry_states) c s));
  warning = λ e s h.
      if_keeps (IsTrackedAt j) (is_transient_http_connect_error e) (λ _. h)
        (λ _. warning-tracked j name s h e (get name s.retry_states) refl);
}
