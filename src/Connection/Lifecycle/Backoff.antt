-- ===== src/Connection/Lifecycle/Backoff.antt =====
-- Failures in a row: when the next attempt is due, and what is written to the console.
use mathlib.Core.List.{append-nil}
use native.Mathlib.Nat.{pow-suc}
use mcp_adapter.Prelude.{
  ℕ, zero, suc, ◌+◌, ◌*◌, ◌^◌, ◌≤◌, ◌-◌, min, String, Bool, true, false, ◌&&◌, Option, none, some,
  List, [], ◌∷◌, ◌++◌, ◌≡◌, arith, inl, inr, if◌then◌else◌, refl, sym, ap, ◌∙◌, eq_refl, Map, put,
  leb, length, get, get-put, Bool-cases,
}
use mcp_adapter.Connection.Failure.{Failure, is_transient_http_connect_error}
use mcp_adapter.Connection.Lifecycle.{
  McpLifecycleManager, ServerDefinition, RetryState, is_current, record_retry, next_retry,
  retry_delay, status_at, same_connection, same_status, should_attempt_connection, forget_retry,
  report_connection_failure, warn_once, warned_with, attempts_of, reported_of, retry_base_ms,
  retry_max_ms,
}

power_large : (m : ℕ) → 16 ≤ 2 ^ (4 + m)
power_large zero = omega arith
power_large (suc m) =
    let e : 4 + suc m ≡ suc (4 + m) = omega arith in
    rw e omega (arith, pow-suc 2 (4 + m), power_large m)

long_delay : (n : ℕ) → retry_delay (n + 5) ≡ retry_max_ms
unfolding retry_delay
long_delay n =
    let e : min (n + 5 - 1) 10 ≡ 4 + min n 6 = omega arith in
    rw e omega (arith, power_large (min n 6))

-- The delay starts at half a minute, doubles three times, and is five minutes from then on.
pub retry_delay-schedule :
    (n : ℕ) → retry_delay (suc n) ≡ (if leb n 3 then retry_base_ms * 2 ^ n else retry_max_ms)
unfolding retry_delay
retry_delay-schedule zero = refl
retry_delay-schedule (suc zero) = refl
retry_delay-schedule (suc (suc zero)) = refl
retry_delay-schedule (suc (suc (suc zero))) = refl
retry_delay-schedule (suc (suc (suc (suc n)))) = ground (arith, long_delay n)

-- Failures at the given times, each over the connection that there was.
unfoldable pub fail_at :
    String → ServerDefinition → List (ℕ × Option ℕ) → McpLifecycleManager → McpLifecycleManager
unfolding record_retry
fail_at name d [] s = s
fail_at name d ((t, c) ∷ ts) s = fail_at name d ts (record_retry name d c (record s { now = t })).1

-- The state after one failure of a registered server at a time.
failed_once : String → ℕ → Option ℕ → McpLifecycleManager → McpLifecycleManager
unfolding next_retry get put
failed_once name t c s = record s {
  now = t;
  retry_states =
      put name (next_retry (get name s.retry_states) c (record s { now = t })) s.retry_states;
}

fail_at-cons :
    (name : String) (d : ServerDefinition) (t : ℕ) (c : Option ℕ) (ts : List (ℕ × Option ℕ))
    (s : McpLifecycleManager)
    → is_current name d s ≡ true
    → fail_at name d ((t, c) ∷ ts) s ≡ fail_at name d ts (failed_once name t c s)
unfolding fail_at record_retry is_current failed_once
fail_at-cons name d t c ts s now = ap (fail_at name d ts) (rw now refl)

get-put-same {ℓ} : {V : Type ℓ} (k : String) (v : V) (m : Map V) → get k (put k v m) ≡ some v
get-put-same k v m = rw (get-put k k v m) rw (eq_refl k) refl

-- The retry state that a row of failures leaves, after `previous`.
unfoldable pub retry_after : Option RetryState → ℕ → ℕ → Option ℕ → McpLifecycleManager → RetryState
retry_after previous extra t c s = record {
  attempts = attempts_of previous + extra + 1;
  next_attempt_at = t + retry_delay (attempts_of previous + extra + 1);
  connection = c;
  status = status_at c s;
  warning_reported = reported_of previous;
}

status_at-same :
    (c : Option ℕ) (s t : McpLifecycleManager)
    → s.status_of ≡ t.status_of
    → status_at c s ≡ status_at c t
status_at-same none s t e = refl
status_at-same (some c) s t e = rw e refl

-- A row of failures of a registered server adds its length to the attempts so far and puts the next
-- attempt off by the delay for their number, counted from the last failure; it remembers the
-- connection and status of that failure, and whether a warning has been written.
pub fail_at-retry :
    (name : String) (d : ServerDefinition) (ts : List (ℕ × Option ℕ)) (t : ℕ) (c : Option ℕ)
    (s : McpLifecycleManager)
    → is_current name d s ≡ true
    → get name (fail_at name d (ts ++ (t, c) ∷ []) s).retry_states
      ≡ some (retry_after (get name s.retry_states) (length ts) t c s)
unfolding fail_at retry_after is_current next_retry failed_once
fail_at-retry name d [] t c s now =
    let previous = get name s.retry_states in
    let n : attempts_of previous + 1 ≡ attempts_of previous + 0 + 1 = omega arith in
    let st : status_at c (record s { now = t }) ≡ status_at c s = status_at-same c _ s refl in
    rw (fail_at-cons name d t c [] s now) rw (get-put-same name _ s.retry_states) rw n rw st refl
fail_at-retry name d ((t', c') ∷ ts) t c s now =
    let s' = failed_once name t' c' s in
    let previous = get name s.retry_states in
    let n : attempts_of previous + 1 + length ts + 1 ≡ attempts_of previous + suc (length ts) + 1 =
      omega arith in
    let st : status_at c s' ≡ status_at c s = status_at-same c s' s refl in
    rw (fail_at-cons name d t' c' (ts ++ (t, c) ∷ []) s now) rw (fail_at-retry name d ts t c s' now)
      rw (get-put-same name (next_retry previous c' (record s { now = t' })) s.retry_states) rw n rw
      st refl

-- The state after a failure is recorded.
recorded : String → Option ℕ → McpLifecycleManager → McpLifecycleManager
unfolding next_retry get put
recorded name c s = record s {
  retry_states = put name (next_retry (get name s.retry_states) c s) s.retry_states;
}

record_retry-current :
    (name : String) (d : ServerDefinition) (c : Option ℕ) (s : McpLifecycleManager)
    → is_current name d s ≡ true
    → record_retry name d c s ≡ (true, recorded name c s)
unfolding record_retry recorded
record_retry-current name d c s now = rw now refl

get-recorded :
    (name : String) (c : Option ℕ) (s : McpLifecycleManager)
    → get name (recorded name c s).retry_states ≡ some (next_retry (get name s.retry_states) c s)
unfolding recorded
get-recorded name c s = get-put-same name _ s.retry_states

should_attempt_connection-some :
    (name : String) (e : Option ℕ) (s : McpLifecycleManager) (retry : RetryState)
    → get name s.retry_states ≡ some retry
    → should_attempt_connection name e s ≡ (
        if same_connection retry.connection e && same_status retry.status (status_at e s)
        then (leb retry.next_attempt_at s.now, s)
        else (true, forget_retry name s))
unfolding should_attempt_connection
should_attempt_connection-some name e s retry h = rw (h, should_attempt_connection) refl

-- Whatever the retries were, after a failure of a registered server another attempt over the
-- same connection in the same status is made only once the delay is over; with another connection
-- or status it is made at once, and the row of failures is forgotten.
pub should_attempt_connection-record_retry :
    (name : String) (d : ServerDefinition) (s later : McpLifecycleManager) (c e : Option ℕ)
    → is_current name d s ≡ true
    → later.retry_states ≡ (record_retry name d c s).1.retry_states
    → should_attempt_connection name e later ≡ (
        if same_connection c e && same_status (status_at c s) (status_at e later)
        then (
          leb (s.now + retry_delay (attempts_of (get name s.retry_states) + 1)) later.now,
          later,
        )
        else (true, forget_retry name later))
unfolding next_retry
should_attempt_connection-record_retry name d s later c e now same =
    should_attempt_connection-some name e later (next_retry (get name s.retry_states) c s) (
      ap (get name) (same ∙ ap (λ r. r.1.retry_states) (record_retry-current name d c s now))
      ∙ get-recorded name c s)

unfoldable pub report_all :
    String → ServerDefinition → Option ℕ → List Failure → McpLifecycleManager → McpLifecycleManager
unfolding report_connection_failure
report_all name d c [] s = s
report_all name d c (e ∷ es) s =
    report_all name d c es (report_connection_failure (λ _ t. t) name d e c s)

-- Of the failures that follow, the first that is not transient is written, unless one was before.
abbrev pub warnings_due : String → Bool → List Failure → List (String × Failure)
warnings_due name true es = []
warnings_due name false [] = []
warnings_due name false (e ∷ es) =
    let rest = warnings_due name false es in
    if is_transient_http_connect_error e then rest else (name, e) ∷ []

-- A warning was written in the current row of failures.
unfoldable pub is_told : String → McpLifecycleManager → Bool
unfolding get
is_told name s = reported_of (get name s.retry_states)

module _ (name : String) (d : ServerDefinition) (c : Option ℕ) where
  warned : Failure → McpLifecycleManager → McpLifecycleManager
  unfolding recorded next_retry put get is_told
  warned e s =
      let retry = next_retry (get name s.retry_states) c s in
      record (recorded name c s) {
        retry_states =
            put name (record retry { warning_reported = true }) (recorded name c s).retry_states;
        warnings = s.warnings ++ (name, e) ∷ [];
      }

  report_one :
      (e : Failure) (s : McpLifecycleManager)
      → is_current name d s ≡ true
      → report_connection_failure (λ _ t. t) name d e c s ≡ (
          if is_transient_http_connect_error e
          then recorded name c s
          else if is_told name s
          then recorded name c s
          else warned e s)
  unfolding report_connection_failure warn_once warned_with is_told warned
  report_one e s now = rw (record_retry-current name d c s now) rw (get-recorded name c s) refl

  is_told-recorded : (s : McpLifecycleManager) → is_told name (recorded name c s) ≡ is_told name s
  unfolding is_told next_retry
  is_told-recorded s = rw (get-recorded name c s) refl

  is_told-warned : (e : Failure) (s : McpLifecycleManager) → is_told name (warned e s) ≡ true
  unfolding is_told warned
  is_told-warned e s = rw (get-put-same name _ (recorded name c s).retry_states) refl

  report_all-told :
      (es : List Failure) (s : McpLifecycleManager)
      → is_current name d s ≡ true
      → is_told name s ≡ true
      → (report_all name d c es s).warnings ≡ s.warnings
  unfolding report_all is_current recorded
  report_all-told [] s now old = refl
  report_all-told (e ∷ es) s now old =
      let same : report_connection_failure (λ _ t. t) name d e c s ≡ recorded name c s =
        report_one e s now ∙ ground (arith, old) in
      ap (λ t. (report_all name d c es t).warnings) same
      ∙ report_all-told es (recorded name c s) now (is_told-recorded s ∙ old)

  -- While a server stays registered, a row of failures writes one line: the first failure that is
  -- not transient, if none was written since the last success.
  pub report_all-warnings :
      (es : List Failure) (s : McpLifecycleManager)
      → is_current name d s ≡ true
      → (report_all name d c es s).warnings ≡ s.warnings ++ warnings_due name (is_told name s) es
  unfolding report_all is_current recorded warned
  report_all-warnings es s now = elim (Bool-cases (is_told name s)) [
    | inl old ↦ rw old (report_all-told es s now old ∙ sym (append-nil s.warnings))
    | inr fresh ↦ rw fresh (go es s now fresh)
  ]
    where
      go :
          (es : List Failure) (s : McpLifecycleManager)
          → is_current name d s ≡ true
          → is_told name s ≡ false
          → (report_all name d c es s).warnings ≡ s.warnings ++ warnings_due name false es
      go [] s now fresh = sym (append-nil s.warnings)
      go (e ∷ es) s now fresh = elim (Bool-cases (is_transient_http_connect_error e)) [
        | inl quiet ↦
            let same : report_connection_failure (λ _ t. t) name d e c s ≡ recorded name c s =
              report_one e s now ∙ ground (arith, quiet) in
            rw quiet (
              ap (λ t. (report_all name d c es t).warnings) same
              ∙ go es (recorded name c s) now (is_told-recorded s ∙ fresh))
        | inr loud ↦
            let same : report_connection_failure (λ _ t. t) name d e c s ≡ warned e s =
              report_one e s now ∙ ground (arith, loud, fresh) in
            rw loud (
              ap (λ t. (report_all name d c es t).warnings) same
              ∙ report_all-told es (warned e s) now (is_told-warned e s))
      ]
