-- ===== src/Connection/Manager/Traffic.antt =====
-- The calls that are open on a server, against the account that its connection keeps.
use mcp_adapter.Prelude.{
  ℕ, suc, ◌+◌, ◌-◌, String, false, Option, none, some, [], ◌≡◌, arith, refl, sym, ap, ◌∙◌, inl, inr,
  eq_refl, nat_beq, max, min, get, put, get-put, get-delete, get-nil, Bool-cases, Option-cases,
}
use mcp_adapter.Connection.Manager.{
  ServerConnection, McpServerManager, update, touch, increment_in_flight, decrement_in_flight,
  is_idle, idle_since, publish_over, publish_fresh, close_connection, begin_call, finish_call,
}

-- The account of the connection that is kept under a name.
abbrev pub account : Option ServerConnection → ℕ
account none = 0
account (some c) = c.in_flight

-- What happens to a server, with the number of its calls that are open and how many of them its
-- account has forgotten. Calls begin and end; a reconnect replaces the connection by one with no
-- calls of its own; the server is closed and connected anew at any time, and either makes the
-- account forget all that are open; the clock is set. A call that ends takes one from the account of
-- whatever connection has the server's name, so the forgotten calls are the last to be missed.
pub data Traffic (name : String) : McpServerManager → ℕ → ℕ → Type 0 where
  starts :
      (now : ℕ) → Traffic name (record { connections = []; close_generations = []; now = now }) 0 0
  begins :
      (m : McpServerManager) (open_calls forgotten : ℕ) (c : ServerConnection)
      → Traffic name m open_calls forgotten
      → get name m.connections ≡ some c
      → Traffic name (begin_call name m) (suc open_calls) forgotten
  finishes :
      (m : McpServerManager) (open_calls forgotten : ℕ)
      → Traffic name m (suc open_calls) forgotten
      → Traffic name (finish_call name m) open_calls (min forgotten open_calls)
  replaces :
      (m : McpServerManager) (open_calls forgotten stale : ℕ) (fresh : ServerConnection)
      → Traffic name m open_calls forgotten
      → fresh.in_flight ≡ 0
      → Traffic name (publish_fresh name stale fresh m) open_calls forgotten
  closes :
      (m : McpServerManager) (open_calls forgotten : ℕ)
      → Traffic name m open_calls forgotten
      → Traffic name (close_connection name m) open_calls open_calls
  connects :
      (m : McpServerManager) (open_calls forgotten : ℕ) (fresh : ServerConnection)
      → Traffic name m open_calls forgotten
      → fresh.in_flight ≡ 0
      → Traffic name (record m { connections = put name fresh m.connections }) open_calls open_calls
  elapses :
      (m : McpServerManager) (open_calls forgotten now : ℕ)
      → Traffic name m open_calls forgotten
      → Traffic name (record m { now = now }) open_calls forgotten

get-update :
    (name : String) (change : ServerConnection → ServerConnection) (o : Option ServerConnection)
    (m : McpServerManager)
    → get name m.connections ≡ o
    → get name (update name change o m).connections
      ≡ (elim o as (λ _. Option ServerConnection) [ none ↦ none | some c ↦ some (change c) ])
unfolding update
get-update name change none m e = e
get-update name change (some c) m e =
    rw (get-put name name (change c) m.connections) rw (eq_refl name) refl

account-touch :
    (name : String) (m : McpServerManager)
    → account (get name (touch name m).connections) ≡ account (get name m.connections)
unfolding touch
account-touch name m = elim (Option-cases (get name m.connections)) [
  | inl e ↦ rw e rw e refl
  | inr (c, e) ↦
      rw e rw (get-update name (λ c. record c { last_used_at = m.now }) (some c) m e) refl
]

account-increment :
    (name : String) (m : McpServerManager) (c : ServerConnection)
    → get name m.connections ≡ some c
    → account (get name (increment_in_flight name m).connections) ≡ suc c.in_flight
unfolding increment_in_flight
account-increment name m c e =
    rw e rw (get-update name (λ c. record c { in_flight = c.in_flight + 1 }) (some c) m e) omega
      arith

account-decrement :
    (name : String) (m : McpServerManager)
    → account (get name (decrement_in_flight name m).connections)
      ≡ account (get name m.connections) - 1
unfolding decrement_in_flight
account-decrement name m = elim (Option-cases (get name m.connections)) [
  | inl e ↦ rw e rw e omega arith
  | inr (c, e) ↦
      rw e rw (get-update name (λ c. record c { in_flight = c.in_flight - 1 }) (some c) m e) refl
]

get-touch :
    (name : String) (m : McpServerManager) (c : ServerConnection)
    → get name m.connections ≡ some c
    → get name (touch name m).connections ≡ some (record c { last_used_at = m.now })
unfolding touch
get-touch name m c e = rw e (get-update name (λ c. record c { last_used_at = m.now }) (some c) m e)

account-publish_over :
    (name : String) (stale : ℕ) (fresh : ServerConnection) (o : Option ServerConnection)
    (m : McpServerManager)
    → fresh.in_flight ≡ 0
    → get name m.connections ≡ o
    → account (get name (publish_over name stale fresh o m).connections) ≡ account o
unfolding publish_over
account-publish_over name stale fresh none m none_yet e = ap account e
account-publish_over name stale fresh (some c) m none_yet e =
    elim (Bool-cases (nat_beq c.identity stale)) [
      | inl same ↦
          let taken_over : ServerConnection = record fresh {
            in_flight = max fresh.in_flight c.in_flight;
          } in
          rw same rw (get-put name name taken_over m.connections) rw (eq_refl name) omega
            (arith, none_yet)
      | inr other ↦ rw other (ap account e)
    ]

get-nil-account : (name : String) → account (get name []) ≡ 0
get-nil-account name = rw (get-nil {V = ServerConnection} name) refl

-- However calls, reconnects, closes, new connections and the clock follow each other, the account
-- of the server's connection and the calls it has forgotten are together the calls that are open: it
-- is the number of the open calls where the server was never closed and connected anew while calls
-- were open, and never more than that number.
pub Traffic-account :
    (name : String) (m : McpServerManager) (open_calls forgotten : ℕ)
    → Traffic name m open_calls forgotten
    → account (get name m.connections) + forgotten ≡ open_calls
unfolding begin_call finish_call publish_fresh close_connection
Traffic-account name _ _ _ (starts now) = rw (get-nil-account name) refl
Traffic-account name _ _ _ (begins m k f c t e) =
    let counted : account (get name (begin_call name m).connections) ≡ suc c.in_flight =
      account-increment name (touch name m) (record c { last_used_at = m.now })
        (get-touch name m c e) in
    let before : c.in_flight + f ≡ k =
      ap (λ o. account o + f) (sym e) ∙ Traffic-account name m k f t in
    omega (arith, counted, before)
Traffic-account name _ _ _ (finishes m k f t) =
    let counted = account-touch name (decrement_in_flight name m) ∙ account-decrement name m in
    ground (arith, counted, Traffic-account name m (suc k) f t)
Traffic-account name _ _ _ (replaces m k f stale fresh t none_yet) =
    ap (λ n. n + f) (account-publish_over name stale fresh (get name m.connections) m none_yet refl)
    ∙ Traffic-account name m k f t
Traffic-account name _ _ _ (closes m k f t) =
    rw (get-delete name name m.connections) rw (eq_refl name) omega arith
Traffic-account name _ _ _ (connects m k f fresh t none_yet) =
    rw (get-put name name fresh m.connections) rw (eq_refl name) omega (arith, none_yet)
Traffic-account name _ _ _ (elapses m k f now t) = Traffic-account name m k f t

-- Under the same traffic, a connection with more open calls than the account has forgotten is not
-- idle, whatever the timeout: where no close or new connection fell between the begin and the end of
-- a call, any open call keeps it.
pub is_idle-begun :
    (name : String) (m : McpServerManager) (others forgotten timeout : ℕ)
    → Traffic name m (suc others + forgotten) forgotten
    → is_idle name timeout m ≡ false
unfolding is_idle idle_since
is_idle-begun name m others forgotten timeout t =
    busy-not_idle (get name m.connections)
      (omega (arith, Traffic-account name m (suc others + forgotten) forgotten t))
  where
    busy-not_idle :
        (o : Option ServerConnection) → account o ≡ suc others → idle_since m.now timeout o ≡ false
    busy-not_idle none e = refl
    busy-not_idle (some c) e = ground (arith, e)
