-- ===== src/Approval/Session/Laws.antt =====
-- What is persisted is read back, and a replayed log rebuilds the session's memory.
use mcp_adapter.Prelude.{
  ℕ, String, Bool, true, false, Option, none, some, List, [], ◌∷◌, ◌++◌, ◌≡◌, ◌≢◌, ◌∙◌, refl, sym,
  ap, arith, eq_iff, add, All,
}
use mcp_adapter.Json.{Value}
use mcp_adapter.Approval.Entry.{
  ToolApproval, SessionApprovalEntry, tool, iframe, read_entry, write_entry, sha256_text,
}
use mcp_adapter.Approval.Consent.{
  always, init, register_decision, restore_decision, clear, is_always,
}
use mcp_adapter.Approval.Session.{
  ApprovalState, entry_key, persist, remember, restore_entry, restore_entries,
  restore_session_approval_state,
}

-- What the check on a persisted entry asks of it.
abbrev pub IsWellFormed : SessionApprovalEntry → Type 0
IsWellFormed (tool t) =
    (t.server_name ≢ "")
    × (t.original_tool_name ≢ "")
    × (sha256_text t.definition_hash ≡ true)
    × (sha256_text t.args_hash ≡ true)
IsWellFormed (iframe allowed server) = server ≢ ""

-- Reading back a written entry gives the entry, if its names are not empty and its hashes have the
-- form of SHA-256.
pub read_entry-write_entry :
    (e : SessionApprovalEntry) → IsWellFormed e → read_entry (write_entry e) ≡ some e
unfolding read_entry write_entry
read_entry-write_entry (tool t) (s, n, d, a) =
    ground (arith, eq_iff t.server_name "", eq_iff t.original_tool_name "")
read_entry-write_entry (iframe true server) h = ground (arith, eq_iff server "")
read_entry-write_entry (iframe false server) h = ground (arith, eq_iff server "")

-- A decision as it is made: a tool remembered for the session, or an iframe consent registered
-- through the same sink.
pub data Decided : Type 0 where
  remembers : ToolApproval → Decided
  registers : String → Bool → Decided

abbrev pub decided_entry : Decided → SessionApprovalEntry
decided_entry (remembers t) = tool t
decided_entry (registers server allowed) = iframe allowed server

unfoldable pub decide : ApprovalState → Decided → ApprovalState
decide s (remembers t) = remember s t
decide s (registers server allowed) =
    let (consent, s') =
      register_decision (some (λ e w. persist w e)) s.consent_manager server allowed s in
    record s' { consent_manager = consent }

unfoldable pub decide_all : ApprovalState → List Decided → ApprovalState
decide_all s [] = s
decide_all s (d ∷ ds) = decide_all (decide s d) ds

-- The memory that a replay rebuilds.
abbrev SameMemory : ApprovalState → ApprovalState → Type 0
SameMemory s t =
    (s.approved_tool_calls ≡ t.approved_tool_calls) × (s.consent_manager ≡ t.consent_manager)

restore_entries-append :
    (s : ApprovalState) (xs : List Value) (v : Value)
    → restore_entries s (xs ++ v ∷ []) ≡ restore_entry (restore_entries s xs) (read_entry v)
unfolding restore_entries
restore_entries-append s [] v = refl
restore_entries-append s (x ∷ xs) v = restore_entries-append (restore_entry s (read_entry x)) xs v

module _ (base : ApprovalState) where
  -- The log so far replays to the live memory.
  record Replays (s : ApprovalState) : Type 0 where
    sink : s.has_sink ≡ true
    mode : is_always s.consent_manager.mode ≡ false
    kept : s.consent_manager.mode ≡ base.consent_manager.mode
    memory : SameMemory (restore_entries base s.log) s

  replayed-persist :
      (s : ApprovalState) (e : SessionApprovalEntry)
      → s.has_sink ≡ true
      → IsWellFormed e
      → restore_entries base (persist s e).log ≡ restore_entry (restore_entries base s.log) (some e)
  unfolding persist
  replayed-persist s e sink w =
      rw (sink, restore_entries-append base s.log (write_entry e), read_entry-write_entry e w) refl

  decide-Replays :
      (s : ApprovalState) (d : Decided)
      → IsWellFormed (decided_entry d)
      → Replays s
      → Replays (decide s d)
  unfolding decide remember persist restore_entry register_decision restore_decision
  decide-Replays s (remembers t) w r = ground (
    arith,
    replayed-persist (record s { approved_tool_calls = add (entry_key t) s.approved_tool_calls })
        (tool t) r.sink w,
  )
  decide-Replays s (registers server allowed) w r =
      ground (arith, replayed-persist s (iframe allowed server) r.sink w)

  decide_all-Replays :
      (s : ApprovalState) (ds : List Decided)
      → All (λ d. IsWellFormed (decided_entry d)) ds
      → Replays s
      → Replays (decide_all s ds)
  unfolding decide_all
  decide_all-Replays s [] w r = r
  decide_all-Replays s (d ∷ ds) w r =
      decide_all-Replays (decide s d) ds w.1 (decide-Replays s d w.0 r)

restore_entry-SameMemory :
    (a b : ApprovalState) (e : Option SessionApprovalEntry)
    → SameMemory a b
    → SameMemory (restore_entry a e) (restore_entry b e)
unfolding restore_entry
restore_entry-SameMemory a b none h = h
restore_entry-SameMemory a b (some (tool t)) h = (rw (h.0) refl, h.1)
restore_entry-SameMemory a b (some (iframe allowed server)) h = (h.0, rw (h.1) refl)

restore_entries-SameMemory :
    (a b : ApprovalState) (vs : List Value)
    → SameMemory a b
    → SameMemory (restore_entries a vs) (restore_entries b vs)
unfolding restore_entries
restore_entries-SameMemory a b [] h = h
restore_entries-SameMemory a b (v ∷ vs) h =
    restore_entries-SameMemory (restore_entry a (read_entry v)) (restore_entry b (read_entry v)) vs
      (restore_entry-SameMemory a b (read_entry v) h)

-- Replaying a session's log on a new branch rebuilds its memory: the same approved calls and the
-- same iframe consents, for a session that began with neither, writes every decision to its sink,
-- and does not ask each time.
pub restore-decide_all :
    (fresh : ℕ) (s : ApprovalState) (ds : List Decided)
    → s.has_sink ≡ true
    → s.log ≡ []
    → s.approved_tool_calls ≡ []
    → s.consent_manager ≡ init s.consent_manager.mode
    → s.consent_manager.mode ≢ always
    → All (λ d. IsWellFormed (decided_entry d)) ds
    → let t = decide_all s ds in
      let r = restore_session_approval_state fresh t t.log in
      (r.approved_tool_calls ≡ t.approved_tool_calls) × (r.consent_manager ≡ t.consent_manager)
unfolding restore_session_approval_state clear
restore-decide_all fresh s ds sink log calls consent mode w = (same.0 ∙ live.0, same.1 ∙ live.1)
  where
    t : ApprovalState
    t = decide_all s ds

    begun : Replays s s
    begun = record {
      sink = sink;
      mode = ground arith;
      kept = refl;
      memory = rw (log, restore_entries) (refl, refl);
    }

    ended : Replays s t
    ended = decide_all-Replays s s ds w begun

    live : SameMemory (restore_entries s t.log) t
    live = ended.memory

    cleared : ApprovalState
    cleared = record t {
      approved_tool_calls = [];
      approved_servers = [];
      grants_ref = fresh;
      consent_manager = clear t.consent_manager none;
    }

    same : SameMemory (restore_entries cleared t.log) (restore_entries s t.log)
    same = restore_entries-SameMemory cleared s t.log (sym calls, ap init ended.kept ∙ sym consent)
