-- ===== src/Lib.antt =====
-- The core of mcp-adapter: the part of an agent's extension that decides whether a tool of a
-- Model Context Protocol server may be called, under which name it is offered and to which
-- server a name belongs; that keeps servers connected and recovers their sessions; that answers the
-- pauses of running programs; that follows the tasks which calls leave running; that learns the
-- shapes of results; and that finds tools for a query.
--
-- The program and the files here (paths are from the repository's root).
--
-- - Prelude (Prelude.antt, Prelude/Tests, Prelude/Maps, Prelude/Lists): no code of the program,
--   but what JavaScript gives it: a `Map` and a `Set` over texts as lists in insertion order
--   (`get`, `put`, `delete`; `contains`, `add`, `remove`), array searches, the Boolean tests.
-- - Json.antt, Json/Stable.antt: JSON values and `stableStringify` of utils.ts, which sorts the
--   keys of objects. The text of a number and the quoting of a text are `JSON.stringify`'s, which
--   is not the repository's, so they are parameters.
-- - Approval/Consent.antt: the class `ConsentManager` of consent-manager.ts. A record holds its two
--   sets; each method is a function from the record to the record, with its error as a value.
-- - Approval/Entry.antt, Approval/Session.antt: session-approvals.ts. An entry is read from
--   and written to the JSON of a session branch; `restore_session_approval_state` replays a branch.
--   SHA-256 is a parameter. A branch is the list of the data of the adapter's own entries, since
--   the code skips the entries of any other kind.
-- - Approval/Project.antt: `applyProjectServerTrust` of project-server-trust.ts, which blocks the
--   servers and script tools of a project's own configuration. The order of `localeCompare`, the text
--   of JSON and SHA-256 are parameters; the answers of the dialogs are arguments.
-- - Approval/Gate.antt: `isToolCallApprovalRequired` and `ensureToolCallApproved` of
--   tool-approval.ts, which the tool executors call before each call. The two waits of the gate,
--   for a broker's claim and for the dialog, are an answer each and a state that other code left
--   behind during the wait.
-- - Naming/Prefix.antt, Naming/Owner.antt, Naming/Ownership.antt, Naming/Glob.antt: the tool names
--   of types.ts: prefixes, candidate names, the owner of a name, unique ownership, the globs that
--   select tools. Texts are lists of characters there where the code works on characters. The source of
--   the regular expression that `globToRegExp` makes is built as in the code, and read as literals,
--   `.` and `.*`; a source with any other syntax matches nothing here.
-- - Naming/Namespace.antt, Naming/Deferred.antt: `formatServerNamespace` of types.ts, and the naming of
--   deferred tools in deferred-tool-surface.ts. The tools of the servers that are enabled and cached
--   are an argument; SHA-256 and `JSON.stringify` are parameters.
-- - Connection/Failure.antt: the errors that the code tells apart (`isTerminatedSession` of
--   session-recovery.ts, `isUnauthorizedHttpError` and `isTransientHttpConnectError` of
--   server-manager.ts, `shouldReconnectAfterRefresh` of lifecycle.ts). An error has a class, a
--   message and a cause; a chain of causes is finite here.
-- - Connection/Lifecycle.antt, Connection/Lifecycle/Check.antt: `McpLifecycleManager` of
--   lifecycle.ts, which keeps servers alive: registration, retries and their delay, and
--   `checkKeepAliveConnection`, one pass over a server. A wait is an argument that gives what is
--   waited for and the state found afterwards. Connection/Lifecycle/Steps.antt lets those states
--   come about by the same steps: registrations, removals and other passes come as whole steps inside
--   the waits of a pass. Passes that overlap in another way are left out.
-- - Connection/Manager.antt, Connection/Manager/Traffic.antt: of `McpServerManager` in
--   server-manager.ts, the account of the calls in flight, `isIdle`, the takeover of the account in
--   `doReconnect` and what `close` does before it waits; the traffic of calls over a server, with
--   closes and new connections while calls are open.
-- - Connection/Arbitration.antt: `arbitrateConnectionAttempt` of server-manager.ts, which lets
--   callers share a pending attempt. What the listeners of an abort do is a parameter.
-- - Connection/Recovery.antt: `withSessionRecovery` of session-recovery.ts, which the executors
--   wrap around each call. The server manager, the signal and the call are a record of functions
--   over a state of any type.
-- - Executor/Pauses.antt: executor-pauses.ts, the loop that answers the approval and input requests
--   of a running program. The loop counts down the pauses that it may still answer (sixteen), which
--   is the bound of the code, so no fuel is added.
-- - Search/Score.antt, Search/Pages.antt: of search-ranking.ts, the score of a tool for a query
--   and `paginate`. The shares of matched tokens are compared without fractions. `read_pages`
--   follows the next offsets on fuel, and one unit more than there are items is enough.
--
-- The gate reads the names of Naming; the session's replay fills the maps that the gate reads and
-- the sets of the consent manager. The life cycle asks the server manager for connections and for
-- idleness, and takes the errors of Connection/Failure.antt apart, as the recovery does; the loop of
-- Executor runs inside the call that the recovery wraps.
--
-- Not modelled: the transports, OAuth flows, panels, command line, prompts and the user interface,
-- which are input and output around the parts above; logging; the network, the file system and the
-- process. Left out too: the rest of the server manager, the selection of direct tools, the text of
-- output shapes and what the cache gives back of them, and the merging of configurations.
pub mod Prelude
pub mod Json
pub mod Approval
pub mod Connection
pub mod Executor
pub mod Naming
pub mod Runtime
pub mod Search
pub mod Shape
pub mod Tasks
