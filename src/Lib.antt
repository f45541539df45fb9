-- ===== src/Lib.antt =====
-- A verification library for the session holder (crates/asmux), the relay's node registry
-- (crates/asm-relay) and the daemon (crates/daemon) of this repository.
--
-- The program. `asmux` is the process that holds the terminals: it starts a child on a
-- pseudoterminal for each session, keeps the end of its output in a byte ring with global
-- cursors, and serves clients over a framed socket protocol. A client says hello, creates, lists,
-- resizes, patches, kills and purges sessions, reads their rings, and attaches to sessions to
-- stream their output and send them input; a session has one attacher at a time. `asm-relay` lets
-- clients reach daemons that dial out to it: nodes register over a control connection, advertise
-- the downstreams that they reach, and are asked to dial back for each proxied request. The
-- daemon runs agents in sessions on such a holder: it keeps their records in SQL tables, watches
-- their output to tell a working session from an idle or a blocked one, makes and reclaims git
-- worktrees and branches for them, compares its records with the holder's after a restart or a
-- reconnection, and decides who may use its API.
--
-- The files.
--   Prelude (Tests, Lists, Maps, Effects, Bytes, Int): Boolean tests, saturating and wrapping
--     64-bit arithmetic, lists measured by native numbers, hash maps as association lists,
--     results, big-endian bytes.
--   Asmux/Ring: `RingBuffer` of crates/asmux/src/ring.rs (`push`, `read_at`, `copy_range`).
--     Children: the invariant, the history that a ring holds, exactly how much of it (Window),
--     and reads against that history.
--   Asmux/Frame: `read_frame` and `frame_body` of crates/asmux/src/frame.rs.
--   Asmux/Session: the session of crates/asmux/src/session.rs; Spawn has `spawn` and the child's
--     environment, Threads the reader, writer and reaper threads as functions of what they read.
--   Asmux/Registry: crates/asmux/src/registry.rs: `create`, `admit`, `purge`, `get`, `list`.
--   Asmux/Wire, Server, Attachment, Stream, Ordinals, Dispatch: crates/asmux/src/server.rs: the
--     messages, the request handlers, attaching and input, `stream_session`, the ordinals, and
--     `dispatch` with `read_loop`. A handler is a function from the server and the connection to
--     a `Reaction`: the new state, the frames sent by connection, and the cancels that it wakes.
--   Relay/Nodes: the registry, the routing and `proxy` of crates/asm-relay/src/server.rs.
--   Relay/Control: a node's control connection, `register_conn` of the same file.
--   Daemon/Domain: the states and records of crates/daemon/src/domain.rs.
--   Daemon/Store: the statements of crates/daemon/src/db.rs, each a function on tables that are
--     lists of rows (Query has the forms of statement; Sessions, Instances, Devices the tables).
--   Daemon/Bell: `scan_bell` and `trim_tail` of crates/daemon/src/session_manager/mod.rs.
--   Daemon/Monitor: `on_output`, `on_chunk`, `on_idle` of session_manager/monitor.rs, with the
--     signal that input and views raise; the select loop is a list of events.
--   Daemon/Manager, Lifecycle: the session manager's state; `on_exit`, `stop_session`, shutdown,
--     the passes of reconciliation (Reconcile), and the answer to a prompt by buttons (Deck).
--   Daemon/Worktrees: session_manager/workspaces.rs: `discard_instance`, `archive_session`,
--     `cleanup_instance`, the branches of a workspace (Branches) and the sweep of orphans
--     (Orphans).
--   Daemon/Creation: `resolve_workspace`, `create_session` and its rollback (Sessions); what
--     later becomes of a branch that a session borrowed (Borrowing) and of a worktree that it
--     joined (Joining).
--   Daemon/HistoryRing: the ring of chunks of crates/daemon/src/backend/mod.rs.
--   Daemon/Auth: `require_auth` of crates/daemon/src/auth.rs.
-- A Tests child has runs of the code and instances of the theorems; Asmux/Samples, Daemon/Samples and
-- Daemon/Repository have their data.
--
-- Conventions. Numbers are unbounded, and each saturating or wrapping operation of the source is
-- written out, for 64-bit targets. What the world answers is an argument: the allocator's
-- `try_reserve`, where a deque is split into two slices, the pseudoterminal, the clock, new ids,
-- the launch fingerprint, whether a channel takes a frame. The generated FlatBuffers decoders are
-- a record of functions (Dispatch.Decoders), of which nothing is assumed. A handler runs as one
-- step; events of several connections and of the sessions' own threads are lists of steps in any
-- order (Dispatch.Accounting). A hash map is an association list whose order stands for the order
-- in which the map is walked. For the daemon, times are milliseconds after 1970, an operation
-- reads the clock once, an SQL statement succeeds unless it inserts a key that is in use, the
-- plugins' answers are arguments, and git is an abstract state with the functions of a record
-- (GitOps, BranchOps, WorktreeOps), of which nothing is assumed, also not that a call that fails
-- leaves the repository alone. An iteration of a stream sees the session anew each time that it
-- takes a lock (Stream.Views), and a write to the child may fail after any of its bytes
-- (Threads.put_through). All loops of the modelled code are recursions on a list of what they
-- read or see, so no fuel is needed.
--
-- Not modelled: the generated wire code (crates/asmux-wire), the socket and its watchdog
-- (crates/asmux/src/socket.rs, main.rs), the byte-level encoding of the messages, the writer task
-- and the heartbeat, the relay's key check and its forwarding of HTTP, the relay agent, the
-- launcher; of the daemon the terminal events and the migrations of the store, the overview of
-- branches, the launch lines and forks, the plugins' heuristics on text, the calls of git, the
-- backends but for that ring, and the HTTP handlers; the client, the scripts.
pub mod Prelude
pub mod Asmux
pub mod Relay
pub mod Daemon
