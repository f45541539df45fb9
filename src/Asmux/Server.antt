-- ===== src/Asmux/Server.antt =====
-- crates/asmux/src/server.rs: the server's state and the handlers of its requests. A handler runs
-- as one step. What it sends is listed by connection, in order.
pub mod Requests
pub mod Replies
use agent_workspace.Prelude.{
  ℕ, ◌*◌, min, String, Bool, true, false, not, ◌&&◌, ◌||◌, Option, none, some, List, [], ◌∷◌,
  str_eq, ltb, leb, ◌==◌, if◌then◌else◌, unwrap_or, Assoc, map, Result, ok, err, ℤ, pos,
}
use agent_workspace.Asmux.Ring.{ReadOutcome, bytes, gap, invalid}
use agent_workspace.Asmux.Session
use agent_workspace.Asmux.Session.{
  Session, session_record, Signal, InputOutcome, not_alive, patch_metadata,
}
use agent_workspace.Asmux.Session.Spawn.{SpawnSpec, SpawnAnswers}
use agent_workspace.Asmux.Registry
use agent_workspace.Asmux.Registry.{
  Registry, CreateError, exists, CreateOutcome, created, idempotent, PurgeOutcome, purged, unknown,
  alive,
}
use agent_workspace.Asmux.Wire.{
  Frame, HelloRequest, CreateRequest, SessionRequest, KillRequest, UpdateMetadataRequest,
  ResizeRequest, ReadBufferRequest, hello_response, create_response, kill_response, purge_response,
  list_response, update_metadata_response, resize_response, read_buffer_response, error,
  unknown_session, session_not_alive, session_alive, buffer_gap, invalid_argument, spawn_failed,
  capacity_out_of_range, protocol_mismatch, session_exists, memory_limit, read_string_vec,
  read_kv_pairs, read_kv_patch,
}

-- From crates/asmux/src/lib.rs.
abbrev pub protocol_v1 : ℕ
protocol_v1 = 1

abbrev pub ring_default_bytes : ℕ
ring_default_bytes = 2 * 1024 * 1024

abbrev pub ring_min_bytes : ℕ
ring_min_bytes = 16 * 1024

abbrev pub ring_max_bytes : ℕ
ring_max_bytes = 32 * 1024 * 1024

abbrev pub readbuf_max : ℕ
readbuf_max = 8 * 1024 * 1024

-- `next_cancel` names the next `Notify`; two are the same only where they have one name.
pub record Server : Type 0 where
  pub registry : Registry
  pub server_pid : ℤ
  pub binary_sha256 : String
  pub next_cancel : ℕ

pub record Conn : Type 0 where
  pub id : ℕ
  pub hello_done : Bool
  pub streams : Assoc ℕ

-- What a handler asks of the world around it.
pub record World : Type 0 where
  pub new_uuid : String
  pub now_ms : ℕ
  pub os : SpawnAnswers
  pub fingerprint : String → List String → String → List (String × String) → ℕ
  pub is_unix : Bool
  pub is_signal : ℤ → Bool
  pub resize_accepted : Bool
  pub split : ℕ

-- The arguments and variables of a `stream_session` task.
pub record StreamTask : Type 0 where
  pub sid : String
  pub cursor : ℕ
  pub cancel : ℕ
  pub is_live_attach : Bool
  pub reported_drops : ℕ

-- What a handler does: the new state, the frames that it sends, the `Notify`s that it wakes, the
-- signal that it sends, the stream that it starts, and whether the connection stays open.
pub record Reaction : Type 0 where
  pub server : Server
  pub conn : Conn
  pub sent : List (ℕ × Frame)
  pub cancelled : List ℕ
  pub killed : Option (String × Signal)
  pub stream : Option StreamTask
  pub is_open : Bool

abbrev pub reply : Server → Conn → Frame → Reaction
reply sv c f = record {
  server = sv;
  conn = c;
  sent = (c.id, f) ∷ [];
  cancelled = [];
  killed = none;
  stream = none;
  is_open = true;
}

-- Nothing is sent.
abbrev pub quiet : Server → Conn → Reaction
quiet sv c = record {
  server = sv;
  conn = c;
  sent = [];
  cancelled = [];
  killed = none;
  stream = none;
  is_open = true;
}

abbrev pub reject_malformed_body : Server → Conn → Reaction
reject_malformed_body sv c = reply sv c (error 0 invalid_argument none 0)

abbrev pub refuse_hello : Server → Conn → ℕ → Reaction
refuse_hello sv c rpc = record (reply sv c (error rpc protocol_mismatch none 0)) { is_open = false }

-- The session is looked up, which counts as an access.
abbrev pub with_session : Server → Conn → ℕ → String → (Session → Server → Reaction) → Reaction
with_session sv c rpc sid f =
    let (found, r) = Registry.get sv.registry sid in
    let sv' : Server = record sv { registry = r } in
    elim found [ none ↦ reply sv' c (error rpc unknown_session (some sid) 0) | some s ↦ f s sv' ]

-- The session changes in place.
abbrev pub change : Server → String → (Session → Session) → Server
change sv sid f = record sv { registry = Registry.update sv.registry sid f }

unfoldable pub handle_hello : Server → Conn → Option HelloRequest → Reaction
handle_hello sv c none = refuse_hello sv c 0
handle_hello sv c (some r) =
    let rpc = unwrap_or 0 r.rpc_id in
    if ltb protocol_v1 (unwrap_or 0 r.protocol_min) || ltb (unwrap_or 0 r.protocol_max) protocol_v1
    then refuse_hello sv c rpc
    else reply sv (record c { hello_done = true })
        (hello_response rpc sv.server_pid sv.binary_sha256 protocol_v1
          (Registry.session_count sv.registry) sv.registry.started_at_unix_ms
          sv.registry.instance_id)

abbrev pub create_reply : ℕ → Result CreateError CreateOutcome → Frame
create_reply rpc (ok (created s)) = create_response rpc (session_record s)
create_reply rpc (ok (idempotent s)) = create_response rpc (session_record s)
create_reply rpc (err exists) = error rpc session_exists none 0
create_reply rpc (err Registry.memory_limit) = error rpc memory_limit none 0
create_reply rpc (err (Registry.spawn_failed msg)) = error rpc spawn_failed none 0

abbrev pub capacity_of : CreateRequest → ℕ
capacity_of r =
    if unwrap_or 0 r.ring_capacity == 0 then ring_default_bytes else unwrap_or 0 r.ring_capacity

abbrev pub create_spec : World → CreateRequest → SpawnSpec
create_spec w r =
    let command = unwrap_or "" r.command in
    let args = read_string_vec r.args in
    let cwd = unwrap_or "" r.cwd in
    let env = read_kv_pairs r.env in
    record {
      session_id = unwrap_or w.new_uuid r.session_id;
      command = command;
      args = args;
      cwd = cwd;
      env = env;
      cols = unwrap_or 80 r.cols;
      rows = unwrap_or 24 r.rows;
      ring_capacity = capacity_of r;
      metadata = read_kv_pairs r.metadata;
      fingerprint = w.fingerprint command args cwd env;
      created_at_unix_ms = w.now_ms;
    }

unfoldable pub handle_create : World → Server → Conn → Option CreateRequest → Reaction
handle_create w sv c none = reject_malformed_body sv c
handle_create w sv c (some r) =
    let rpc = unwrap_or 0 r.rpc_id in
    if str_eq (unwrap_or "" r.command) ""
    then reply sv c (error rpc invalid_argument none 0)
    else if unwrap_or 80 r.cols == 0 || unwrap_or 24 r.rows == 0
    then reply sv c (error rpc invalid_argument none 0)
    else if not (leb ring_min_bytes (capacity_of r) && leb (capacity_of r) ring_max_bytes)
    then reply sv c (error rpc capacity_out_of_range none 0)
    else let (o, registry) = Registry.create w.os sv.registry (create_spec w r) in
      reply (record sv { registry = registry }) c (create_reply rpc o)

unfoldable pub handle_kill : World → Server → Conn → Option KillRequest → Reaction
handle_kill w sv c none = reject_malformed_body sv c
handle_kill w sv c (some r) =
    let rpc = unwrap_or 0 r.target.rpc_id in
    let sid = unwrap_or "" r.target.session_id in
    with_session sv c rpc sid λ s sv'. record (reply sv' c (kill_response rpc)) {
      killed = some (sid, Session.kill w.is_unix w.is_signal s (unwrap_or (pos 0) r.signal));
    }

abbrev pub purge_reply : ℕ → String → PurgeOutcome → Frame
purge_reply rpc sid purged = purge_response rpc
purge_reply rpc sid unknown = error rpc unknown_session (some sid) 0
purge_reply rpc sid alive = error rpc session_alive (some sid) 0

unfoldable pub handle_purge : Server → Conn → Option SessionRequest → Reaction
handle_purge sv c none = reject_malformed_body sv c
handle_purge sv c (some r) =
    let rpc = unwrap_or 0 r.rpc_id in
    let sid = unwrap_or "" r.session_id in
    let (o, registry) = Registry.purge sv.registry sid in
    reply (record sv { registry = registry }) c (purge_reply rpc sid o)

-- The request is its rpc.
unfoldable pub handle_list : Server → Conn → Option (Option ℕ) → Reaction
handle_list sv c none = reject_malformed_body sv c
handle_list sv c (some rpc_id) =
    reply sv c (list_response (unwrap_or 0 rpc_id) (map session_record (Registry.list sv.registry)))

unfoldable pub handle_update_metadata : Server → Conn → Option UpdateMetadataRequest → Reaction
handle_update_metadata sv c none = reject_malformed_body sv c
handle_update_metadata sv c (some r) =
    let rpc = unwrap_or 0 r.target.rpc_id in
    let sid = unwrap_or "" r.target.session_id in
    let patch = read_kv_patch r.patch in
    with_session sv c rpc sid λ s sv'.
      reply (change sv' sid (λ t. patch_metadata t patch)) c
        (update_metadata_response rpc (session_record (patch_metadata s patch)))

abbrev pub resize_reply : ℕ → String → InputOutcome → Frame
resize_reply rpc sid not_alive = error rpc session_not_alive (some sid) 0
resize_reply rpc sid _ = resize_response rpc

unfoldable pub handle_resize : World → Server → Conn → Option ResizeRequest → Reaction
handle_resize w sv c none = reject_malformed_body sv c
handle_resize w sv c (some r) =
    let rpc = unwrap_or 0 r.target.rpc_id in
    let sid = unwrap_or "" r.target.session_id in
    let resized = λ (t : Session).
      Session.resize w.resize_accepted t (unwrap_or 0 r.cols) (unwrap_or 0 r.rows) in
    with_session sv c rpc sid
      λ s sv'. reply (change sv' sid (λ t. (resized t).1)) c (resize_reply rpc sid (resized s).0)

abbrev pub read_reply : ℕ → String → ℕ → ReadOutcome → Frame
read_reply rpc sid head (bytes from input) = read_buffer_response rpc from head input
read_reply rpc sid head (gap earliest) = error rpc buffer_gap (some sid) earliest
read_reply rpc sid head invalid = error rpc invalid_argument (some sid) 0

abbrev pub read_bound : Option ℕ → ℕ
read_bound req = if unwrap_or 0 req == 0 then readbuf_max else min (unwrap_or 0 req) readbuf_max

unfoldable pub handle_read_buffer : World → Server → Conn → Option ReadBufferRequest → Reaction
handle_read_buffer w sv c none = reject_malformed_body sv c
handle_read_buffer w sv c (some r) =
    let rpc = unwrap_or 0 r.target.rpc_id in
    let sid = unwrap_or "" r.target.session_id in
    with_session sv c rpc sid λ s sv'. reply sv' c (
      read_reply rpc sid s.ring.head
        (Session.read_at w.split s (unwrap_or 0 r.from_cursor) (read_bound r.max_bytes)))
