-- ===== src/Asmux/Server/Requests.antt =====
-- server.rs: what the requests on sessions do, and what they answer.
use agent_workspace.Prelude.{
  ℕ, ◌≤◌, String, ◌≡◌, Bool, not, ◌&&◌, ◌||◌, none, some, List, [], ◌∷◌, arith, str_eq, eq_iff, ltb,
  leb, if◌then◌else◌, unwrap_or, u64_max, length, lookup, lookup-adjust,
}
use agent_workspace.Asmux.Ring.{tail}
use agent_workspace.Asmux.Ring.History.{Holds}
use agent_workspace.Asmux.Ring.Reads.{read_history, read_at-Holds}
use agent_workspace.Asmux.Session.{Session, session_record, patch_metadata}
use agent_workspace.Asmux.Registry
use agent_workspace.Asmux.Registry.{Registry}
use agent_workspace.Asmux.Wire.{
  HelloRequest, CreateRequest, UpdateMetadataRequest, ReadBufferRequest, update_metadata_response,
  error, unknown_session, read_kv_patch,
}
use agent_workspace.Asmux.Server.{
  Server, Conn, World, ring_min_bytes, ring_max_bytes, read_bound, handle_hello, handle_create,
  handle_update_metadata, handle_read_buffer, read_reply, capacity_of, create_spec,
}

-- A hello opens the connection exactly when the range of versions it names has version 1.
pub handle_hello_gate :
    (sv : Server) (c : Conn) (q : HelloRequest)
    → let r = handle_hello sv c (some q) in
      let fits = leb (unwrap_or 0 q.protocol_min) 1 && leb 1 (unwrap_or 0 q.protocol_max) in
      (r.is_open ≡ fits) × (r.conn.hello_done ≡ fits || c.hello_done) × (r.server ≡ sv)
unfolding handle_hello
handle_hello_gate sv c q = ground arith

abbrev is_valid_create : CreateRequest → Bool
is_valid_create r =
    not (str_eq (unwrap_or "" r.command) "")
    && (ltb 0 (unwrap_or 80 r.cols) && ltb 0 (unwrap_or 24 r.rows))
    && (leb ring_min_bytes (capacity_of r) && leb (capacity_of r) ring_max_bytes)

-- A create request reaches the registry only where its command is not empty, its geometry is not
-- zero and its ring capacity is within the bounds. Any other leaves the server as it was.
pub handle_create_checked :
    (w : World) (sv : Server) (c : Conn) (q : CreateRequest)
    → (handle_create w sv c (some q)).server ≡ (
        if is_valid_create q
        then record sv { registry = (Registry.create w.os sv.registry (create_spec w q)).1 }
        else sv)
unfolding handle_create
handle_create_checked w sv c q = ground arith

-- The reply to a buffer read of a session is that of the read of its history, whose length is
-- within a u64: from the cursor asked for, no more than 8 MiB, with an error for a cursor that is
-- gone or yet to come.
pub handle_read_buffer-Holds :
    (w : World) (sv : Server) (c : Conn) (q : ReadBufferRequest) (s : Session) (h : List ℕ)
    → lookup (unwrap_or "" q.target.session_id) sv.registry.sessions ≡ some s
    → Holds s.ring h
    → length h ≤ u64_max
    → let rpc = unwrap_or 0 q.target.rpc_id in
      let sid = unwrap_or "" q.target.session_id in
      (handle_read_buffer w sv c (some q)).sent
      ≡ (
        c.id,
        read_reply rpc sid s.ring.head
            (read_history (tail s.ring) h (unwrap_or 0 q.from_cursor) (read_bound q.max_bytes)),
      )
        ∷ []
unfolding handle_read_buffer Registry.get
handle_read_buffer-Holds w sv c q s h found holds small = ground (
  arith,
  found,
  read_at-Holds w.split s.ring h (unwrap_or 0 q.from_cursor) (read_bound q.max_bytes) holds small,
)

-- A metadata patch changes the metadata of its session, and of no other; the answer is the record
-- of the session as patched. An unknown id changes no session.
pub handle_update_metadata_lem :
    (sv : Server) (c : Conn) (q : UpdateMetadataRequest) (k : String)
    → let sid = unwrap_or "" q.target.session_id in
      let rpc = unwrap_or 0 q.target.rpc_id in
      let patch = read_kv_patch q.patch in
      let r = handle_update_metadata sv c (some q) in
      (lookup k r.server.registry.sessions ≡ (
        if str_eq sid k
        then elim (lookup k sv.registry.sessions) [
          | none ↦ none
          | some s ↦ some (patch_metadata s patch)
        ]
        else lookup k sv.registry.sessions))
      × (r.sent
          ≡ (
            c.id,
            elim (lookup sid sv.registry.sessions) [
              | none ↦ error rpc unknown_session (some sid) 0
              | some s ↦ update_metadata_response rpc (session_record (patch_metadata s patch))
            ],
          )
            ∷ [])
unfolding handle_update_metadata Registry.get Registry.update Registry.touch
handle_update_metadata_lem sv c q k = ground (
  arith,
  eq_iff (unwrap_or "" q.target.session_id) k,
  lookup-adjust (unwrap_or "" q.target.session_id) k (λ t. patch_metadata t (read_kv_patch q.patch))
      sv.registry.sessions,
)
