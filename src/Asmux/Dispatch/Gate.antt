-- ===== src/Asmux/Dispatch/Gate.antt =====
-- server.rs: the gate of a connection, and the replies of its frames.
use agent_workspace.Prelude.{
  ℕ, ◌≡◌, ◌≢◌, false, none, some, List, [], ◌∷◌, arith, ◌==◌, if◌then◌else◌, unwrap_or, Result, ok,
  err,
}
use agent_workspace.Asmux.Frame.{Incoming, frame, eof, FrameError, too_large, malformed, io}
use agent_workspace.Asmux.Ordinals
use agent_workspace.Asmux.Server.{Server, Conn, World, handle_hello}
use agent_workspace.Asmux.Server.Replies.{
  replies_to, replies-handle_hello, replies-handle_create, replies-handle_kill,
  replies-handle_purge, replies-handle_list, replies-handle_update_metadata, replies-handle_resize,
  replies-handle_read_buffer,
}
use agent_workspace.Asmux.Attachment.Takeover.{replies-handle_attach, replies-handle_detach}
use agent_workspace.Asmux.Dispatch.{Decoders, dispatch, read_turn}

-- The rpc of a request, where its body decodes; 0 otherwise.
unfoldable pub request_rpc : Decoders → ℕ → List ℕ → ℕ
request_rpc d ordinal body =
    if ordinal == Ordinals.hello_request
    then (elim (d.as_hello body) [ none ↦ 0 | some q ↦ unwrap_or 0 q.rpc_id ])
    else if ordinal == Ordinals.create_request
    then (elim (d.as_create body) [ none ↦ 0 | some q ↦ unwrap_or 0 q.rpc_id ])
    else if ordinal == Ordinals.kill_request
    then (elim (d.as_kill body) [ none ↦ 0 | some q ↦ unwrap_or 0 q.target.rpc_id ])
    else if ordinal == Ordinals.purge_request
    then (elim (d.as_purge body) [ none ↦ 0 | some q ↦ unwrap_or 0 q.rpc_id ])
    else if ordinal == Ordinals.list_request
    then (elim (d.as_list body) [ none ↦ 0 | some q ↦ unwrap_or 0 q ])
    else if ordinal == Ordinals.update_metadata_request
    then (elim (d.as_update_metadata body) [ none ↦ 0 | some q ↦ unwrap_or 0 q.target.rpc_id ])
    else if ordinal == Ordinals.resize_request
    then (elim (d.as_resize body) [ none ↦ 0 | some q ↦ unwrap_or 0 q.target.rpc_id ])
    else if ordinal == Ordinals.read_buffer_request
    then (elim (d.as_read_buffer body) [ none ↦ 0 | some q ↦ unwrap_or 0 q.target.rpc_id ])
    else if ordinal == Ordinals.attach_request
    then (elim (d.as_attach body) [ none ↦ 0 | some q ↦ unwrap_or 0 q.target.rpc_id ])
    else if ordinal == Ordinals.detach_request
    then (elim (d.as_detach body) [ none ↦ 0 | some q ↦ unwrap_or 0 q.rpc_id ])
    else 0

-- Every frame but input and a heartbeat is answered to its connection exactly once, with the rpc of
-- its request (that of a detach included, also where the connection is not attached), or with 0
-- where its body does not decode or its ordinal is unknown.
pub dispatch_one_reply :
    (w : World) (d : Decoders) (sv : Server) (c : Conn) (ordinal : ℕ) (body : List ℕ)
    → ordinal ≢ Ordinals.session_input
    → ordinal ≢ Ordinals.heartbeat
    → replies_to c.id (dispatch w d sv c ordinal body).sent ≡ request_rpc d ordinal body ∷ []
unfolding dispatch request_rpc replies_to
dispatch_one_reply w d sv c ordinal body not_input not_heartbeat = ground (
  arith,
  replies-handle_hello sv c (d.as_hello body),
  replies-handle_create w sv c (d.as_create body),
  replies-handle_kill w sv c (d.as_kill body),
  replies-handle_purge sv c (d.as_purge body),
  replies-handle_list sv c (d.as_list body),
  replies-handle_update_metadata sv c (d.as_update_metadata body),
  replies-handle_resize w sv c (d.as_resize body),
  replies-handle_read_buffer w sv c (d.as_read_buffer body),
  replies-handle_attach sv c (d.as_attach body),
  replies-handle_detach sv c (d.as_detach body),
)

-- Until its hello is accepted, nothing that a connection reads changes the server, starts a
-- stream, or cancels one, and the connection stays open only where that hello is accepted.
pub read_turn_gate :
    (w : World) (d : Decoders) (sv : Server) (c : Conn) (i : Result FrameError Incoming)
    → c.hello_done ≡ false
    → let r = read_turn w d sv c i in
      (r.server ≡ sv) × (r.is_open ≡ r.conn.hello_done) × (r.stream ≡ none) × (r.cancelled ≡ [])
unfolding read_turn dispatch handle_hello
read_turn_gate w d sv c (ok eof) e = ground arith
read_turn_gate w d sv c (ok (frame ordinal body)) e = ground arith
read_turn_gate w d sv c (err too_large) e = ground arith
read_turn_gate w d sv c (err malformed) e = ground arith
read_turn_gate w d sv c (err io) e = ground arith
