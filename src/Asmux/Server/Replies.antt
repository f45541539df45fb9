-- ===== src/Asmux/Server/Replies.antt =====
-- server.rs: what each request is answered with.
use agent_workspace.Prelude.{
  ℕ, ◌≡◌, Option, none, some, List, [], ◌∷◌, arith, ◌==◌, if◌then◌else◌, unwrap_or,
}
use agent_workspace.Asmux.Registry
use agent_workspace.Asmux.Wire.{
  Frame, HelloRequest, CreateRequest, SessionRequest, KillRequest, UpdateMetadataRequest,
  ResizeRequest, ReadBufferRequest, rpc_of,
}
use agent_workspace.Asmux.Server.{
  Server, Conn, World, handle_hello, handle_create, handle_kill, handle_purge, handle_list,
  handle_update_metadata, handle_resize, handle_read_buffer,
}

-- The rpcs of the frames that are sent to a connection, in order.
unfoldable pub replies_to : ℕ → List (ℕ × Frame) → List ℕ
replies_to k [] = []
replies_to k ((to, f) ∷ fs) =
    let rest = replies_to k fs in if to == k then rpc_of f ∷ rest else rest

pub replies-handle_hello :
    (sv : Server) (c : Conn) (r : Option HelloRequest)
    → replies_to c.id (handle_hello sv c r).sent
      ≡ (elim r [ none ↦ 0 | some q ↦ unwrap_or 0 q.rpc_id ]) ∷ []
unfolding handle_hello replies_to
replies-handle_hello sv c none = ground arith
replies-handle_hello sv c (some q) = ground arith

pub replies-handle_create :
    (w : World) (sv : Server) (c : Conn) (r : Option CreateRequest)
    → replies_to c.id (handle_create w sv c r).sent
      ≡ (elim r [ none ↦ 0 | some q ↦ unwrap_or 0 q.rpc_id ]) ∷ []
unfolding handle_create replies_to
replies-handle_create w sv c none = ground arith
replies-handle_create w sv c (some q) = ground arith

pub replies-handle_kill :
    (w : World) (sv : Server) (c : Conn) (r : Option KillRequest)
    → replies_to c.id (handle_kill w sv c r).sent
      ≡ (elim r [ none ↦ 0 | some q ↦ unwrap_or 0 q.target.rpc_id ]) ∷ []
unfolding handle_kill replies_to Registry.get
replies-handle_kill w sv c none = ground arith
replies-handle_kill w sv c (some q) = ground arith

pub replies-handle_purge :
    (sv : Server) (c : Conn) (r : Option SessionRequest)
    → replies_to c.id (handle_purge sv c r).sent
      ≡ (elim r [ none ↦ 0 | some q ↦ unwrap_or 0 q.rpc_id ]) ∷ []
unfolding handle_purge replies_to
replies-handle_purge sv c none = ground arith
replies-handle_purge sv c (some q) = ground arith

pub replies-handle_list :
    (sv : Server) (c : Conn) (r : Option (Option ℕ))
    → replies_to c.id (handle_list sv c r).sent
      ≡ (elim r [ none ↦ 0 | some q ↦ unwrap_or 0 q ]) ∷ []
unfolding handle_list replies_to
replies-handle_list sv c none = ground arith
replies-handle_list sv c (some q) = ground arith

pub replies-handle_update_metadata :
    (sv : Server) (c : Conn) (r : Option UpdateMetadataRequest)
    → replies_to c.id (handle_update_metadata sv c r).sent
      ≡ (elim r [ none ↦ 0 | some q ↦ unwrap_or 0 q.target.rpc_id ]) ∷ []
unfolding handle_update_metadata replies_to Registry.get
replies-handle_update_metadata sv c none = ground arith
replies-handle_update_metadata sv c (some q) = ground arith

pub replies-handle_resize :
    (w : World) (sv : Server) (c : Conn) (r : Option ResizeRequest)
    → replies_to c.id (handle_resize w sv c r).sent
      ≡ (elim r [ none ↦ 0 | some q ↦ unwrap_or 0 q.target.rpc_id ]) ∷ []
unfolding handle_resize replies_to Registry.get
replies-handle_resize w sv c none = ground arith
replies-handle_resize w sv c (some q) = ground arith

pub replies-handle_read_buffer :
    (w : World) (sv : Server) (c : Conn) (r : Option ReadBufferRequest)
    → replies_to c.id (handle_read_buffer w sv c r).sent
      ≡ (elim r [ none ↦ 0 | some q ↦ unwrap_or 0 q.target.rpc_id ]) ∷ []
unfolding handle_read_buffer replies_to Registry.get
replies-handle_read_buffer w sv c none = ground arith
replies-handle_read_buffer w sv c (some q) = ground arith
