-- ===== src/Asmux/Dispatch/Handlers.antt =====
-- server.rs: each handler keeps the accounting and the ring bounds.
use agent_workspace.Prelude.{
  ℕ, String, ◌≡◌, refl, Bool, Option, none, some, List, [], arith, unwrap_or,
}
use agent_workspace.Asmux.Session
use agent_workspace.Asmux.Session.{Session, attach, detach, patch_metadata}
use agent_workspace.Asmux.Registry
use agent_workspace.Asmux.Registry.{Registry}
use agent_workspace.Asmux.Registry.Totals.{capacity}
use agent_workspace.Asmux.Dispatch.Sizes.{
  IsSound, get-IsSound, purge-IsSound, update-IsSound, create-IsSound,
}
use agent_workspace.Asmux.Wire.{
  HelloRequest, CreateRequest, SessionRequest, KillRequest, UpdateMetadataRequest, ResizeRequest,
  ReadBufferRequest, AttachRequest, SessionInput, read_kv_patch,
}
use agent_workspace.Asmux.Server.{
  Server, Conn, World, change, handle_hello, handle_create, handle_kill, handle_purge, handle_list,
  handle_update_metadata, handle_resize, handle_read_buffer, create_spec,
}
use agent_workspace.Asmux.Attachment.{install, handle_attach, handle_detach, handle_input}

abbrev pub Accounts : Server → Type 0
Accounts sv = IsSound sv.registry

pub change-Accounts :
    (sv : Server) (sid : String) (f : Session → Session)
    → ((s : Session) → capacity (f s) ≡ capacity s)
    → Accounts sv
    → Accounts (change sv sid f)
change-Accounts sv sid f keeps v = update-IsSound sv.registry sid f keeps v

pub cap-send_input :
    (s : Session) (input : List ℕ) → capacity (Session.send_input s input).1 ≡ capacity s
unfolding Session.send_input
cap-send_input s input = ground arith

pub cap-resize :
    (b : Bool) (s : Session) (cols rows : ℕ)
    → capacity (Session.resize b s cols rows).1 ≡ capacity s
unfolding Session.resize
cap-resize b s cols rows = ground arith

pub cap-detach : (s : Session) (conn_id : ℕ) → capacity (detach s conn_id) ≡ capacity s
cap-detach s conn_id = ground arith

pub found-Accounts :
    (sv : Server) (sid : String)
    → Accounts sv
    → Accounts (record sv { registry = (Registry.get sv.registry sid).1 })
found-Accounts sv sid v = get-IsSound sv.registry sid v

pub changed-Accounts :
    (sv : Server) (sid : String) (f : Session → Session)
    → ((s : Session) → capacity (f s) ≡ capacity s)
    → Accounts sv
    → IsSound (Registry.update (Registry.get sv.registry sid).1 sid f)
changed-Accounts sv sid f keeps v =
    update-IsSound (Registry.get sv.registry sid).1 sid f keeps (get-IsSound sv.registry sid v)

pub handle_hello-Accounts :
    (sv : Server) (c : Conn) (r : Option HelloRequest)
    → Accounts sv
    → Accounts (handle_hello sv c r).server
unfolding handle_hello
handle_hello-Accounts sv c none v = v
handle_hello-Accounts sv c (some q) v = ground arith

pub handle_create-Accounts :
    (w : World) (sv : Server) (c : Conn) (r : Option CreateRequest)
    → Accounts sv
    → Accounts (handle_create w sv c r).server
unfolding handle_create
handle_create-Accounts w sv c none v = v
handle_create-Accounts w sv c (some q) v =
    ground (arith, create-IsSound w.os sv.registry (create_spec w q))

pub handle_kill-Accounts :
    (w : World) (sv : Server) (c : Conn) (r : Option KillRequest)
    → Accounts sv
    → Accounts (handle_kill w sv c r).server
unfolding handle_kill
handle_kill-Accounts w sv c none v = v
handle_kill-Accounts w sv c (some q) v =
    ground (arith, found-Accounts sv (unwrap_or "" q.target.session_id) v)

pub handle_purge-Accounts :
    (sv : Server) (c : Conn) (r : Option SessionRequest)
    → Accounts sv
    → Accounts (handle_purge sv c r).server
unfolding handle_purge
handle_purge-Accounts sv c none v = v
handle_purge-Accounts sv c (some q) v = purge-IsSound sv.registry (unwrap_or "" q.session_id) v

pub handle_list-Accounts :
    (sv : Server) (c : Conn) (r : Option (Option ℕ))
    → Accounts sv
    → Accounts (handle_list sv c r).server
unfolding handle_list
handle_list-Accounts sv c none v = v
handle_list-Accounts sv c (some q) v = v

pub handle_update_metadata-Accounts :
    (sv : Server) (c : Conn) (r : Option UpdateMetadataRequest)
    → Accounts sv
    → Accounts (handle_update_metadata sv c r).server
unfolding handle_update_metadata
handle_update_metadata-Accounts sv c none v = v
handle_update_metadata-Accounts sv c (some q) v = ground (
  arith,
  found-Accounts sv (unwrap_or "" q.target.session_id) v,
  changed-Accounts sv (unwrap_or "" q.target.session_id)
      (λ t. patch_metadata t (read_kv_patch q.patch)) (λ t. refl) v,
)

pub handle_resize-Accounts :
    (w : World) (sv : Server) (c : Conn) (r : Option ResizeRequest)
    → Accounts sv
    → Accounts (handle_resize w sv c r).server
unfolding handle_resize
handle_resize-Accounts w sv c none v = v
handle_resize-Accounts w sv c (some q) v = ground (
  arith,
  found-Accounts sv (unwrap_or "" q.target.session_id) v,
  changed-Accounts sv (unwrap_or "" q.target.session_id)
      (λ t. (Session.resize w.resize_accepted t (unwrap_or 0 q.cols) (unwrap_or 0 q.rows)).1)
      (λ t. cap-resize w.resize_accepted t (unwrap_or 0 q.cols) (unwrap_or 0 q.rows)) v,
)

pub handle_read_buffer-Accounts :
    (w : World) (sv : Server) (c : Conn) (r : Option ReadBufferRequest)
    → Accounts sv
    → Accounts (handle_read_buffer w sv c r).server
unfolding handle_read_buffer
handle_read_buffer-Accounts w sv c none v = v
handle_read_buffer-Accounts w sv c (some q) v =
    ground (arith, found-Accounts sv (unwrap_or "" q.target.session_id) v)

pub handle_attach-Accounts :
    (sv : Server) (c : Conn) (r : Option AttachRequest)
    → Accounts sv
    → Accounts (handle_attach sv c r).server
unfolding handle_attach install
handle_attach-Accounts sv c none v = v
handle_attach-Accounts sv c (some q) v = ground (
  arith,
  found-Accounts sv (unwrap_or "" q.target.session_id) v,
  changed-Accounts sv (unwrap_or "" q.target.session_id)
      (λ t. (attach t (record { conn_id = c.id; cancel = sv.next_cancel })).1) (λ t. refl) v,
)

pub handle_detach-Accounts :
    (sv : Server) (c : Conn) (r : Option SessionRequest)
    → Accounts sv
    → Accounts (handle_detach sv c r).server
unfolding handle_detach
handle_detach-Accounts sv c none v = v
handle_detach-Accounts sv c (some q) v = ground (
  arith,
  found-Accounts sv (unwrap_or "" q.session_id) v,
  changed-Accounts sv (unwrap_or "" q.session_id) (λ t. detach t c.id) (λ t. cap-detach t c.id) v,
)

pub handle_input-Accounts :
    (sv : Server) (c : Conn) (r : Option SessionInput)
    → Accounts sv
    → Accounts (handle_input sv c r).server
unfolding handle_input
handle_input-Accounts sv c none v = v
handle_input-Accounts sv c (some q) v = ground (
  arith,
  found-Accounts sv (unwrap_or "" q.session_id) v,
  changed-Accounts sv (unwrap_or "" q.session_id)
      (λ t. (Session.send_input t (unwrap_or [] q.input)).1)
      (λ t. cap-send_input t (unwrap_or [] q.input)) v,
)
