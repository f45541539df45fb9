-- ===== src/Asmux/Dispatch.antt =====
-- crates/asmux/src/server.rs: what a connection does with each frame that it reads.
-- The generated decoders are an argument: each gives the request of a body, or none if the body
-- is no such request.
pub mod Gate
pub mod Sizes
pub mod Handlers
pub mod Accounting
mod Tests
use agent_workspace.Prelude.{
  ℕ, false, not, ◌&&◌, Option, none, List, [], ◌∷◌, ◌==◌, if◌then◌else◌, Result, ok, err,
}
use agent_workspace.Asmux.Ordinals
use agent_workspace.Asmux.Frame.{Incoming, frame, eof, FrameError, too_large, malformed, io}
use agent_workspace.Asmux.Wire.{
  HelloRequest, CreateRequest, SessionRequest, KillRequest, UpdateMetadataRequest, ResizeRequest,
  ReadBufferRequest, AttachRequest, SessionInput, error, invalid_argument, protocol_mismatch,
  frame_too_large,
}
use agent_workspace.Asmux.Server.{
  Server, Conn, World, Reaction, reply, quiet, handle_hello, handle_create, handle_kill,
  handle_purge, handle_list, handle_update_metadata, handle_resize, handle_read_buffer,
}
use agent_workspace.Asmux.Attachment.{handle_attach, handle_detach, handle_input}

-- `read_as_root` and the accessors of each request. A list request is its rpc.
pub record Decoders : Type 0 where
  pub as_hello : List ℕ → Option HelloRequest
  pub as_create : List ℕ → Option CreateRequest
  pub as_kill : List ℕ → Option KillRequest
  pub as_purge : List ℕ → Option SessionRequest
  pub as_list : List ℕ → Option (Option ℕ)
  pub as_update_metadata : List ℕ → Option UpdateMetadataRequest
  pub as_resize : List ℕ → Option ResizeRequest
  pub as_read_buffer : List ℕ → Option ReadBufferRequest
  pub as_attach : List ℕ → Option AttachRequest
  pub as_detach : List ℕ → Option SessionRequest
  pub as_input : List ℕ → Option SessionInput

unfoldable pub dispatch : World → Decoders → Server → Conn → ℕ → List ℕ → Reaction
dispatch w d sv c ordinal body =
    if ordinal == Ordinals.hello_request
    then handle_hello sv c (d.as_hello body)
    else if ordinal == Ordinals.create_request
    then handle_create w sv c (d.as_create body)
    else if ordinal == Ordinals.kill_request
    then handle_kill w sv c (d.as_kill body)
    else if ordinal == Ordinals.purge_request
    then handle_purge sv c (d.as_purge body)
    else if ordinal == Ordinals.list_request
    then handle_list sv c (d.as_list body)
    else if ordinal == Ordinals.update_metadata_request
    then handle_update_metadata sv c (d.as_update_metadata body)
    else if ordinal == Ordinals.resize_request
    then handle_resize w sv c (d.as_resize body)
    else if ordinal == Ordinals.read_buffer_request
    then handle_read_buffer w sv c (d.as_read_buffer body)
    else if ordinal == Ordinals.attach_request
    then handle_attach sv c (d.as_attach body)
    else if ordinal == Ordinals.detach_request
    then handle_detach sv c (d.as_detach body)
    else if ordinal == Ordinals.session_input
    then handle_input sv c (d.as_input body)
    else if ordinal == Ordinals.heartbeat
    then quiet sv c
    else reply sv c (error 0 invalid_argument none 0)

abbrev pub close : Reaction → Reaction
close r = record r { is_open = false }

-- One turn of `read_loop`, on what `read_frame` gave.
unfoldable pub read_turn : World → Decoders → Server → Conn → Result FrameError Incoming → Reaction
read_turn w d sv c (ok eof) = close (quiet sv c)
read_turn w d sv c (ok (frame ordinal body)) =
    if not c.hello_done && not (ordinal == Ordinals.hello_request)
    then close (reply sv c (error 0 protocol_mismatch none 0))
    else dispatch w d sv c ordinal body
read_turn w d sv c (err too_large) = close (reply sv c (error 0 frame_too_large none 0))
read_turn w d sv c (err malformed) = close (reply sv c (error 0 protocol_mismatch none 0))
read_turn w d sv c (err io) = close (quiet sv c)

-- A turn with the state of the world at the time, which other connections change in between.
pub record Turn : Type 0 where
  pub world : World
  pub server : Server
  pub incoming : Result FrameError Incoming

-- The reactions of `read_loop`, up to the one that closes the connection.
unfoldable pub read_loop : Decoders → Conn → List Turn → List Reaction
read_loop d c [] = []
read_loop d c (t ∷ ts) =
    let r = read_turn t.world d t.server c t.incoming in
    let more = read_loop d r.conn ts in r ∷ (if r.is_open then more else [])
