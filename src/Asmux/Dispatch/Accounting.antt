-- ===== src/Asmux/Dispatch/Accounting.antt =====
-- server.rs: the server as a whole. Its connections' frames, their ends and the sessions' own
-- threads take turns in any order.
use agent_workspace.Prelude.{
  ℕ, String, ◌≡◌, inl, inr, List, [], ◌∷◌, arith, Option-cases, Assoc, Result, ok, err,
}
use agent_workspace.Asmux.Session.{Session, detach}
use agent_workspace.Asmux.Registry
use agent_workspace.Asmux.Registry.{Registry}
use agent_workspace.Asmux.Registry.Totals.{capacity}
use agent_workspace.Asmux.Dispatch.Sizes.{IsSound}
use agent_workspace.Asmux.Frame.{Incoming, frame, eof, FrameError, too_large, malformed, io}
use agent_workspace.Asmux.Server.{Server, Conn, World, change}
use agent_workspace.Asmux.Attachment.{teardown}
use agent_workspace.Asmux.Dispatch.{Decoders, dispatch, read_turn}
use agent_workspace.Asmux.Dispatch.Handlers.{
  Accounts, change-Accounts, cap-detach, found-Accounts, changed-Accounts, handle_hello-Accounts,
  handle_create-Accounts, handle_kill-Accounts, handle_purge-Accounts, handle_list-Accounts,
  handle_update_metadata-Accounts, handle_resize-Accounts, handle_read_buffer-Accounts,
  handle_attach-Accounts, handle_detach-Accounts, handle_input-Accounts,
}

dispatch-Accounts :
    (w : World) (d : Decoders) (sv : Server) (c : Conn) (ordinal : ℕ) (body : List ℕ)
    → Accounts sv
    → Accounts (dispatch w d sv c ordinal body).server
unfolding dispatch
dispatch-Accounts w d sv c ordinal body v = ground (
  arith,
  handle_hello-Accounts sv c (d.as_hello body) v,
  handle_create-Accounts w sv c (d.as_create body) v,
  handle_kill-Accounts w sv c (d.as_kill body) v,
  handle_purge-Accounts sv c (d.as_purge body) v,
  handle_list-Accounts sv c (d.as_list body) v,
  handle_update_metadata-Accounts sv c (d.as_update_metadata body) v,
  handle_resize-Accounts w sv c (d.as_resize body) v,
  handle_read_buffer-Accounts w sv c (d.as_read_buffer body) v,
  handle_attach-Accounts sv c (d.as_attach body) v,
  handle_detach-Accounts sv c (d.as_detach body) v,
  handle_input-Accounts sv c (d.as_input body) v,
)

read_turn-Accounts :
    (w : World) (d : Decoders) (sv : Server) (c : Conn) (i : Result FrameError Incoming)
    → Accounts sv
    → Accounts (read_turn w d sv c i).server
unfolding read_turn
read_turn-Accounts w d sv c (ok eof) v = v
read_turn-Accounts w d sv c (ok (frame ordinal body)) v =
    ground (arith, dispatch-Accounts w d sv c ordinal body v)
read_turn-Accounts w d sv c (err too_large) v = v
read_turn-Accounts w d sv c (err malformed) v = v
read_turn-Accounts w d sv c (err io) v = v

teardown-Accounts :
    (sv : Server) (conn_id : ℕ) (owned : Assoc ℕ)
    → Accounts sv
    → Accounts (teardown sv conn_id owned).0
unfolding teardown
teardown-Accounts sv conn_id [] v = v
teardown-Accounts sv conn_id ((sid, cancel) ∷ owned) v =
    elim (Option-cases (Registry.get sv.registry sid).0) [
      | inl e ↦
          rw (e, teardown)
            (teardown-Accounts (record sv { registry = (Registry.get sv.registry sid).1 }) conn_id
              owned (found-Accounts sv sid v))
      | inr (s, e) ↦
          rw (e, teardown)
            (teardown-Accounts
              (change (record sv { registry = (Registry.get sv.registry sid).1 }) sid
                (λ t. detach t conn_id))
              conn_id owned
              (changed-Accounts sv sid (λ t. detach t conn_id) (λ t. cap-detach t conn_id) v))
    ]

-- What happens next at the server: a connection reads, a connection ends, or a session's own
-- threads or stream change it, which leaves its capacity as it is.
pub data Event : Type 0 where
  reads : World → Conn → Result FrameError Incoming → Event
  ends : ℕ → Assoc ℕ → Event
  changes : String → (f : Session → Session) → ((s : Session) → capacity (f s) ≡ capacity s) → Event

unfoldable pub happen : Decoders → Server → Event → Server
happen d sv (reads w c i) = (read_turn w d sv c i).server
happen d sv (ends conn_id owned) = (teardown sv conn_id owned).0
happen d sv (changes sid f keeps) = change sv sid f

unfoldable pub serve : Decoders → Server → List Event → Server
serve d sv [] = sv
serve d sv (e ∷ es) = serve d (happen d sv e) es

happen-Accounts : (d : Decoders) (sv : Server) (e : Event) → Accounts sv → Accounts (happen d sv e)
unfolding happen
happen-Accounts d sv (reads w c i) v = read_turn-Accounts w d sv c i v
happen-Accounts d sv (ends conn_id owned) v = teardown-Accounts sv conn_id owned v
happen-Accounts d sv (changes sid f keeps) v = change-Accounts sv sid f keeps v

-- If a server's accounting holds (the session ids are unique, the ring capacities of all sessions
-- add up to the used bytes, and these are within a limit below 2^64-1) and every ring's capacity is
-- between 16 KiB and 32 MiB, then both still hold after any sequence of frames read by any
-- connections, ends of connections, and changes of sessions that keep their capacity, whatever the
-- frames hold.
pub serve-IsSound :
    (d : Decoders) (sv : Server) (es : List Event)
    → IsSound sv.registry
    → IsSound (serve d sv es).registry
unfolding serve
serve-IsSound d sv [] v = v
serve-IsSound d sv (e ∷ es) v = serve-IsSound d (happen d sv e) es (happen-Accounts d sv e v)
