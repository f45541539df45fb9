-- ===== src/Asmux/Attachment.antt =====
-- crates/asmux/src/server.rs: attaching to a session, detaching, input, and the end of a connection.
pub mod Takeover
mod Tests
use agent_workspace.Prelude.{
  ℕ, ◌+◌, String, true, Option, none, some, List, [], ◌∷◌, ◌++◌, ltb, ◌==◌, if◌then◌else◌,
  unwrap_or, Assoc, lookup, insert, remove, Result, ok, err,
}
use agent_workspace.Asmux.Ring.{tail}
use agent_workspace.Asmux.Session
use agent_workspace.Asmux.Session.{
  Session, Attacher, is_alive, is_attached_by, attach, detach, InputOutcome, queued, overflow,
  not_alive,
}
use agent_workspace.Asmux.Registry
use agent_workspace.Asmux.Registry.{Registry}
use agent_workspace.Asmux.Wire.{
  Frame, AttachMode, live_only, from_earliest, from_cursor, SessionRequest, AttachRequest,
  SessionInput, attach_response, detach_response, session_detached, superseded, error,
  session_not_alive, buffer_gap, invalid_argument, not_attached, input_overflow,
}
use agent_workspace.Asmux.Server.{
  Server, Conn, Reaction, reply, quiet, reject_malformed_body, with_session, change,
}

-- Where the stream starts, or the error that refuses the cursor.
unfoldable pub start_cursor : AttachMode → ℕ → ℕ → ℕ → ℕ → String → Result Frame ℕ
start_cursor live_only from head earliest rpc sid = ok head
start_cursor from_earliest from head earliest rpc sid = ok earliest
start_cursor from_cursor from head earliest rpc sid =
    if ltb head from
    then err (error rpc invalid_argument (some sid) 0)
    else if ltb from earliest
    then err (error rpc buffer_gap (some sid) earliest)
    else ok from

-- The evicted attacher's connection is told if it is another one, and its stream is cancelled.
abbrev evicted_frames : Conn → String → ℕ → Option Attacher → List (ℕ × Frame)
evicted_frames c sid head none = []
evicted_frames c sid head (some old) =
    if old.conn_id == c.id then [] else (old.conn_id, session_detached sid superseded head) ∷ []

abbrev evicted_cancels : Option Attacher → List ℕ
evicted_cancels none = []
evicted_cancels (some old) = old.cancel ∷ []

abbrev prior_cancels : Option ℕ → List ℕ
prior_cancels none = []
prior_cancels (some prev) = prev ∷ []

unfoldable pub install : Server → Conn → Session → ℕ → String → ℕ → Reaction
install sv c s rpc sid start =
    let cancel = sv.next_cancel in
    let head = s.ring.head in
    record {
      server =
          change (record sv { next_cancel = cancel + 1 }) sid
            (λ t. (attach t (record { conn_id = c.id; cancel = cancel })).1);
      conn = record c { streams = insert sid cancel c.streams };
      sent = evicted_frames c sid head s.attacher ++ (c.id, attach_response rpc head) ∷ [];
      cancelled = evicted_cancels s.attacher ++ prior_cancels (lookup sid c.streams);
      killed = none;
      stream = some (record {
        sid = sid;
        cursor = start;
        cancel = cancel;
        is_live_attach = is_alive s;
        reported_drops = s.dropped_events;
      });
      is_open = true;
    }

unfoldable pub handle_attach : Server → Conn → Option AttachRequest → Reaction
handle_attach sv c none = reject_malformed_body sv c
handle_attach sv c (some r) =
    let rpc = unwrap_or 0 r.target.rpc_id in
    let sid = unwrap_or "" r.target.session_id in
    with_session sv c rpc sid λ s sv'.
      elim (start_cursor (unwrap_or live_only r.mode) (unwrap_or 0 r.from_cursor) s.ring.head
        (tail s.ring) rpc sid) [ err f ↦ reply sv' c f | ok start ↦ install sv' c s rpc sid start ]

unfoldable pub handle_detach : Server → Conn → Option SessionRequest → Reaction
handle_detach sv c none = reject_malformed_body sv c
handle_detach sv c (some r) =
    let rpc = unwrap_or 0 r.rpc_id in
    let sid = unwrap_or "" r.session_id in
    let (found, registry) = Registry.get sv.registry sid in
    let sv' : Server = record sv { registry = registry } in
    elim found [
      | none ↦ reply sv' c (error rpc not_attached (some sid) 0)
      | some s ↦
          if is_attached_by s c.id
          then record (reply (change sv' sid (λ t. detach t c.id))
              (record c { streams = remove sid c.streams }) (detach_response rpc)) {
                cancelled = prior_cancels (lookup sid c.streams);
              }
          else reply sv' c (error rpc not_attached (some sid) 0)
    ]

-- Input answers only where it fails.
abbrev input_reply : Server → Conn → String → InputOutcome → Reaction
input_reply sv c sid queued = quiet sv c
input_reply sv c sid overflow = reply sv c (error 0 input_overflow (some sid) 0)
input_reply sv c sid not_alive = reply sv c (error 0 session_not_alive (some sid) 0)

unfoldable pub handle_input : Server → Conn → Option SessionInput → Reaction
handle_input sv c none = reject_malformed_body sv c
handle_input sv c (some r) =
    let sid = unwrap_or "" r.session_id in
    with_session sv c 0 sid λ s sv'.
      if is_attached_by s c.id
      then elim r.input [
        | none ↦ quiet sv' c
        | some input ↦
            input_reply (change sv' sid (λ t. (Session.send_input t input).1)) c sid
              (Session.send_input s input).0
      ]
      else reply sv' c (error 0 not_attached (some sid) 0)

-- The end of a connection: every stream that it owns is cancelled, and its sessions are detached.
unfoldable pub teardown : Server → ℕ → Assoc ℕ → Server × List ℕ
teardown sv conn_id [] = (sv, [])
teardown sv conn_id ((sid, cancel) ∷ owned) =
    let (found, registry) = Registry.get sv.registry sid in
    let sv' : Server = record sv { registry = registry } in
    let next : Server = elim found [
      | none ↦ sv'
      | some s ↦ change sv' sid (λ t. detach t conn_id)
    ] in
    let (last, cancelled) = teardown next conn_id owned in (last, cancel ∷ cancelled)
