-- ===== src/Asmux/Stream.antt =====
-- crates/asmux/src/server.rs: `stream_session`, which sends a session's output to its attacher.
pub mod Output
pub mod Ending
mod Tests
use agent_workspace.Prelude.{
  ℕ, Bool, false, not, ◌&&◌, ◌||◌, none, some, List, [], ◌∷◌, ◌++◌, leb, ◌==◌, if◌then◌else◌,
  sat_add, length, lookup, remove,
}
use agent_workspace.Asmux.Ring.{bytes, gap, invalid}
use agent_workspace.Asmux.Session
use agent_workspace.Asmux.Session.{Session, is_alive, exit_code_of, exit_signal_of, detach}
use agent_workspace.Asmux.Wire.{
  Frame, session_exited, session_detached, session_output, backpressure, error, alloc_failed,
}
use agent_workspace.Asmux.Server.{Conn, StreamTask}

-- How an iteration of the loop ends: it goes on, it waits for new output, or the stream is over.
pub data Next : Type 0 where
  again wait over : Next

-- The frames on the control and on the data channel.
pub record Iteration : Type 0 where
  pub task : StreamTask
  pub ctrl : List Frame
  pub output : List Frame
  pub next : Next

-- The session as an iteration sees it, each time that it takes one of the session's locks: for the
-- dropped events, for the read, for `is_alive`, for the head that the cursor is compared with, and
-- for the status and the head of the report.
pub record Views : Type 0 where
  pub at_drops : Session
  pub at_read : Session
  pub at_alive : Session
  pub at_head : Session
  pub at_status : Session
  pub at_report : Session

abbrev drop_report : Session → StreamTask → List Frame
drop_report s t =
    if s.dropped_events == t.reported_drops then [] else error 0 alloc_failed (some t.sid) 0 ∷ []

-- At the head: a session that has ended is reported to an attacher that came while it lived.
abbrev caught_up : Bool → Views → StreamTask → List Frame → Iteration
caught_up cancelled v t ctrl =
    if not (is_alive v.at_alive) && leb v.at_head.ring.head t.cursor
    then record {
      task = t;
      ctrl =
          ctrl
          ++ (if t.is_live_attach
              then session_exited t.sid (exit_code_of v.at_status.status)
                  (exit_signal_of v.at_status.status) v.at_report.ring.head
                ∷ []
              else []);
      output = [];
      next = over;
    }
    else record { task = t; ctrl = ctrl; output = []; next = if cancelled then over else wait }

-- `cancelled` is whether the stream's `Notify` has been woken, `is_sendable` whether the data
-- channel still takes a frame.
abbrev send_output : Bool → Bool → StreamTask → List Frame → ℕ → List ℕ → Iteration
send_output cancelled is_sendable t ctrl from input =
    let cursor = sat_add from (length input) in
    let t' : StreamTask = record t { cursor = cursor } in
    if cancelled || not is_sendable
    then record { task = t'; ctrl = ctrl; output = []; next = over }
    else record {
      task = t';
      ctrl = ctrl;
      output = session_output t.sid cursor input ∷ [];
      next = again;
    }

unfoldable pub stream_iteration : ℕ → Bool → Bool → Views → StreamTask → Iteration
stream_iteration split cancelled is_sendable v t =
    let ctrl = drop_report v.at_drops t in
    let t' : StreamTask = record t { reported_drops = v.at_drops.dropped_events } in
    elim (Session.read_at split v.at_read t.cursor 0) [
      | invalid ↦ record { task = t'; ctrl = ctrl; output = []; next = over }
      | gap earliest ↦ record {
        task = t';
        ctrl = ctrl ++ session_detached t.sid backpressure t.cursor ∷ [];
        output = [];
        next = over;
      }
      | bytes from [] ↦ caught_up cancelled v t' ctrl
      | bytes from (b ∷ bs) ↦ send_output cancelled is_sendable t' ctrl from (b ∷ bs)
    ]

-- The end of the task: its registration goes if it is still its own, and the session is detached.
unfoldable pub end_stream : Conn → StreamTask → Session → Conn × Session
end_stream c t s =
    let ours : Bool = elim (lookup t.sid c.streams) [ none ↦ false | some k ↦ k == t.cancel ] in
    (if ours then record c { streams = remove t.sid c.streams } else c, detach s c.id)
