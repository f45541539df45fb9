-- ===== src/Asmux/Stream/Ending.antt =====
-- server.rs: how a stream ends: by the exit of its session, by falling behind the ring, or by
-- being cancelled; and what its end does to the attachment.
use agent_workspace.Prelude.{
  ℕ, suc, ◌-◌, ◌≤◌, ◌<◌, min, String, ◌≡◌, refl, ap, ◌∙◌, ◌≢◌, Bool, true, not, ◌&&◌, none, some,
  List, [], ◌∷◌, ◌++◌, append-nil, arith, str_eq, eq_iff, leb, ◌==◌, if◌then◌else◌, u64_max, length,
  drop, length-take, length-drop, length-append, lookup, lookup-insert, lookup-remove, ℤ,
}
use agent_workspace.Asmux.Ring.{tail, bytes, gap}
use agent_workspace.Asmux.Ring.History.{Holds}
use agent_workspace.Asmux.Ring.Reads.{read_history, read_at-Holds}
use agent_workspace.Asmux.Session
use agent_workspace.Asmux.Session.{
  Session, stream_chunk, is_alive, is_attached_by, attach, exit_code_of, exit_signal_of,
}
use agent_workspace.Asmux.Wire.{
  Frame, session_exited, session_output, session_detached, backpressure, error,
}
use agent_workspace.Asmux.Server.{Server, Conn, StreamTask}
use agent_workspace.Asmux.Attachment.{install}
use agent_workspace.Asmux.Stream.{Views, over, stream_iteration, end_stream, drop_report}
use agent_workspace.Asmux.Stream.Output.{iteration_read, next_bytes}

-- The exits that the control frames report: the code, the signal and the cursor.
unfoldable pub exits_of : List Frame → List (ℤ × ℤ × ℕ)
exits_of [] = []
exits_of (session_exited sid code signal head ∷ fs) = (code, signal, head) ∷ exits_of fs
exits_of (_ ∷ fs) = exits_of fs

exits-append : (fs gs : List Frame) → exits_of (fs ++ gs) ≡ exits_of fs ++ exits_of gs
unfolding exits_of
exits-append [] gs = refl
exits-append (session_exited sid code signal head ∷ fs) gs =
    ap (◌∷◌ (code, signal, head)) (exits-append fs gs)
exits-append (session_detached sid reason last ∷ fs) gs = exits-append fs gs
exits-append (session_output sid head input ∷ fs) gs = exits-append fs gs
exits-append (error rpc code sid earliest ∷ fs) gs = exits-append fs gs
exits-append (_ ∷ fs) gs = exits-append fs gs

exits-drop_report : (s : Session) (t : StreamTask) → exits_of (drop_report s t) ≡ []
unfolding exits_of
exits-drop_report s t = ground arith

-- The exit as the session has it at the report.
abbrev exit_report : Views → List (ℤ × ℤ × ℕ)
exit_report v =
    (exit_code_of v.at_status.status, exit_signal_of v.at_status.status, v.at_report.ring.head) ∷ []

exits_read :
    (split : ℕ) (cancelled is_sendable : Bool) (v : Views) (t : StreamTask) (input : List ℕ)
    → Session.read_at split v.at_read t.cursor 0 ≡ bytes t.cursor input
    → exits_of (stream_iteration split cancelled is_sendable v t).ctrl ≡ (
        if not (is_alive v.at_alive)
          && (t.is_live_attach && (leb v.at_head.ring.head t.cursor && length input == 0))
        then exit_report v
        else [])
unfolding stream_iteration exits_of
exits_read split cancelled is_sendable v t [] e = ground (
  arith,
  exits-drop_report v.at_drops t,
  exits-append (drop_report v.at_drops t) (
      session_exited t.sid (exit_code_of v.at_status.status) (exit_signal_of v.at_status.status)
        v.at_report.ring.head
      ∷ []),
  append-nil (drop_report v.at_drops t),
)
exits_read split cancelled is_sendable v t (b ∷ bs) e =
    ground (arith, exits-drop_report v.at_drops t)

-- With nothing before the head, the cursor is at it and the read was empty.
at_end :
    (before head c m n : ℕ)
    → c ≤ before
    → before ≤ head
    → n ≡ min (suc m) (before - c)
    → (leb head c && n == 0) ≡ (c == head)
at_end before head c m n early grown e = ground arith

-- Of a session that may put out more bytes between an iteration's read and its look at the head:
-- while the cursor is within the ring at the read, the iteration reports the exit of its session
-- exactly when the session has ended by then, the attacher came while it lived, and the cursor is
-- at the end of the whole output, the bytes that came after the read included; the report has the
-- status and the head that the session has at the report.
pub iteration_exit :
    (split : ℕ) (cancelled is_sendable : Bool) (v : Views) (t : StreamTask) (h later : List ℕ)
    → Holds v.at_read.ring h
    → Holds v.at_head.ring (h ++ later)
    → length h ≤ u64_max
    → tail v.at_read.ring ≤ t.cursor
    → t.cursor ≤ length h
    → exits_of (stream_iteration split cancelled is_sendable v t).ctrl ≡ (
        if not (is_alive v.at_alive) && (t.is_live_attach && t.cursor == length (h ++ later))
        then exit_report v
        else [])
iteration_exit split cancelled is_sendable v t h later holds grown small late early =
    exits_read split cancelled is_sendable v t (next_bytes h t.cursor)
      (iteration_read split v.at_read h t.cursor holds small late early)
    ∙ ap (λ b. if not (is_alive v.at_alive) && (t.is_live_attach && b) then exit_report v else [])
        (at_end (length h) v.at_head.ring.head t.cursor (stream_chunk - 1)
            (length (next_bytes h t.cursor)) early
            (omega (arith, grown.counts, length-append h later))
            (omega (arith, length-take stream_chunk (drop t.cursor h), length-drop t.cursor h))
          ∙ ap (λ k. t.cursor == k) grown.counts)

behind_history :
    (earliest from bound : ℕ) (h : List ℕ)
    → from < earliest
    → earliest ≤ length h
    → read_history earliest h from bound ≡ gap earliest
unfolding read_history
behind_history earliest from bound h behind inside = ground arith

sends_gap :
    (split : ℕ) (cancelled is_sendable : Bool) (v : Views) (t : StreamTask) (earliest : ℕ)
    → Session.read_at split v.at_read t.cursor 0 ≡ gap earliest
    → let i = stream_iteration split cancelled is_sendable v t in
      (i.output ≡ [])
      × (i.next ≡ over)
      × (i.ctrl ≡ drop_report v.at_drops t ++ session_detached t.sid backpressure t.cursor ∷ [])
unfolding stream_iteration
sends_gap split cancelled is_sendable v t earliest e = ground arith

-- An iteration of a stream whose cursor the ring has passed sends no output: it reports the drops
-- that are new, says once that the stream fell behind, with the cursor that it had reached, and
-- ends the stream.
pub iteration_behind :
    (split : ℕ) (cancelled is_sendable : Bool) (v : Views) (t : StreamTask) (h : List ℕ)
    → Holds v.at_read.ring h
    → length h ≤ u64_max
    → t.cursor < tail v.at_read.ring
    → let i = stream_iteration split cancelled is_sendable v t in
      (i.output ≡ [])
      × (i.next ≡ over)
      × (i.ctrl ≡ drop_report v.at_drops t ++ session_detached t.sid backpressure t.cursor ∷ [])
iteration_behind split cancelled is_sendable v t h holds small behind =
    sends_gap split cancelled is_sendable v t (tail v.at_read.ring) (
      read_at-Holds split v.at_read.ring h t.cursor stream_chunk holds small
      ∙ behind_history (tail v.at_read.ring) t.cursor stream_chunk h behind
          (omega (arith, holds.counts)))

-- The end of a stream takes away its registration only where that is still its own, but detaches
-- its session wherever the attacher is of the same connection, also by a later attach.
pub end_stream_lem :
    (c : Conn) (t : StreamTask) (s : Session) (k : String)
    → let (c', s') = end_stream c t s in
      (lookup k c'.streams ≡ (
        if str_eq t.sid k
        then elim (lookup k c.streams) [
          | none ↦ none
          | some j ↦ if j == t.cancel then none else some j
        ]
        else lookup k c.streams))
      × (s'.attacher ≡ (if is_attached_by s c.id then none else s.attacher))
unfolding end_stream
end_stream_lem c t s k = ground (arith, lookup-remove t.sid k c.streams, eq_iff t.sid k)

-- When a connection attaches to a session again, the end of its own earlier stream leaves the new
-- registration in place, but detaches the session that the new attach has just taken.
pub reattach_lem :
    (sv : Server) (c : Conn) (s : Session) (rpc start : ℕ) (old : StreamTask)
    → old.cancel ≢ sv.next_cancel
    → let r = install sv c s rpc old.sid start in
      let attached = (attach s (record { conn_id = c.id; cancel = sv.next_cancel })).1 in
      let (c', s') = end_stream r.conn old attached in
      (lookup old.sid c'.streams ≡ some sv.next_cancel)
      × (is_attached_by attached c.id ≡ true)
      × (s'.attacher ≡ none)
unfolding install end_stream
reattach_lem sv c s rpc start old fresh =
    ground (arith, lookup-insert old.sid old.sid sv.next_cancel c.streams, eq_iff old.sid old.sid)
