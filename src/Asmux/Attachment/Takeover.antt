-- ===== src/Asmux/Attachment/Takeover.antt =====
-- server.rs: who is attached to a session, through attaching, input, detaching and teardown.
use agent_workspace.Prelude.{
  ℕ, ◌≤◌, String, ◌≡◌, ◌≢◌, Bool, false, ◌&&◌, Option, none, some, List, [], ◌∷◌, ◌++◌, arith,
  str_eq, eq_iff, ltb, leb, ◌==◌, if◌then◌else◌, unwrap_or, Assoc, lookup, lookup-insert,
  lookup-adjust, map, map_option, contains, Result, ok, err,
}
use agent_workspace.Asmux.Ring.{tail}
use agent_workspace.Asmux.Session.{Session, Attacher, is_attached_by, attach, detach}
use agent_workspace.Asmux.Registry
use agent_workspace.Asmux.Wire.{
  Frame, AttachMode, live_only, from_earliest, from_cursor, SessionRequest, AttachRequest,
  SessionInput, session_detached, superseded, error, not_attached, unknown_session,
  invalid_argument, buffer_gap,
}
use agent_workspace.Asmux.Server.{Server, Conn, StreamTask}
use agent_workspace.Asmux.Server.Replies.{replies_to}
use agent_workspace.Asmux.Attachment.{
  start_cursor, install, handle_attach, handle_detach, handle_input, teardown,
}

-- The attacher of a session.
abbrev pub attacher_of : Server → String → Option Attacher
attacher_of sv sid = elim (lookup sid sv.registry.sessions) [ none ↦ none | some s ↦ s.attacher ]

abbrev sid_of : SessionRequest → String
sid_of q = unwrap_or "" q.session_id

pub replies-handle_attach :
    (sv : Server) (c : Conn) (r : Option AttachRequest)
    → replies_to c.id (handle_attach sv c r).sent
      ≡ (elim r [ none ↦ 0 | some q ↦ unwrap_or 0 q.target.rpc_id ]) ∷ []
unfolding handle_attach replies_to Registry.get install start_cursor
replies-handle_attach sv c none = ground arith
replies-handle_attach sv c (some q) = ground arith

pub replies-handle_detach :
    (sv : Server) (c : Conn) (r : Option SessionRequest)
    → replies_to c.id (handle_detach sv c r).sent
      ≡ (elim r [ none ↦ 0 | some q ↦ unwrap_or 0 q.rpc_id ]) ∷ []
unfolding handle_detach replies_to Registry.get
replies-handle_detach sv c none = ground arith
replies-handle_detach sv c (some q) = ground arith

-- Where an attach starts to read.
abbrev asked : AttachMode → ℕ → ℕ → ℕ → ℕ
asked live_only from head earliest = head
asked from_earliest from head earliest = earliest
asked from_cursor from head earliest = from

-- An attach is let in exactly when its start lies between the ring's tail and its head.
pub start_cursor_taken :
    (m : AttachMode) (from head earliest rpc : ℕ) (sid : String)
    → earliest ≤ head
    → start_cursor m from head earliest rpc sid ≡ (
        if leb earliest (asked m from head earliest) && leb (asked m from head earliest) head
        then ok (asked m from head earliest)
        else if ltb head (asked m from head earliest)
        then err (error rpc invalid_argument (some sid) 0)
        else err (error rpc buffer_gap (some sid) earliest))
unfolding start_cursor
start_cursor_taken live_only from head earliest rpc sid h = ground arith
start_cursor_taken from_earliest from head earliest rpc sid h = ground arith
start_cursor_taken from_cursor from head earliest rpc sid h = ground arith

abbrev start_of : AttachRequest → Session → Result Frame ℕ
start_of q s =
    start_cursor (unwrap_or live_only q.mode) (unwrap_or 0 q.from_cursor) s.ring.head (tail s.ring)
      (unwrap_or 0 q.target.rpc_id) (sid_of q.target)

abbrev as_list : {A : Type 0} → Option A → List A
as_list none = []
as_list (some a) = a ∷ []

-- What is sent to a connection.
unfoldable pub frames_to : ℕ → List (ℕ × Frame) → List Frame
frames_to k [] = []
frames_to k ((to, f) ∷ fs) = let rest = frames_to k fs in if to == k then f ∷ rest else rest

-- An attach that is let in makes the connection the session's one attacher, with a fresh cancel
-- that its stream and its registration share. Of the other connections, the one that was attached
-- gets one Superseded frame, whose cursor is the session's head, wherever the stream before it had
-- got to, and no other gets any. The stream of the attacher before, and the one that this
-- connection had registered, are cancelled.
pub handle_attach_takeover :
    (sv : Server) (c : Conn) (q : AttachRequest) (s : Session) (start k : ℕ)
    → lookup (sid_of q.target) sv.registry.sessions ≡ some s
    → start_of q s ≡ ok start
    → k ≢ c.id
    → let r = handle_attach sv c (some q) in
      let sid = sid_of q.target in
      (attacher_of r.server sid ≡ some (record { conn_id = c.id; cancel = sv.next_cancel }))
      × (lookup sid r.conn.streams ≡ some sv.next_cancel)
      × (map_option {B = ℕ × ℕ} (λ (t : StreamTask). (t.cursor, t.cancel)) r.stream
          ≡ some (start, sv.next_cancel))
      × (frames_to k r.sent
          ≡ (if is_attached_by s k then session_detached sid superseded s.ring.head ∷ [] else []))
      × (r.cancelled
          ≡ map (λ (a : Attacher). a.cancel) (as_list s.attacher) ++ as_list (lookup sid c.streams))
unfolding handle_attach Registry.get Registry.touch Registry.update install frames_to
handle_attach_takeover sv c q s start k found let_in other = ground (
  arith,
  lookup-insert (sid_of q.target) (sid_of q.target) sv.next_cancel c.streams,
  eq_iff (sid_of q.target) (sid_of q.target),
  lookup-adjust (sid_of q.target) (sid_of q.target)
      (λ t. (attach t (record { conn_id = c.id; cancel = sv.next_cancel })).1) sv.registry.sessions,
)

-- An attach that is refused changes no session and no connection, and starts and cancels nothing.
pub handle_attach_refused :
    (sv : Server) (c : Conn) (q : AttachRequest) (s : Session) (f : Frame)
    → lookup (sid_of q.target) sv.registry.sessions ≡ some s
    → start_of q s ≡ err f
    → let r = handle_attach sv c (some q) in
      (r.server.registry.sessions ≡ sv.registry.sessions)
      × (r.conn ≡ c)
      × (r.sent ≡ (c.id, f) ∷ [])
      × (r.cancelled ≡ [])
      × (r.stream ≡ none)
unfolding handle_attach Registry.get Registry.touch
handle_attach_refused sv c q s f found refused = ground arith

abbrev pub released : ℕ → Option Attacher → Option Attacher
released conn_id none = none
released conn_id (some a) = if a.conn_id == conn_id then none else some a

attacher-detach :
    (s : Session) (conn_id : ℕ) → (detach s conn_id).attacher ≡ released conn_id s.attacher
attacher-detach s conn_id = ground arith

-- A detach releases its session where this connection is the attacher; another connection's
-- attachment, and every other session, stay as they were.
pub handle_detach_releases :
    (sv : Server) (c : Conn) (q : SessionRequest) (k : String)
    → let r = handle_detach sv c (some q) in
      attacher_of r.server k
      ≡ (if str_eq (sid_of q) k then released c.id (attacher_of sv k) else attacher_of sv k)
unfolding handle_detach Registry.get Registry.touch Registry.update
handle_detach_releases sv c q k = ground (
  arith,
  eq_iff (sid_of q) k,
  lookup-adjust (sid_of q) k (λ t. detach t c.id) sv.registry.sessions,
)

-- Whether a connection is attached to a session.
abbrev pub is_attached : Server → Conn → String → Bool
is_attached sv c sid = elim (attacher_of sv sid) [ none ↦ false | some a ↦ a.conn_id == c.id ]

-- Input from a connection that is not attached to the session changes no session, and is answered
-- with an error.
pub handle_input_refused :
    (sv : Server) (c : Conn) (q : SessionInput)
    → let sid = unwrap_or "" q.session_id in
      is_attached sv c sid ≡ false
      → let r = handle_input sv c (some q) in
        (r.server.registry.sessions ≡ sv.registry.sessions)
        × (r.sent
            ≡ (
              c.id,
              error 0
                  (if contains sid sv.registry.sessions then not_attached else unknown_session)
                  (some sid)
                  0,
            )
              ∷ [])
unfolding handle_input Registry.get Registry.touch
handle_input_refused sv c q e = ground arith

abbrev pub cancels : Assoc ℕ → List ℕ
cancels [] = []
cancels ((sid, cancel) ∷ owned) = cancel ∷ cancels owned

abbrev found_one : Server → ℕ → String → Server
found_one sv conn_id sid = (teardown sv conn_id ((sid, 0) ∷ [])).0

teardown_one :
    (sv : Server) (conn_id : ℕ) (sid k : String)
    → attacher_of (found_one sv conn_id sid) k
      ≡ (if str_eq sid k then released conn_id (attacher_of sv k) else attacher_of sv k)
unfolding teardown Registry.get Registry.touch Registry.update
teardown_one sv conn_id sid k =
    ground (arith, eq_iff sid k, lookup-adjust sid k (λ t. detach t conn_id) sv.registry.sessions)

-- The end of a connection cancels each stream that it owns and releases the sessions of those
-- streams that it is attached to; another connection's attachment stays.
pub teardown_releases :
    (sv : Server) (conn_id : ℕ) (owned : Assoc ℕ) (k : String)
    → let (last, cancelled) = teardown sv conn_id owned in
      (attacher_of last k
        ≡ (if contains k owned then released conn_id (attacher_of sv k) else attacher_of sv k))
      × (cancelled ≡ cancels owned)
unfolding teardown lookup
teardown_releases sv conn_id [] k = ground arith
teardown_releases sv conn_id ((sid, cancel) ∷ owned) k = ground (
  arith,
  teardown_one sv conn_id sid k,
  teardown_releases (found_one sv conn_id sid) conn_id owned k,
)
