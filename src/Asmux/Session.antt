-- ===== src/Asmux/Session.antt =====
-- crates/asmux/src/session.rs: one live session or tombstone, and its operations.
-- The pseudoterminal's own answers (whether a resize or a reservation succeeds) are arguments.
pub mod Threads
pub mod Spawn
pub mod Environment
pub mod Input
pub mod Exit
pub mod Metadata
mod Tests
use agent_workspace.Prelude.{
  ℕ, ◌*◌, String, Bool, true, false, not, ◌&&◌, Option, none, some, List, [], ◌∷◌, ◌++◌, ltb, ◌==◌,
  if◌then◌else◌, sat_add, length, remove, ℤ, pos, negsuc, wrap_add, wrap_sub,
}
use agent_workspace.Asmux.Ring
use agent_workspace.Asmux.Ring.{Ring, ReadOutcome}

-- `INPUT_QUEUE_BYTES` of crates/asmux/src/lib.rs
abbrev pub input_queue_bytes : ℕ
input_queue_bytes = 1024 * 1024

abbrev pub stream_chunk : ℕ
stream_chunk = 256 * 1024

pub data Status : Type 0 where
  running : Status
  exited : ℤ → ℤ → Status

abbrev pub is_running : Status → Bool
is_running running = true
is_running (exited code signal) = false

pub data InputOutcome : Type 0 where
  queued overflow not_alive : InputOutcome

-- `cancel` names the `Notify`, and the connection's id stands for its control channel too.
pub record Attacher : Type 0 where
  pub conn_id : ℕ
  pub cancel : ℕ

-- `data_signal` is the permit that the `Notify` stores. `holds_*` say which handles are held.
-- `pending` is the input channel, `writing` what the writer thread has taken out of it.
pub record Session : Type 0 where
  pub id : String
  pub command : String
  pub fingerprint : ℕ
  pub created_at_unix_ms : ℕ
  pub pid : ℤ
  pub geom : ℕ × ℕ
  pub ring : Ring
  pub status : Status
  pub metadata : List (String × String)
  pub data_signal : Bool
  pub dropped_events : ℕ
  pub dropped_bytes : ℕ
  pub holds_master : Bool
  pub holds_killer : Bool
  pub holds_input_tx : Bool
  pub input_queued : ℕ
  pub pending : List (List ℕ)
  pub writing : Option (List ℕ)
  pub has_writer : Bool
  pub attacher : Option Attacher

abbrev pub is_alive : Session → Bool
is_alive s = is_running s.status

-- `attach` returns the attacher that it replaces.
abbrev pub attach : Session → Attacher → Option Attacher × Session
attach s new = (s.attacher, record s { attacher = some new })

abbrev pub is_attached_by : Session → ℕ → Bool
is_attached_by s conn_id = elim s.attacher [ none ↦ false | some a ↦ a.conn_id == conn_id ]

abbrev pub detach : Session → ℕ → Session
detach s conn_id = if is_attached_by s conn_id then record s { attacher = none } else s

unfoldable pub note_output_dropped : Session → ℕ → Session
note_output_dropped s count = record s {
  dropped_events = wrap_add s.dropped_events 1;
  dropped_bytes = wrap_add s.dropped_bytes count;
  data_signal = true;
}

abbrev pub read_at : ℕ → Session → ℕ → ℕ → ReadOutcome
read_at split s from bound =
    Ring.read_at split s.ring from (if bound == 0 then stream_chunk else bound)

-- A failed send gives back the reservation that it made.
unfoldable pub send_input : Session → List ℕ → InputOutcome × Session
send_input s input =
    if not (is_alive s)
    then (not_alive, s)
    else if ltb input_queue_bytes (sat_add s.input_queued (length input))
    then (overflow, s)
    else let reserved = wrap_add s.input_queued (length input) in
      if s.holds_input_tx && s.has_writer
      then (queued, record s { input_queued = reserved; pending = s.pending ++ input ∷ [] })
      else (not_alive, record s { input_queued = wrap_sub reserved (length input) })

-- `accepted` is what the pseudoterminal answers to the resize.
unfoldable pub resize : Bool → Session → ℕ → ℕ → InputOutcome × Session
resize accepted s cols rows =
    if not (is_alive s)
    then (not_alive, s)
    else if not (s.holds_master && accepted)
    then (not_alive, s)
    else (queued, record s { geom = (cols, rows) })

pub data Signal : Type 0 where
  nothing : Signal
  signalled : ℤ → Signal
  terminated : Signal

abbrev pub is_zero : ℤ → Bool
is_zero (pos n) = n == 0
is_zero (negsuc n) = false

-- What `kill` sends to the child. `is_unix` is the platform, and `is_signal` the conversion of nix.
unfoldable pub kill : Bool → (ℤ → Bool) → Session → ℤ → Signal
kill is_unix is_signal s signal =
    if not (is_alive s)
    then nothing
    else if is_unix && (not (is_zero signal) && is_signal signal)
    then signalled signal
    else if s.holds_killer
    then terminated
    else nothing

abbrev pub release_child_handles : Session → Session
release_child_handles s = record s {
  holds_master = false;
  holds_killer = false;
  holds_input_tx = false;
}

unfoldable pub patch_pairs :
    List (String × Option String) → List (String × String) → List (String × String)
patch_pairs [] md = md
patch_pairs ((k, none) ∷ patch) md = patch_pairs patch (remove k md)
patch_pairs ((k, some v) ∷ patch) md = patch_pairs patch (remove k md ++ (k, v) ∷ [])

abbrev pub patch_metadata : Session → List (String × Option String) → Session
patch_metadata s patch = record s { metadata = patch_pairs patch s.metadata }

pub record SessionRecord : Type 0 where
  pub id : String
  pub alive : Bool
  pub pid : ℤ
  pub exit_code : ℤ
  pub exit_signal : ℤ
  pub cols : ℕ
  pub rows : ℕ
  pub head_cursor : ℕ
  pub tail_cursor : ℕ
  pub ring_capacity : ℕ
  pub created_at_unix_ms : ℕ
  pub command : String
  pub metadata : List (String × String)

abbrev pub exit_code_of : Status → ℤ
exit_code_of running = pos 0
exit_code_of (exited code signal) = code

abbrev pub exit_signal_of : Status → ℤ
exit_signal_of running = pos 0
exit_signal_of (exited code signal) = signal

unfoldable pub session_record : Session → SessionRecord
session_record s = record {
  id = s.id;
  alive = is_alive s;
  pid = s.pid;
  exit_code = exit_code_of s.status;
  exit_signal = exit_signal_of s.status;
  cols = s.geom.0;
  rows = s.geom.1;
  head_cursor = s.ring.head;
  tail_cursor = Ring.tail s.ring;
  ring_capacity = s.ring.cap;
  created_at_unix_ms = s.created_at_unix_ms;
  command = s.command;
  metadata = s.metadata;
}
