-- ===== src/Daemon/Monitor.antt =====
-- crates/daemon/src/session_manager/monitor.rs and mod.rs: what the monitor of one session does
-- with output, silence and the user's input. Text is its bytes in UTF-8. The plugin's answers, the
-- clock, the rendered screen and the decoding of output are arguments.
pub mod Ending
pub mod Blocks
pub mod Release
pub mod Echo
pub mod Badge
mod Tests
use agent_workspace.Prelude.{
  ℕ, ◌+◌, String, Bool, true, false, not, ◌&&◌, ◌||◌, Option, none, some, List, [], ◌∷◌, ◌++◌, ltb,
  leb, ◌==◌, if◌then◌else◌,
}
use agent_workspace.Daemon.Domain.{
  AttentionState, quiet, activity, idle, error, needs_user, same_attention,
}
use agent_workspace.Daemon.Store.{Db}
use agent_workspace.Daemon.Store.Sessions.{update_activity, set_attention, clear_attention_for_view}
use agent_workspace.Daemon.Bell.{scan_bell, trim_tail}

-- `ECHO_WINDOW`, and `ACTIVITY_DEBOUNCE_MS`.
abbrev pub echo_window : ℕ
echo_window = 1000

abbrev activity_debounce_ms : ℕ
activity_debounce_ms = 400

abbrev tail_bytes : ℕ
tail_bytes = 4096

abbrev pub Text : Type 0
Text = List ℕ

abbrev pub Verdict : Type 0
Verdict = AttentionState × Option String

-- What the agent's plugin answers.
pub record Plugin : Type 0 where
  pub tracks_attention : Bool
  pub bell_means_attention : Bool
  pub attention_uses_screen : Bool
  pub attention : Text → Bool → Verdict
  pub idle_error : Text → Option String
  pub idle_busy : Text → Bool

pub record Interaction : Type 0 where
  pub reset : Bool
  pub last_input_ms : ℕ
  pub submitted : Bool

abbrev pub untouched : Interaction
untouched = record { reset = false; last_input_ms = 0; submitted = false }

-- The monitor task's own variables.
pub record Watch : Type 0 where
  pub tail : Text
  pub last_write : ℕ
  pub last_attn : AttentionState
  pub in_osc : Bool

abbrev pub fresh : Watch
fresh = record { tail = []; last_write = 0; last_attn = quiet; in_osc = false }

pub record Monitor : Type 0 where
  pub db : Db
  pub watch : Watch
  pub sig : Interaction

-- What the backend and the clock give at an event. `default_attention` is that of the plugins.
pub record Moment : Type 0 where
  pub now : ℕ
  pub screen : Text
  pub last_seq : ℕ
  pub decoded : Text
  pub default_attention : Text → Bool → Verdict

unfoldable pub must_write : AttentionState → AttentionState → ℕ → ℕ → Bool
must_write attention previous now last_write =
    not (same_attention attention activity)
    || (not (same_attention attention previous) || leb (last_write + activity_debounce_ms) now)

abbrev pub untracked : Option Plugin → Bool
untracked none = false
untracked (some p) = not p.tracks_attention

abbrev trusts_bell : Option Plugin → Bool
trusts_bell none = false
trusts_bell (some p) = p.bell_means_attention

-- The plugin's verdict on the tail or the screen.
abbrev pub classify : Option Plugin → Moment → Text → Bool → Verdict
classify none at tail bell = at.default_attention tail bell
classify (some p) at tail bell =
    p.attention (if p.attention_uses_screen then at.screen else tail) bell

-- `scan_bell` is only called for a plugin that trusts the bell.
abbrev hear : Option Plugin → List ℕ → Bool → Bool × Bool
hear plugin bytes in_osc = if trusts_bell plugin then scan_bell bytes in_osc else (false, in_osc)

-- Output within the window of the last input, which submitted no line, at an idle prompt.
abbrev is_echo : Moment → Interaction → AttentionState → AttentionState → Bool
is_echo at sig raw last_attn =
    same_attention raw activity
    && (same_attention last_attn idle
        && (not sig.submitted
            && (not (sig.last_input_ms == 0) && ltb at.now (sig.last_input_ms + echo_window))))

-- What is shown for a verdict: plain output does not clear a block.
abbrev pub settle : AttentionState → AttentionState → AttentionState
settle raw previous = if same_attention raw activity && needs_user previous then previous else raw

-- The verdict on a chunk, written if it must be.
unfoldable pub judge : String → Moment → Verdict → Monitor → Monitor
judge id at verdict m =
    let previous = m.watch.last_attn in
    let attention = settle verdict.0 previous in
    if is_echo at m.sig verdict.0 previous
    then m
    else if must_write attention previous at.now m.watch.last_write
    then record m {
      watch = record (m.watch) { last_attn = attention; last_write = at.now };
      db = update_activity m.db id at.last_seq at.now attention verdict.1;
    }
    else record m { watch = record (m.watch) { last_attn = attention } }

-- A shell's activity, at most once in the debounce time.
unfoldable pub record_activity : String → Moment → Monitor → Monitor
record_activity id at m =
    if leb (m.watch.last_write + activity_debounce_ms) at.now
    then record m {
      watch = record (m.watch) { last_write = at.now };
      db = update_activity m.db id at.last_seq at.now quiet none;
    }
    else m

-- The tail and the bell parser take the chunk.
abbrev pub take_in : Option Plugin → Moment → List ℕ → Monitor → Monitor
take_in plugin at bytes m = record m {
  watch = record (m.watch) {
    tail = trim_tail (m.watch.tail ++ at.decoded) tail_bytes;
    in_osc = (hear plugin bytes m.watch.in_osc).1;
  };
}

-- The verdict on the chunk.
abbrev pub verdict_on : Option Plugin → Moment → List ℕ → Monitor → Verdict
verdict_on plugin at bytes m =
    classify plugin at (trim_tail (m.watch.tail ++ at.decoded) tail_bytes)
      (hear plugin bytes m.watch.in_osc).0

unfoldable pub on_output : String → Option Plugin → Moment → List ℕ → Monitor → Monitor
on_output id plugin at bytes m =
    if untracked plugin
    then record_activity id at m
    else judge id at (verdict_on plugin at bytes m) (take_in plugin at bytes m)

-- A pending signal takes a block away before the chunk is judged.
abbrev pub open_block : Monitor → Monitor
open_block m =
    if m.sig.reset && needs_user m.watch.last_attn
    then record m { watch = record (m.watch) { last_attn = quiet } }
    else m

-- The signal is spent once the session has left the block.
abbrev pub spend : Bool → Monitor → Monitor
spend armed m =
    if armed && not (needs_user m.watch.last_attn)
    then record m { sig = record (m.sig) { reset = false } }
    else m

unfoldable pub on_chunk : String → Option Plugin → Moment → List ℕ → Monitor → Monitor
on_chunk id plugin at bytes m = spend m.sig.reset (on_output id plugin at bytes (open_block m))

abbrev pub settled_at_idle : Option String → Verdict
settled_at_idle (some reason) = (error, some reason)
settled_at_idle none = (idle, some "idle — waiting for input")

unfoldable pub settle_idle : String → Moment → Option String → Monitor → Monitor
settle_idle id at stopped_on_error m =
    let verdict = settled_at_idle stopped_on_error in
    record {
      db = set_attention m.db id verdict.0 verdict.1 at.now;
      watch = record (m.watch) { last_attn = verdict.0 };
      sig = record (m.sig) { submitted = false };
    }

unfoldable pub on_idle : String → Option Plugin → Moment → Monitor → Monitor
on_idle id plugin at m =
    if same_attention m.watch.last_attn activity
    then elim plugin [
      | none ↦ settle_idle id at none m
      | some p ↦ if p.idle_busy at.screen then m else settle_idle id at (p.idle_error at.screen) m
    ]
    else m

-- CR or LF.
abbrev pub submits : List ℕ → Bool
submits [] = false
submits (b ∷ bs) = (b == 13 || b == 10) || submits bs

-- The effect of input on the session's signal.
unfoldable pub interact : ℕ → List ℕ → Interaction → Interaction
interact now bytes sig = record {
  last_input_ms = now;
  submitted = sig.submitted || submits bytes;
  reset = true;
}

-- The effect of a view on the badge and the signal.
unfoldable pub acknowledge : String → ℕ → Monitor → Monitor
acknowledge id now m = record m {
  db = clear_attention_for_view m.db id now;
  sig = record (m.sig) { reset = true };
}

-- What happens to a session, from the monitor's side.
pub data Event : Type 0 where
  chunk : Moment → List ℕ → Event
  silence : Moment → Event
  typed : ℕ → List ℕ → Event
  viewed : ℕ → Event

unfoldable pub step : String → Option Plugin → Monitor → Event → Monitor
step id plugin m (chunk at bytes) = on_chunk id plugin at bytes m
step id plugin m (silence at) = on_idle id plugin at m
step id plugin m (typed now bytes) = record m { sig = interact now bytes m.sig }
step id plugin m (viewed now) = acknowledge id now m

unfoldable pub run : String → Option Plugin → Monitor → List Event → Monitor
run id plugin m [] = m
run id plugin m (e ∷ es) = run id plugin (step id plugin m e) es
