-- ===== src/Daemon/Monitor/Echo.antt =====
-- crates/daemon/src/session_manager/monitor.rs: the echo of typed keys at an idle prompt, and the
-- work that follows a submitted line.
use agent_workspace.Prelude.{
  ℕ, ◌+◌, ◌<◌, String, ◌≡◌, ◌≢◌, false, Option, List, arith, if◌then◌else◌,
}
use agent_workspace.Daemon.Domain.{activity, idle}
use agent_workspace.Daemon.Store.Sessions.{update_activity}
use agent_workspace.Daemon.Monitor.{
  Plugin, Moment, Monitor, Verdict, untracked, take_in, verdict_on, open_block, must_write, judge,
  on_chunk, interact, submits, echo_window,
}
use agent_workspace.Daemon.Monitor.Blocks.{on_output-tracked}
use agent_workspace.Daemon.Monitor.Release.{ShowsWork}

-- Work at an idle prompt, soon after input.
judge_after_input :
    (id : String) (at : Moment) (v : Verdict) (m : Monitor)
    → v.0 ≡ activity
    → m.watch.last_attn ≡ idle
    → m.sig.last_input_ms ≢ 0
    → at.now < m.sig.last_input_ms + echo_window
    → ((judge id at v m).watch.last_attn ≡ (if m.sig.submitted then activity else idle))
      × ((judge id at v m).db ≡ (
          if m.sig.submitted
          then update_activity m.db id at.last_seq at.now activity v.1
          else m.db))
unfolding judge must_write
judge_after_input id at v m w q n l = ground arith

-- The monitor after the user typed.
abbrev pub after_typing : ℕ → List ℕ → Monitor → Monitor
after_typing now keys m = record m { sig = interact now keys m.sig }

-- For an agent with a badge, idle and with no line submitted: of output that comes within a second
-- of typed keys and is read as work, the one that follows a submitted line makes the session
-- working, on record as well, and any other leaves it idle and the store as it was.
pub on_chunk-after_typing :
    (id : String) (plugin : Option Plugin) (at : Moment) (bytes keys : List ℕ) (typed_at : ℕ)
    → (m : Monitor) → untracked plugin ≡ false
    → ShowsWork plugin at
    → m.watch.last_attn ≡ idle
    → m.sig.submitted ≡ false
    → typed_at ≢ 0
    → at.now < typed_at + echo_window
    → let end = on_chunk id plugin at bytes (after_typing typed_at keys m) in
      (end.watch.last_attn ≡ (if submits keys then activity else idle))
      × (end.db ≡ (
          if submits keys
          then update_activity m.db id at.last_seq at.now activity (verdict_on plugin at bytes m).1
          else m.db))
unfolding on_chunk interact
on_chunk-after_typing id plugin at bytes keys typed_at m t w q s n l = ground (
  arith,
  on_output-tracked id plugin at bytes (open_block (after_typing typed_at keys m)) t,
  judge_after_input id at (verdict_on plugin at bytes (open_block (after_typing typed_at keys m)))
      (take_in plugin at bytes (open_block (after_typing typed_at keys m))) (w _ _),
)
