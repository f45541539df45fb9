-- ===== src/Daemon/Monitor/Release.antt =====
-- crates/daemon/src/session_manager/monitor.rs: an answered block is released by the first sign
-- of work, however many chunks still show the prompt before it.
use agent_workspace.Prelude.{
  ℕ, String, ◌≡◌, Bool, true, false, Option, some, List, [], ◌∷◌, arith, is_some, All,
}
use agent_workspace.Daemon.Domain.{quiet, activity, needs_user}
use agent_workspace.Daemon.Store.Badges.{badge, badge-update_activity}
use agent_workspace.Daemon.Monitor.{
  Plugin, Moment, Monitor, Verdict, Text, untracked, classify, take_in, verdict_on, open_block,
  must_write, settle, judge, on_chunk,
}
use agent_workspace.Daemon.Monitor.Blocks.{on_output-tracked, sig-on_output}

-- The chunks of output, each with its moment.
abbrev pub Chunks : Type 0
Chunks = List (Moment × List ℕ)

unfoldable pub on_chunks : String → Option Plugin → Monitor → Chunks → Monitor
on_chunks id plugin m [] = m
on_chunks id plugin m ((at, bytes) ∷ cs) = on_chunks id plugin (on_chunk id plugin at bytes m) cs

-- Whatever the tail and the bell, the verdict needs the user, or is that of work.
abbrev ShowsPrompt : Option Plugin → Moment × List ℕ → Type 0
ShowsPrompt plugin c =
    (tail : Text) (rung : Bool) → needs_user (classify plugin c.0 tail rung).0 ≡ true

abbrev pub ShowsWork : Option Plugin → Moment → Type 0
ShowsWork plugin at = (tail : Text) (rung : Bool) → (classify plugin at tail rung).0 ≡ activity

-- A verdict that is given when a block has been opened.
judge_prompt :
    (id : String) (at : Moment) (v : Verdict) (m : Monitor)
    → needs_user v.0 ≡ true
    → needs_user (judge id at v m).watch.last_attn ≡ true
      × (is_some (badge m.db id) ≡ is_some (badge (judge id at v m).db id))
unfolding judge must_write
judge_prompt id at v m p =
    ground
      (arith, badge-update_activity m.db id at.last_seq at.now (settle v.0 m.watch.last_attn) v.1)

judge_work :
    (id : String) (at : Moment) (v : Verdict) (m : Monitor)
    → v.0 ≡ activity
    → m.watch.last_attn ≡ quiet
    → is_some (badge m.db id) ≡ true
    → ((judge id at v m).watch.last_attn ≡ activity)
      × (badge (judge id at v m).db id ≡ some activity)
unfolding judge must_write
judge_work id at v m w q known =
    ground (arith, badge-update_activity m.db id at.last_seq at.now v.0 v.1)

-- Waiting for the user, who has answered.
abbrev IsAnswered : String → Monitor → Type 0
IsAnswered id m =
    (needs_user m.watch.last_attn ≡ true) × (m.sig.reset ≡ true) × (is_some (badge m.db id) ≡ true)

IsAnswered-on_chunk :
    (id : String) (plugin : Option Plugin) (at : Moment) (bytes : List ℕ) (m : Monitor)
    → untracked plugin ≡ false
    → ShowsPrompt plugin (at, bytes)
    → IsAnswered id m
    → IsAnswered id (on_chunk id plugin at bytes m)
unfolding on_chunk
IsAnswered-on_chunk id plugin at bytes m t s a = ground (
  arith,
  on_output-tracked id plugin at bytes (open_block m) t,
  sig-on_output id plugin at bytes (open_block m),
  judge_prompt id at (verdict_on plugin at bytes (open_block m))
      (take_in plugin at bytes (open_block m)) (s _ _),
)

on_chunk-work :
    (id : String) (plugin : Option Plugin) (at : Moment) (bytes : List ℕ) (m : Monitor)
    → untracked plugin ≡ false
    → ShowsWork plugin at
    → IsAnswered id m
    → ((on_chunk id plugin at bytes m).watch.last_attn ≡ activity)
      × (badge (on_chunk id plugin at bytes m).db id ≡ some activity)
      × ((on_chunk id plugin at bytes m).sig.reset ≡ false)
unfolding on_chunk
on_chunk-work id plugin at bytes m t s a = ground (
  arith,
  on_output-tracked id plugin at bytes (open_block m) t,
  sig-on_output id plugin at bytes (open_block m),
  judge_work id at (verdict_on plugin at bytes (open_block m))
      (take_in plugin at bytes (open_block m)) (s _ _),
)

-- For an agent with a badge, whose session is on record, is blocked, and has been answered (the
-- signal is raised): after any number of chunks that the agent's plugin still reads as a prompt,
-- whatever the tail and the bell, the first chunk that it reads as work releases the block. The
-- session is then working, in the monitor and on record, and the signal is spent.
pub on_chunks-on_chunk :
    (id : String) (plugin : Option Plugin) (m : Monitor) (cs : Chunks)
    → (at : Moment) (bytes : List ℕ) → untracked plugin ≡ false
    → needs_user m.watch.last_attn ≡ true
    → m.sig.reset ≡ true
    → is_some (badge m.db id) ≡ true
    → All (ShowsPrompt plugin) cs
    → ShowsWork plugin at
    → let end = on_chunk id plugin at bytes (on_chunks id plugin m cs) in
      (end.watch.last_attn ≡ activity) × (badge end.db id ≡ some activity) × (end.sig.reset ≡ false)
unfolding on_chunks
on_chunks-on_chunk id plugin m [] at bytes t b r k ps w =
    on_chunk-work id plugin at bytes m t w (b, r, k)
on_chunks-on_chunk id plugin m ((at', bytes') ∷ cs) at bytes t b r k ps w =
    let a = IsAnswered-on_chunk id plugin at' bytes' m t ps.0 (b, r, k) in
    on_chunks-on_chunk id plugin (on_chunk id plugin at' bytes' m) cs at bytes t a.0 a.1 a.2 ps.1 w
