-- ===== src/Daemon/Monitor/Blocks.antt =====
-- crates/daemon/src/session_manager/monitor.rs: a blocked session stays blocked until the user
-- sees it or answers it, and is then released by the first sign of work.
use agent_workspace.Prelude.{
  ℕ, String, ◌≡◌, ap, Bool, true, false, ◌||◌, Option, none, some, List, [], ◌∷◌, arith,
  if◌then◌else◌, All,
}
use agent_workspace.Daemon.Domain.{AttentionState, activity, needs_user, same_attention}
use agent_workspace.Daemon.Monitor.{
  Plugin, Moment, Monitor, Verdict, Text, Event, chunk, silence, typed, viewed, untracked, classify,
  take_in, verdict_on, settle, judge, record_activity, on_output, on_chunk, on_idle, step, run,
}

pub on_output-tracked :
    (id : String) (plugin : Option Plugin) (at : Moment) (bytes : List ℕ) (m : Monitor)
    → untracked plugin ≡ false
    → on_output id plugin at bytes m
      ≡ judge id at (verdict_on plugin at bytes m) (take_in plugin at bytes m)
unfolding on_output
on_output-tracked id plugin at bytes m t =
    ap
      (λ b.
        if b
        then record_activity id at m
        else judge id at (verdict_on plugin at bytes m) (take_in plugin at bytes m))
      t

last_attn-judge :
    (id : String) (at : Moment) (v : Verdict) (m : Monitor)
    → needs_user m.watch.last_attn ≡ true
    → (judge id at v m).watch.last_attn ≡ settle v.0 m.watch.last_attn
unfolding judge
last_attn-judge id at v m b = ground arith

sig-judge : (id : String) (at : Moment) (v : Verdict) (m : Monitor) → (judge id at v m).sig ≡ m.sig
unfolding judge
sig-judge id at v m = ground arith

sig-record_activity :
    (id : String) (at : Moment) (m : Monitor) → (record_activity id at m).sig ≡ m.sig
unfolding record_activity
sig-record_activity id at m = ground arith

pub sig-on_output :
    (id : String) (plugin : Option Plugin) (at : Moment) (bytes : List ℕ) (m : Monitor)
    → (on_output id plugin at bytes m).sig ≡ m.sig
unfolding on_output
sig-on_output id plugin at bytes m =
    elim (untracked plugin)
      as (λ b.
        (if b
          then record_activity id at m
          else judge id at (verdict_on plugin at bytes m) (take_in plugin at bytes m)).sig
        ≡ m.sig) [
          | true ↦ sig-record_activity id at m
          | false ↦ sig-judge id at (verdict_on plugin at bytes m) (take_in plugin at bytes m)
        ]

-- The verdicts of the plugins: work, or a need of the user.
abbrev is_judgement : AttentionState → Bool
is_judgement a = same_attention a activity || needs_user a

-- Output or silence, with no input and no view, and a plugin that gives such verdicts on it.
abbrev IsUnattended : Option Plugin → Event → Type 0
IsUnattended plugin (chunk at bytes) =
    (tail : Text) (rung : Bool) → is_judgement (classify plugin at tail rung).0 ≡ true
IsUnattended plugin (silence at) = Unit
IsUnattended plugin (typed now bytes) = ⊥
IsUnattended plugin (viewed now) = ⊥

-- The session waits for the user, and nothing has been heard of the user.
abbrev IsWaiting : Monitor → Type 0
IsWaiting m = (needs_user m.watch.last_attn ≡ true) × (m.sig.reset ≡ false)

IsWaiting-on_output :
    (id : String) (plugin : Option Plugin) (at : Moment) (bytes : List ℕ) (m : Monitor)
    → IsUnattended plugin (chunk at bytes)
    → needs_user m.watch.last_attn ≡ true
    → needs_user (on_output id plugin at bytes m).watch.last_attn ≡ true
unfolding on_output record_activity
IsWaiting-on_output id plugin at bytes m u b =
    elim (untracked plugin)
      as (λ shell.
        needs_user
          (if shell
            then record_activity id at m
            else judge id at (verdict_on plugin at bytes m)
                (take_in plugin at bytes m)).watch.last_attn
        ≡ true) [ true ↦ ground arith | false ↦ settled (verdict_on plugin at bytes m) (u _ _) ]
  where
    settled :
        (v : Verdict)
        → is_judgement v.0 ≡ true
        → needs_user (judge id at v (take_in plugin at bytes m)).watch.last_attn ≡ true
    settled v j = ground (arith, last_attn-judge id at v (take_in plugin at bytes m) b)

IsWaiting-on_chunk :
    (id : String) (plugin : Option Plugin) (at : Moment) (bytes : List ℕ) (m : Monitor)
    → IsUnattended plugin (chunk at bytes)
    → IsWaiting m
    → IsWaiting (on_chunk id plugin at bytes m)
unfolding on_chunk
IsWaiting-on_chunk id plugin at bytes m u w =
    ground
      (arith, IsWaiting-on_output id plugin at bytes m u w.0, sig-on_output id plugin at bytes m)

IsWaiting-step :
    (id : String) (plugin : Option Plugin) (m : Monitor) (e : Event)
    → IsUnattended plugin e
    → IsWaiting m
    → IsWaiting (step id plugin m e)
unfolding step on_idle
IsWaiting-step id plugin m (chunk at bytes) u w = IsWaiting-on_chunk id plugin at bytes m u w
IsWaiting-step id none m (silence at) u w = ground arith
IsWaiting-step id (some p) m (silence at) u w = ground arith
IsWaiting-step id plugin m (typed now bytes) u w = ground arith
IsWaiting-step id plugin m (viewed now) u w = ground arith

-- If a session needs its user and no signal is raised, and neither input nor a view comes, while
-- the plugin reads all output as work or as a need of the user, then it still needs its user after
-- any sequence of output and silence, and no signal is raised.
pub IsWaiting-run :
    (id : String) (plugin : Option Plugin) (m : Monitor) (es : List Event)
    → needs_user m.watch.last_attn ≡ true
    → m.sig.reset ≡ false
    → All (IsUnattended plugin) es
    → (needs_user (run id plugin m es).watch.last_attn ≡ true)
      × ((run id plugin m es).sig.reset ≡ false)
unfolding run
IsWaiting-run id plugin m [] b r us = (b, r)
IsWaiting-run id plugin m (e ∷ es) b r us =
    let w = IsWaiting-step id plugin m e us.0 (b, r) in
    IsWaiting-run id plugin (step id plugin m e) es w.0 w.1 us.1
