-- ===== src/Daemon/Monitor/Tests.antt =====
-- session_manager/monitor.rs: instances of the theorems on the monitor.
use agent_workspace.Prelude.{ℕ, ◌≡◌, refl, inl, true, false, none, some, List, [], ◌∷◌, arith}
use agent_workspace.Daemon.Domain.{
  AttentionState, quiet, activity, idle, approval_needed, needs_user, running,
}
use agent_workspace.Daemon.Store.Badges.{badge}
use agent_workspace.Daemon.Store.Sessions.{get_session}
use agent_workspace.Daemon.Monitor.{
  Monitor, Interaction, chunk, silence, typed, viewed, on_chunk, run, fresh, untouched,
}
use agent_workspace.Daemon.Monitor.Blocks.{IsWaiting-run}
use agent_workspace.Daemon.Monitor.Release.{on_chunks, on_chunks-on_chunk}
use agent_workspace.Daemon.Monitor.Echo.{after_typing, on_chunk-after_typing}
use agent_workspace.Daemon.Monitor.Badge.{Agrees, Agrees-run}
use agent_workspace.Daemon.Samples.{session, row, database, agent, moment}

abbrev screen : List ℕ
screen = 63 ∷ []

abbrev monitor_at : AttentionState → Interaction → Monitor
monitor_at last sig = record {
  db = database (row (session "s" running last none) "" ∷ []) [];
  watch = record fresh { last_attn = last };
  sig = sig;
}

abbrev answered : Interaction
answered = record untouched { reset = true; last_input_ms = 90; submitted = true }

IsWaiting-run_example :
    let end =
      run "s"
        (some agent)
        (monitor_at approval_needed untouched)
        (chunk (moment 100 []) (104 ∷ []) ∷ silence (moment 9000 []) ∷ []) in
    (needs_user end.watch.last_attn ≡ true) × (end.sig.reset ≡ false)
IsWaiting-run_example =
    IsWaiting-run "s" (some agent) (monitor_at approval_needed untouched)
      (chunk (moment 100 []) (104 ∷ []) ∷ silence (moment 9000 []) ∷ []) refl refl
      ((λ tail rung. refl), (tt, tt))

on_chunks-on_chunk_example :
    let end = on_chunk "s" (some agent) (moment 102 []) (104 ∷ []) (
      on_chunks "s"
        (some agent)
        (monitor_at approval_needed answered)
        ((moment 101 screen, 27 ∷ []) ∷ [])) in
    (end.watch.last_attn ≡ activity) × (badge end.db "s" ≡ some activity) × (end.sig.reset ≡ false)
unfolding badge get_session
on_chunks-on_chunk_example =
    on_chunks-on_chunk "s" (some agent) (monitor_at approval_needed answered)
      ((moment 101 screen, 27 ∷ []) ∷ []) (moment 102 []) (104 ∷ []) refl refl refl refl
      ((λ tail rung. refl), tt) (λ tail rung. refl)

on_chunk-after_typing_example :
    let end =
      on_chunk "s"
        (some agent)
        (moment 110 [])
        (104 ∷ [])
        (after_typing 100 (104 ∷ []) (monitor_at idle untouched)) in
    (end.watch.last_attn ≡ idle) × (end.db ≡ (monitor_at idle untouched).db)
on_chunk-after_typing_example =
    on_chunk-after_typing "s" (some agent) (moment 110 []) (104 ∷ []) (104 ∷ []) 100
      (monitor_at idle untouched) refl (λ tail rung. refl) refl refl (ground arith) (ground arith)

start_Agrees : Agrees "s" (monitor_at quiet untouched)
unfolding Agrees badge get_session
start_Agrees = inl refl

Agrees-run_example : Agrees "s" (
    run "s" (some agent) (monitor_at quiet untouched) (
      chunk (moment 500 screen) []
      ∷ viewed 600
      ∷ typed 700 (13 ∷ [])
      ∷ chunk (moment 800 []) []
      ∷ silence (moment 9000 [])
      ∷ []))
Agrees-run_example =
    Agrees-run "s" (some agent) (monitor_at quiet untouched)
      (chunk (moment 500 screen) []
        ∷ viewed 600
        ∷ typed 700 (13 ∷ [])
        ∷ chunk (moment 800 []) []
        ∷ silence (moment 9000 [])
        ∷ [])
      refl start_Agrees
