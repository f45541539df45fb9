-- ===== src/Asmux/Session/Tests.antt =====
-- crates/asmux/src/session.rs: runs of the operations, and instances of the theorems.
use agent_workspace.Prelude.{◌≡◌, refl, inl, true, none, some, List, [], ◌∷◌, arith, ok, err, pos}
use agent_workspace.Asmux.Ring.History.{new-Holds}
use agent_workspace.Asmux.Session.{exited, Session, send_input, attach, detach}
use agent_workspace.Asmux.Session.Threads.{
  Read, chunk, interrupted, failed, reader_loop, writer_take, writer_done,
}
use agent_workspace.Asmux.Session.Spawn.{SpawnSpec, SpawnAnswers, spawn, started_session}
use agent_workspace.Asmux.Session.Input.{
  IsQueue, Event, send, take_next, write_done, close, Trace, step, run, InOrder, run-InOrder,
}
use agent_workspace.Asmux.Session.Exit.{consumed, reader_loop_complete}

abbrev spec : SpawnSpec
spec = record {
  session_id = "s1";
  command = "sh";
  args = [];
  cwd = "";
  env = ("A", "1") ∷ ("A", "2") ∷ [];
  cols = 80;
  rows = 24;
  ring_capacity = 8;
  metadata = ("k", "v") ∷ [];
  fingerprint = 42;
  created_at_unix_ms = 0;
}

abbrev session : Session
session = started_session spec (pos 100)

answers : SpawnAnswers
answers = record {
  openpty_error = none;
  spawn_error = none;
  child_pid = some 100;
  reader_error = none;
  writer_error = none;
  waiter_error = none;
  reader_thread_error = none;
  writer_thread_error = none;
}

spawn_runs : spawn answers spec ≡ ok session
unfolding spawn answers
spawn_runs = refl

spawn_fails :
    spawn (record answers { spawn_error = some "no such file" }) spec
    ≡ err "spawn `sh`: no such file"
unfolding spawn answers
spawn_fails = refl

stale_detach_is_ignored :
    detach (attach session (record { conn_id = 2; cancel = 7 })).1 1
    ≡ (attach session (record { conn_id = 2; cancel = 7 })).1
stale_detach_is_ignored = refl

abbrev script : List Event
script =
    send (1 ∷ 2 ∷ [])
    ∷ send (3 ∷ [])
    ∷ take_next
    ∷ write_done none
    ∷ take_next
    ∷ write_done (some 0)
    ∷ close
    ∷ send (4 ∷ [])
    ∷ take_next
    ∷ []

abbrev start : Trace
start = record { session = session; accepted = []; tried = []; reached = [] }

-- The second input is lost in its write.
script_runs : (run start script).reached ≡ 1 ∷ 2 ∷ []
unfolding run step send_input writer_take writer_done
script_runs = refl

session-IsQueue : IsQueue session
session-IsQueue = record { counted = refl; bounded = omega arith; open_ended = inl refl }

run-InOrder_example : InOrder (run start script)
run-InOrder_example = run-InOrder start script (refl, refl)

-- Nine bytes in a ring of eight: the first has gone.
abbrev reads : List Read
reads =
    chunk true (1 ∷ 2 ∷ [])
    ∷ interrupted
    ∷ chunk true (3 ∷ 4 ∷ 5 ∷ 6 ∷ 7 ∷ 8 ∷ 9 ∷ [])
    ∷ failed
    ∷ chunk true (4 ∷ [])
    ∷ []

reader_loop_complete_example :
    let t = reader_loop session reads (exited (pos 0) (pos 0)) in
    (t.ring.head ≡ 9) × (t.ring.buf ≡ 2 ∷ 3 ∷ 4 ∷ 5 ∷ 6 ∷ 7 ∷ 8 ∷ 9 ∷ [])
unfolding consumed
reader_loop_complete_example =
    reader_loop_complete session [] reads (exited (pos 0) (pos 0)) (new-Holds 8 (omega arith)) refl
      (omega arith) (refl, (tt, (refl, (tt, (refl, tt)))))
