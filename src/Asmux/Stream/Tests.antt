-- ===== src/Asmux/Stream/Tests.antt =====
-- crates/asmux/src/server.rs: instances of the theorems on streams.
use agent_workspace.Prelude.{
  ◌-◌, ◌≤◌, ◌≡◌, refl, true, false, none, some, [], ◌∷◌, arith, take, lookup, pos,
}
use agent_workspace.Asmux.Ring.{read_at, copy_range}
use agent_workspace.Asmux.Session.{Session}
use agent_workspace.Asmux.Server.{StreamTask}
use agent_workspace.Asmux.Attachment.{install}
use agent_workspace.Asmux.Stream.{Views, stream_iteration, end_stream}
use agent_workspace.Asmux.Stream.Output.{run_stream, run_stream-Keeps}
use agent_workspace.Asmux.Stream.Ending.{exits_of, iteration_exit, reattach_lem}
use agent_workspace.Asmux.Samples.{
  sent, ring-Holds, session, server, owner, task, tombstone, caught,
}

-- A session that does not change during an iteration.
abbrev all_at : Session → Views
all_at s = record {
  at_drops = s;
  at_read = s;
  at_alive = s;
  at_head = s;
  at_status = s;
  at_report = s;
}

run_stream-Keeps_example :
    let (out, last) = run_stream task ((1, all_at session) ∷ []) in
    (2 ≤ last.cursor) × (out ≡ take (last.cursor - 2) (3 ∷ 4 ∷ 5 ∷ 6 ∷ []))
run_stream-Keeps_example =
    run_stream-Keeps sent task ((1, all_at session, 6) ∷ []) (omega arith)
      (ring-Holds, omega arith, omega arith, tt)

-- The exit is reported once the head is reached.
iteration_exit_example :
    exits_of (stream_iteration 1 false true (all_at tombstone) caught).ctrl ≡ (pos 3, pos 0, 6) ∷ []
iteration_exit_example =
    iteration_exit 1 false true (all_at tombstone) caught sent [] ring-Holds ring-Holds
      (omega arith) (omega arith) (omega arith)

-- A byte that came after the read holds the report back.
abbrev grown : Views
grown = record (all_at tombstone) {
  at_head = record tombstone { ring = record tombstone.ring { head = 7 } };
}

late_byte : (stream_iteration 1 false true grown caught).ctrl ≡ []
unfolding stream_iteration read_at copy_range
late_byte = refl

abbrev lagging : StreamTask
lagging = record task { cursor = 1 }

reattach_lem_example :
    let r = install server owner session 5 "s" 6 in
    let attached : Session = record session {
      attacher = some (record { conn_id = 1; cancel = 8 });
    } in
    let (c', s') = end_stream r.conn task attached in
    (lookup "s" c'.streams ≡ some 8) × (true ≡ true) × (s'.attacher ≡ none)
reattach_lem_example = reattach_lem server owner session 5 6 task (omega arith)
