-- ===== src/Asmux/Registry/Tests.antt =====
-- crates/asmux/src/registry.rs: runs of the operations, and instances of the theorems.
use agent_workspace.Prelude.{
  ℕ, String, ◌≡◌, refl, true, none, some, List, [], ◌∷◌, arith, lookup, insert, remove, err, pos,
}
use agent_workspace.Asmux.Session.{Session, exited}
use agent_workspace.Asmux.Session.Threads.{reader_loop, chunk}
use agent_workspace.Asmux.Session.Spawn.{SpawnSpec, SpawnAnswers, spawn, started_session}
use agent_workspace.Asmux.Registry.{
  Registry, memory_limit, touch, admit, create, evict, sort_by_tick, dead_entries, insert_by_tick,
  remove_session,
}
use agent_workspace.Asmux.Registry.Totals.{total, live_total}
use agent_workspace.Asmux.Registry.Eviction.{IsRegistry}
use agent_workspace.Asmux.Registry.Admission.{admit-live_total}
use agent_workspace.Asmux.Registry.Aftermath.{create_keeps_live}
use agent_workspace.Asmux.Registry.Invariant.{
  Call, creates, gets, purges, updates, capacity-reader_loop,
}

abbrev answers : SpawnAnswers
answers = record {
  openpty_error = none;
  spawn_error = none;
  child_pid = some 100;
  reader_error = none;
  writer_error = none;
  waiter_error = none;
  reader_thread_error = none;
  writer_thread_error = none;
}

abbrev spec : String → ℕ → ℕ → SpawnSpec
spec id cap fingerprint = record {
  session_id = id;
  command = "true";
  args = [];
  cwd = "";
  env = [];
  cols = 80;
  rows = 24;
  ring_capacity = cap;
  metadata = [];
  fingerprint = fingerprint;
  created_at_unix_ms = 0;
}

abbrev begun : String → ℕ → Session
begun id cap = started_session (spec id cap 42) (pos 100)

abbrev ended : String → ℕ → Session
ended id cap = record (begun id cap) { status = exited (pos 0) (pos 0) }

-- Two tombstones, of which `a` was used last, and a live session; 30 of 32 bytes are used.
abbrev crowded : Registry
crowded = record {
  sessions = ("a", ended "a" 10) ∷ ("b", ended "b" 10) ∷ ("c", begun "c" 10) ∷ [];
  used_bytes = 30;
  tick = 5;
  access = ("a", 5) ∷ ("b", 3) ∷ ("c", 4) ∷ [];
  instance_id = "i";
  started_at_unix_ms = 0;
  limit = 32;
}

crowded-IsRegistry : IsRegistry crowded
unfolding total lookup
crowded-IsRegistry = record {
  unique = (refl, (refl, (refl, tt)));
  accounted = refl;
  within = omega arith;
  small = omega arith;
}

-- The oldest tombstone makes room, and the other one stays.
evicts_oldest : lookup "b" (create answers crowded (spec "d" 10 7)).1.sessions ≡ none
unfolding create admit evict sort_by_tick dead_entries insert_by_tick remove_session lookup remove
    insert touch spawn
evicts_oldest = refl

keeps_newest : lookup "a" (create answers crowded (spec "d" 10 7)).1.sessions ≡ some (ended "a" 10)
unfolding create admit evict sort_by_tick dead_entries insert_by_tick remove_session lookup remove
    insert touch spawn
keeps_newest = refl

memory_limit_reached : (create answers crowded (spec "d" 23 7)).0 ≡ err memory_limit
unfolding create admit evict sort_by_tick dead_entries insert_by_tick remove_session lookup remove
memory_limit_reached = refl

admit-live_total_example : (admit crowded 22).0 ≡ true
unfolding live_total
admit-live_total_example = admit-live_total crowded 22 crowded-IsRegistry

create_keeps_live_example :
    lookup "c" (create answers crowded (spec "d" 10 7)).1.sessions ≡ some (begun "c" 10)
unfolding lookup
create_keeps_live_example =
    create_keeps_live answers crowded (spec "d" 10 7) "c" (begun "c" 10) crowded-IsRegistry refl
      refl

abbrev history : List Call
history =
    creates answers (spec "a" 10 1)
    ∷ gets "a"
    ∷ updates "a" (λ s. reader_loop s (chunk true (7 ∷ []) ∷ []) (exited (pos 0) (pos 0)))
        (λ s. capacity-reader_loop s (chunk true (7 ∷ []) ∷ []) (exited (pos 0) (pos 0)))
    ∷ purges "a"
    ∷ []
