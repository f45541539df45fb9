-- ===== src/Asmux/Registry/Creation.antt =====
-- crates/asmux/src/registry.rs: the outcomes of `create` and `purge`.
use agent_workspace.Prelude.{
  ℕ, ◌+◌, ◌≤◌, String, ◌≡◌, refl, ap, ◌∙◌, inl, inr, Bool, true, false, none, some, arith, leb,
  ◌==◌, if◌then◌else◌, Bool-cases, Option-cases, sat_add, lookup, IsUnique-insert, Result, ok, err,
}
use agent_workspace.Asmux.Session.{Session}
use agent_workspace.Asmux.Session.Spawn.{SpawnSpec, SpawnAnswers, spawn, started_session, i32_pid}
use agent_workspace.Asmux.Registry.{
  Registry, CreateError, exists, memory_limit, spawn_failed, CreateOutcome, created, idempotent,
  touch, admit, create, finish_create, admit_and_spawn,
}
use agent_workspace.Asmux.Registry.Totals.{capacity, live_total, total-insert}
use agent_workspace.Asmux.Registry.Eviction.{IsRegistry}
use agent_workspace.Asmux.Registry.Admission.{
  admit-IsRegistry, admit-live_total, admit-fits, admit_only_removes,
}

-- A spawn that succeeds starts the session of its specification.
pub spawn_started :
    (os : SpawnAnswers) (spec : SpawnSpec) (s : Session)
    → spawn os spec ≡ ok s
    → s ≡ started_session spec (i32_pid os.child_pid)
unfolding spawn
spawn_started os spec s e = ground arith

pub capacity-spawn :
    (os : SpawnAnswers) (spec : SpawnSpec) (s : Session)
    → spawn os spec ≡ ok s
    → capacity s ≡ spec.ring_capacity
capacity-spawn os spec s e = ap capacity (spawn_started os spec s e)

finish_create-IsRegistry :
    (r : Registry) (spec : SpawnSpec) (o : Result String Session)
    → ((s : Session) → o ≡ ok s → capacity s ≡ spec.ring_capacity)
    → IsRegistry r
    → lookup spec.session_id r.sessions ≡ none
    → r.used_bytes + spec.ring_capacity ≤ r.limit
    → IsRegistry
        (finish_create (record r { used_bytes = sat_add r.used_bytes spec.ring_capacity }) spec o).1
unfolding touch
finish_create-IsRegistry r spec (ok s) h v absent room = record {
  unique = IsUnique-insert spec.session_id s r.sessions v.unique;
  accounted =
      omega
        (arith, v.accounted, v.small, h s refl, total-insert spec.session_id s r.sessions absent);
  within = omega (arith, v.small);
  small = v.small;
}
finish_create-IsRegistry r spec (err msg) h v absent room = record {
  unique = v.unique;
  accounted = omega (arith, v.accounted, v.small);
  within = omega (arith, v.within);
  small = v.small;
}

touch-IsRegistry : (r : Registry) (id : String) → IsRegistry r → IsRegistry (touch r id)
unfolding touch
touch-IsRegistry r id v = record {
  unique = v.unique;
  accounted = v.accounted;
  within = v.within;
  small = v.small;
}

-- What `create` answers for an id that is not taken.
abbrev pub started : Result String Session → Result CreateError CreateOutcome
started (ok s) = ok (created s)
started (err msg) = err (spawn_failed msg)

admit_and_spawn_outcome :
    (os : SpawnAnswers) (spec : SpawnSpec) (a : Bool × Registry)
    → (admit_and_spawn os spec a).0 ≡ (if a.0 then started (spawn os spec) else err memory_limit)
admit_and_spawn_outcome os spec (false, r) = refl
admit_and_spawn_outcome os spec (true, r) = finished (spawn os spec)
  where
    finished :
        (o : Result String Session)
        → (finish_create
            (record r { used_bytes = sat_add r.used_bytes spec.ring_capacity })
            spec
            o).0
          ≡ started o
    finished (ok s) = refl
    finished (err msg) = refl

-- Where the accounting holds, a new id is refused for memory exactly when its ring does not fit
-- beside those of the live sessions; otherwise the answer is that of the spawn.
pub create_fresh :
    (os : SpawnAnswers) (r : Registry) (spec : SpawnSpec)
    → IsRegistry r
    → lookup spec.session_id r.sessions ≡ none
    → (create os r spec).0 ≡ (
        if leb (live_total r.sessions + spec.ring_capacity) r.limit
        then started (spawn os spec)
        else err memory_limit)
unfolding create
create_fresh os r spec v absent =
    rw (absent, create)
      (admit_and_spawn_outcome os spec (admit r spec.ring_capacity)
        ∙ ap (λ b. if b then started (spawn os spec) else err memory_limit)
            (admit-live_total r spec.ring_capacity v))

-- An id that is taken spawns nothing: the same launch finds the session, another is refused, and
-- no session and no count changes.
pub create_taken :
    (os : SpawnAnswers) (r : Registry) (spec : SpawnSpec) (s : Session)
    → lookup spec.session_id r.sessions ≡ some s
    → let (o, r') = create os r spec in
      (o ≡ (if s.fingerprint == spec.fingerprint then ok (idempotent s) else err exists))
      × (r'.sessions ≡ r.sessions)
      × (r'.used_bytes ≡ r.used_bytes)
unfolding create touch
create_taken os r spec s e = ground arith

admit_and_spawn-IsRegistry :
    (os : SpawnAnswers) (spec : SpawnSpec) (a : Bool × Registry)
    → IsRegistry a.1
    → lookup spec.session_id a.1.sessions ≡ none
    → (a.0 ≡ true → a.1.used_bytes + spec.ring_capacity ≤ a.1.limit)
    → IsRegistry (admit_and_spawn os spec a).1
admit_and_spawn-IsRegistry os spec (false, r) v absent room = v
admit_and_spawn-IsRegistry os spec (true, r) v absent room =
    finish_create-IsRegistry r spec (spawn os spec) (capacity-spawn os spec) v absent (room refl)

pub admitted_absent :
    (r : Registry) (need : ℕ) (id : String)
    → lookup id r.sessions ≡ none
    → lookup id (admit r need).1.sessions ≡ none
admitted_absent r need id absent = ground (arith, admit_only_removes r need id)

admitted_room :
    (r : Registry) (need : ℕ)
    → IsRegistry r
    → (admit r need).0 ≡ true
    → (admit r need).1.used_bytes + need ≤ (admit r need).1.limit
admitted_room r need v e =
    let w = admit-IsRegistry r need v in ground (arith, admit-fits r need, w.small)

-- Whatever its outcome, `create` keeps the ids unique, the accounting exact and the limit.
pub create-IsRegistry :
    (os : SpawnAnswers) (r : Registry) (spec : SpawnSpec)
    → IsRegistry r
    → IsRegistry (create os r spec).1
unfolding create
create-IsRegistry os r spec v = elim (Option-cases (lookup spec.session_id r.sessions)) [
  | inl absent ↦
      rw (absent, create)
        (admit_and_spawn-IsRegistry os spec (admit r spec.ring_capacity)
          (admit-IsRegistry r spec.ring_capacity v)
          (admitted_absent r spec.ring_capacity spec.session_id absent)
          (admitted_room r spec.ring_capacity v))
  | inr (s, e) ↦
      rw (e, create)
        (elim (Bool-cases (s.fingerprint == spec.fingerprint)) [
          | inl same ↦ rw same (touch-IsRegistry r spec.session_id v)
          | inr other ↦ rw other v
        ])
]
