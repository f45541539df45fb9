-- ===== src/Asmux/Registry/Aftermath.antt =====
-- crates/asmux/src/registry.rs: what a `create` leaves: the session that it made, and the others.
use agent_workspace.Prelude.{
  String, ◌≡◌, sym, ap, ◌∙◌, inl, inr, Bool, true, false, none, some, arith, eq_iff, Option-cases,
  sat_add, lookup, insert, lookup-insert, Result, ok, err,
}
use agent_workspace.Asmux.Session.{Session, is_alive}
use agent_workspace.Asmux.Session.Spawn.{SpawnSpec, SpawnAnswers, spawn}
use agent_workspace.Asmux.Registry.{
  Registry, created, idempotent, touch, admit, create, finish_create, admit_and_spawn,
}
use agent_workspace.Asmux.Registry.Eviction.{IsRegistry}
use agent_workspace.Asmux.Registry.Admission.{admit_keeps_live}
use agent_workspace.Asmux.Registry.Creation.{spawn_started, create_taken, admitted_absent}

created_found :
    (os : SpawnAnswers) (spec : SpawnSpec) (a : Bool × Registry) (s : Session)
    → (admit_and_spawn os spec a).0 ≡ ok (created s)
    → (spawn os spec ≡ ok s)
      × (lookup spec.session_id (admit_and_spawn os spec a).1.sessions ≡ some s)
unfolding touch
created_found os spec (false, r) s e = cc
created_found os spec (true, r) s e = go (spawn os spec) e
  where
    go :
        (o : Result String Session)
        → (finish_create
            (record r { used_bytes = sat_add r.used_bytes spec.ring_capacity })
            spec
            o).0
          ≡ ok (created s)
        → (o ≡ ok s)
          × (lookup spec.session_id
                (finish_create
                  (record r { used_bytes = sat_add r.used_bytes spec.ring_capacity })
                  spec
                  o).1.sessions
              ≡ some s)
    go (ok t) e = ground (arith, found t)
      where
        found :
            (t : Session) → lookup spec.session_id (insert spec.session_id t r.sessions) ≡ some t
        found t = ground (
          arith,
          lookup-insert spec.session_id spec.session_id t r.sessions,
          eq_iff spec.session_id spec.session_id,
        )
    go (err msg) e = cc

create_absent :
    (os : SpawnAnswers) (r : Registry) (spec : SpawnSpec)
    → lookup spec.session_id r.sessions ≡ none
    → create os r spec ≡ admit_and_spawn os spec (admit r spec.ring_capacity)
unfolding create
create_absent os r spec absent = rw (absent, create)

-- A session that was created is found under its id, and a second `create` for the same launch
-- returns that session and spawns nothing.
pub create_twice :
    (os again : SpawnAnswers) (r : Registry) (spec : SpawnSpec) (s : Session)
    → (create os r spec).0 ≡ ok (created s)
    → (lookup spec.session_id (create os r spec).1.sessions ≡ some s)
      × ((create again (create os r spec).1 spec).0 ≡ ok (idempotent s))
create_twice os again r spec s e = elim (Option-cases (lookup spec.session_id r.sessions)) [
  | inl absent ↦
      let new = create_absent os r spec absent in
      let (begun, found) =
        created_found os spec (admit r spec.ring_capacity) s (ap (λ x. x.0) (sym new) ∙ e) in
      let found' : lookup spec.session_id (create os r spec).1.sessions ≡ some s = rw new found in
      (
        found',
        (create_taken again (create os r spec).1 spec s found').0
            ∙ ground (arith, ap (λ (t : Session). t.fingerprint) (spawn_started os spec s begun)),
      )
  | inr (t, taken) ↦ absurd (ground (arith, (create_taken os r spec t taken).0))
]

keeps_live_finish :
    (r : Registry) (spec : SpawnSpec) (o : Result String Session) (k : String) (s : Session)
    → lookup k r.sessions ≡ some s
    → lookup spec.session_id r.sessions ≡ none
    → lookup k
        (finish_create
          (record r { used_bytes = sat_add r.used_bytes spec.ring_capacity })
          spec
          o).1.sessions
      ≡ some s
unfolding touch
keeps_live_finish r spec (ok t) k s found absent =
    ground (arith, lookup-insert spec.session_id k t r.sessions, eq_iff spec.session_id k)
keeps_live_finish r spec (err msg) k s found absent = found

keeps_live_spawn :
    (os : SpawnAnswers) (spec : SpawnSpec) (a : Bool × Registry) (k : String) (s : Session)
    → lookup k a.1.sessions ≡ some s
    → lookup spec.session_id a.1.sessions ≡ none
    → lookup k (admit_and_spawn os spec a).1.sessions ≡ some s
keeps_live_spawn os spec (false, r) k s found absent = found
keeps_live_spawn os spec (true, r) k s found absent =
    keeps_live_finish r spec (spawn os spec) k s found absent

-- Where the accounting holds, no `create`, whatever its outcome, costs a live session: each is
-- still found, unchanged.
pub create_keeps_live :
    (os : SpawnAnswers) (r : Registry) (spec : SpawnSpec) (k : String) (s : Session)
    → IsRegistry r
    → lookup k r.sessions ≡ some s
    → is_alive s ≡ true
    → lookup k (create os r spec).1.sessions ≡ some s
create_keeps_live os r spec k s v found live =
    elim (Option-cases (lookup spec.session_id r.sessions)) [
      | inl absent ↦ rw (create_absent os r spec absent) (
          keeps_live_spawn os spec (admit r spec.ring_capacity) k s
            (admit_keeps_live r spec.ring_capacity k s v found live)
            (admitted_absent r spec.ring_capacity spec.session_id absent))
      | inr (t, taken) ↦ ap (lookup k) (create_taken os r spec t taken).1 ∙ found
    ]
