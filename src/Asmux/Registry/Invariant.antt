-- ===== src/Asmux/Registry/Invariant.antt =====
-- crates/asmux/src/registry.rs: every operation keeps the accounting, in any order.
use agent_workspace.Prelude.{
  ℕ, ◌+◌, ◌<◌, String, ◌≡◌, refl, ◌∙◌, inl, inr, Bool, true, false, none, some, List, [], ◌∷◌,
  arith, str_eq, if◌then◌else◌, Option-cases, u64_max, lookup, lookup-remove, is_some,
  IsUnique-adjust,
}
use agent_workspace.Asmux.Ring
use agent_workspace.Asmux.Session.{Session, Status, is_alive, note_output_dropped}
use agent_workspace.Asmux.Session.Threads.{
  Read, chunk, interrupted, failed, store_chunk, read_chunks, reader_loop,
}
use agent_workspace.Asmux.Session.Spawn.{SpawnSpec, SpawnAnswers}
use agent_workspace.Asmux.Registry.{
  Registry, new, touch, get, purge, purged, unknown, alive, create, update, remove_session,
}
use agent_workspace.Asmux.Registry.Totals.{capacity, total, total-adjust, total-remove}
use agent_workspace.Asmux.Registry.Eviction.{IsRegistry, remove_session-IsRegistry}
use agent_workspace.Asmux.Registry.Creation.{create-IsRegistry}

-- A call on the registry, or a change that a session's threads or connection make to it.
pub data Call : Type 0 where
  creates : SpawnAnswers → SpawnSpec → Call
  gets : String → Call
  purges : String → Call
  updates : String → (f : Session → Session) → ((s : Session) → capacity (f s) ≡ capacity s) → Call

unfoldable pub step : Registry → Call → Registry
step r (creates os spec) = (create os r spec).1
step r (gets id) = (get r id).1
step r (purges id) = (purge r id).1
step r (updates id f keeps) = update r id f

unfoldable pub run : Registry → List Call → Registry
run r [] = r
run r (c ∷ cs) = run (step r c) cs

pub get-IsRegistry : (r : Registry) (id : String) → IsRegistry r → IsRegistry (get r id).1
unfolding get touch
get-IsRegistry r id v = ground arith

pub purge-IsRegistry : (r : Registry) (id : String) → IsRegistry r → IsRegistry (purge r id).1
unfolding purge
purge-IsRegistry r id v = ground (arith, remove_session-IsRegistry r id v)

pub update-IsRegistry :
    (r : Registry) (id : String) (f : Session → Session)
    → ((s : Session) → capacity (f s) ≡ capacity s)
    → IsRegistry r
    → IsRegistry (update r id f)
unfolding update
update-IsRegistry r id f keeps v = record {
  unique = IsUnique-adjust id f r.sessions v.unique;
  accounted = omega (arith, v.accounted, total-adjust id f r.sessions keeps);
  within = v.within;
  small = v.small;
}

step-IsRegistry : (r : Registry) (c : Call) → IsRegistry r → IsRegistry (step r c)
unfolding step
step-IsRegistry r (creates os spec) v = create-IsRegistry os r spec v
step-IsRegistry r (gets id) v = get-IsRegistry r id v
step-IsRegistry r (purges id) v = purge-IsRegistry r id v
step-IsRegistry r (updates id f keeps) v = update-IsRegistry r id f keeps v

pub new-IsRegistry :
    (instance_id : String) (started_at limit : ℕ)
    → limit < u64_max
    → IsRegistry (new instance_id started_at limit)
unfolding new total
new-IsRegistry instance_id started_at limit h = record {
  unique = tt;
  accounted = refl;
  within = omega arith;
  small = h;
}

run-IsRegistry : (r : Registry) (cs : List Call) → IsRegistry r → IsRegistry (run r cs)
unfolding run
run-IsRegistry r [] v = v
run-IsRegistry r (c ∷ cs) v = run-IsRegistry (step r c) cs (step-IsRegistry r c v)

-- After any history of calls and session events the ring capacities of all sessions, tombstones
-- included, add up to the used bytes, within the limit.
pub run-new-IsRegistry :
    (instance_id : String) (started_at limit : ℕ) (cs : List Call)
    → limit < u64_max
    → IsRegistry (run (new instance_id started_at limit) cs)
run-new-IsRegistry instance_id started_at limit cs h =
    run-IsRegistry (new instance_id started_at limit) cs
      (new-IsRegistry instance_id started_at limit h)

-- Where the accounting holds, the purge of a tombstone takes it away and gives back its capacity,
-- and every other session stays.
pub purge_tombstone :
    (r : Registry) (id k : String) (s : Session)
    → IsRegistry r
    → lookup id r.sessions ≡ some s
    → is_alive s ≡ false
    → let (o, r') = purge r id in
      (o ≡ purged)
      × (lookup k r'.sessions ≡ (if str_eq id k then none else lookup k r.sessions))
      × (r'.used_bytes + capacity s ≡ r.used_bytes)
unfolding purge remove_session
purge_tombstone r id k s v found dead =
    ground (
      arith,
      lookup-remove id k r.sessions,
      total-remove id r.sessions s v.unique found,
      v.accounted,
    )

-- The purge of an unknown id or of a live session changes nothing and says which it was.
pub purge_refused :
    (r : Registry) (id : String)
    → ((s : Session) → lookup id r.sessions ≡ some s → is_alive s ≡ true)
    → purge r id ≡ (if is_some (lookup id r.sessions) then alive else unknown, r)
unfolding purge
purge_refused r id live = elim (Option-cases (lookup id r.sessions)) [
  | inl e ↦ rw (e, purge)
  | inr (s, e) ↦ rw (e, purge) (rw (live s e))
]

cap-push : (b : Bool) (r : Ring.Ring) (input : List ℕ) → (Ring.push b r input).1.cap ≡ r.cap
unfolding Ring.push
cap-push b r input = ground arith

cap-store_chunk :
    (b : Bool) (s : Session) (input : List ℕ) → capacity (store_chunk b s input) ≡ capacity s
unfolding store_chunk note_output_dropped
cap-store_chunk b s input = ground (arith, cap-push b s.ring input)

capacity-read_chunks : (s : Session) (rs : List Read) → capacity (read_chunks s rs) ≡ capacity s
unfolding read_chunks
capacity-read_chunks s [] = refl
capacity-read_chunks s (chunk b [] ∷ rs) = refl
capacity-read_chunks s (chunk b (x ∷ xs) ∷ rs) =
    capacity-read_chunks (store_chunk b s (x ∷ xs)) rs ∙ cap-store_chunk b s (x ∷ xs)
capacity-read_chunks s (interrupted ∷ rs) = capacity-read_chunks s rs
capacity-read_chunks s (failed ∷ rs) = refl

-- A session's reader thread never changes its capacity, so what it does is such an update.
pub capacity-reader_loop :
    (s : Session) (rs : List Read) (final_status : Status)
    → capacity (reader_loop s rs final_status) ≡ capacity s
unfolding reader_loop
capacity-reader_loop s rs final_status = capacity-read_chunks s rs
