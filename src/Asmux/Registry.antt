-- ===== src/Asmux/Registry.antt =====
-- crates/asmux/src/registry.rs: every session of the process, and the limit on their ring memory.
-- A session in the map is shared with its threads, so `update` stands for what they do to it.
pub mod Totals
pub mod Eviction
pub mod Admission
pub mod Order
pub mod Invariant
pub mod Creation
pub mod Aftermath
mod Tests
use agent_workspace.Prelude.{
  ℕ, ◌-◌, ◌%◌, ◌^◌, String, Bool, true, false, Option, none, some, List, [], ◌∷◌, leb, ◌==◌,
  if◌then◌else◌, unwrap_or, sat_add, length, Assoc, lookup, insert, remove, adjust, Result, ok, err,
}
use agent_workspace.Asmux.Session.{Session, is_alive}
use agent_workspace.Asmux.Session.Spawn.{SpawnSpec, SpawnAnswers, spawn}

pub data CreateError : Type 0 where
  exists : CreateError
  memory_limit : CreateError
  spawn_failed : String → CreateError

pub data CreateOutcome : Type 0 where
  created : Session → CreateOutcome
  idempotent : Session → CreateOutcome

pub data PurgeOutcome : Type 0 where
  purged unknown alive : PurgeOutcome

pub record Registry : Type 0 where
  pub sessions : Assoc Session
  pub used_bytes : ℕ
  pub tick : ℕ
  pub access : Assoc ℕ
  pub instance_id : String
  pub started_at_unix_ms : ℕ
  pub limit : ℕ

pub new : String → ℕ → ℕ → Registry
new instance_id started_at limit = record {
  sessions = [];
  used_bytes = 0;
  tick = 0;
  access = [];
  instance_id = instance_id;
  started_at_unix_ms = started_at;
  limit = limit;
}

-- Move the session to the most recently used position.
unfoldable pub touch : Registry → String → Registry
touch r id = let t = sat_add r.tick 1 in record r { tick = t; access = insert id t r.access }

abbrev ring_capacity : Session → ℕ
ring_capacity s = s.ring.cap

-- Remove a session, and refund its capacity.
unfoldable pub remove_session : Registry → String → Registry
remove_session r id = elim (lookup id r.sessions) [
  | none ↦ record r { access = remove id r.access }
  | some s ↦ record r {
    sessions = remove id r.sessions;
    used_bytes = r.used_bytes - ring_capacity s;
    access = remove id r.access;
  }
]

unfoldable pub get : Registry → String → Option Session × Registry
get r id = elim (lookup id r.sessions) [ none ↦ (none, r) | some s ↦ (some s, touch r id) ]

abbrev values : Assoc Session → List Session
values [] = []
values ((k, s) ∷ ss) = s ∷ values ss

unfoldable pub list : Registry → List Session
list r = values r.sessions

-- The count is cut to a u32.
unfoldable pub session_count : Registry → ℕ
session_count r = length r.sessions % 2 ^ 32

unfoldable pub purge : Registry → String → PurgeOutcome × Registry
purge r id = elim (lookup id r.sessions) [
  | none ↦ (unknown, r)
  | some s ↦ if is_alive s then (alive, r) else (purged, remove_session r id)
]

-- The tombstones, each with its last access.
unfoldable pub dead_entries : Assoc ℕ → Assoc Session → List (ℕ × String)
dead_entries access [] = []
dead_entries access ((id, s) ∷ ss) =
    let rest = dead_entries access ss in
    if is_alive s then rest else (unwrap_or 0 (lookup id access), id) ∷ rest

-- `sort_by_key` on the tick: a stable sort.
unfoldable pub insert_by_tick : ℕ × String → List (ℕ × String) → List (ℕ × String)
insert_by_tick d [] = d ∷ []
insert_by_tick d (e ∷ es) = if leb d.0 e.0 then d ∷ e ∷ es else e ∷ insert_by_tick d es

unfoldable pub sort_by_tick : List (ℕ × String) → List (ℕ × String)
sort_by_tick [] = []
sort_by_tick (d ∷ ds) = insert_by_tick d (sort_by_tick ds)

abbrev pub fits : Registry → ℕ → Bool
fits r need = leb (sat_add r.used_bytes need) r.limit

-- Evict in order until the bytes needed fit.
unfoldable pub evict : Registry → ℕ → List (ℕ × String) → Registry
evict r need [] = r
evict r need ((t, id) ∷ ds) =
    let rest = evict (remove_session r id) need ds in if fits r need then r else rest

unfoldable pub admit : Registry → ℕ → Bool × Registry
admit r need =
    if fits r need
    then (true, r)
    else let r' = evict r need (sort_by_tick (dead_entries r.access r.sessions)) in
      (fits r' need, r')

abbrev pub finish_create :
    Registry → SpawnSpec → Result String Session → Result CreateError CreateOutcome × Registry
finish_create r spec (ok s) = (
  ok (created s),
  touch (record r { sessions = insert spec.session_id s r.sessions }) spec.session_id,
)
finish_create r spec (err msg) =
    (err (spawn_failed msg), record r { used_bytes = r.used_bytes - spec.ring_capacity })

abbrev pub admit_and_spawn :
    SpawnAnswers → SpawnSpec → Bool × Registry → Result CreateError CreateOutcome × Registry
admit_and_spawn os spec (false, r) = (err memory_limit, r)
admit_and_spawn os spec (true, r) =
    finish_create (record r { used_bytes = sat_add r.used_bytes spec.ring_capacity }) spec
      (spawn os spec)

unfoldable pub create :
    SpawnAnswers → Registry → SpawnSpec → Result CreateError CreateOutcome × Registry
create os r spec = elim (lookup spec.session_id r.sessions) [
  | some s ↦
      if s.fingerprint == spec.fingerprint
      then (ok (idempotent s), touch r spec.session_id)
      else (err exists, r)
  | none ↦ admit_and_spawn os spec (admit r spec.ring_capacity)
]

-- What a session's own threads and its connection do to it.
unfoldable pub update : Registry → String → (Session → Session) → Registry
update r id f = record r { sessions = adjust id f r.sessions }
