-- ===== src/Asmux/Dispatch/Sizes.antt =====
-- registry.rs and server.rs: the accounting of the registry, with the bounds on each ring.
use agent_workspace.Prelude.{
  ℕ, String, ◌≡◌, refl, ap, ◌∙◌, Bool, true, false, ◌&&◌, List, [], ◌∷◌, arith, leb, sat_add, Assoc,
  insert, remove, adjust, Result, ok, err,
}
use agent_workspace.Asmux.Session.{Session}
use agent_workspace.Asmux.Session.Spawn.{SpawnSpec, SpawnAnswers, spawn}
use agent_workspace.Asmux.Registry.{
  Registry, remove_session, evict, admit, create, touch, finish_create, admit_and_spawn, get, purge,
  update,
}
use agent_workspace.Asmux.Registry.Totals.{capacity}
use agent_workspace.Asmux.Registry.Eviction.{IsRegistry}
use agent_workspace.Asmux.Registry.Admission.{candidates}
use agent_workspace.Asmux.Registry.Creation.{create-IsRegistry, capacity-spawn}
use agent_workspace.Asmux.Registry.Invariant.{get-IsRegistry, purge-IsRegistry, update-IsRegistry}
use agent_workspace.Asmux.Server.{ring_min_bytes, ring_max_bytes}

abbrev pub in_range : ℕ → Bool
in_range cap = leb ring_min_bytes cap && leb cap ring_max_bytes

-- Every ring has a capacity within the bounds.
unfoldable pub all_in_range : Assoc Session → Bool
all_in_range [] = true
all_in_range ((id, s) ∷ ss) = let rest = all_in_range ss in in_range (capacity s) && rest

range-adjust :
    (k : String) (f : Session → Session) (ss : Assoc Session)
    → ((s : Session) → capacity (f s) ≡ capacity s)
    → all_in_range (adjust k f ss) ≡ all_in_range ss
unfolding all_in_range adjust
range-adjust k f [] h = refl
range-adjust k f ((j, s) ∷ ss) h = ground (arith, range-adjust k f ss h, h s)

range-remove :
    (k : String) (ss : Assoc Session) → all_in_range ss ≡ true → all_in_range (remove k ss) ≡ true
unfolding all_in_range remove
range-remove k [] e = refl
range-remove k ((j, s) ∷ ss) e = ground (arith, range-remove k ss)

range-insert :
    (k : String) (s : Session) (ss : Assoc Session)
    → all_in_range ss ≡ true
    → in_range (capacity s) ≡ true
    → all_in_range (insert k s ss) ≡ true
unfolding all_in_range insert
range-insert k s [] e b = ground arith
range-insert k s ((j, t) ∷ ss) e b = ground (arith, range-insert k s ss)

range-evict :
    (r : Registry) (need : ℕ) (ds : List (ℕ × String))
    → all_in_range r.sessions ≡ true
    → all_in_range (evict r need ds).sessions ≡ true
unfolding evict remove_session
range-evict r need [] e = e
range-evict r need ((t, id) ∷ ds) e =
    ground (arith, range-evict (remove_session r id) need ds, range-remove id r.sessions e)

range-admit :
    (r : Registry) (need : ℕ)
    → all_in_range r.sessions ≡ true
    → all_in_range (admit r need).1.sessions ≡ true
unfolding admit
range-admit r need e = ground (arith, range-evict r need (candidates r) e)

range-finish :
    (r : Registry) (spec : SpawnSpec) (o : Result String Session)
    → ((s : Session) → o ≡ ok s → capacity s ≡ spec.ring_capacity)
    → in_range spec.ring_capacity ≡ true
    → all_in_range r.sessions ≡ true
    → all_in_range (finish_create r spec o).1.sessions ≡ true
unfolding touch
range-finish r spec (ok s) h b e =
    range-insert spec.session_id s r.sessions e (ap in_range (h s refl) ∙ b)
range-finish r spec (err msg) h b e = e

range-spawn :
    (os : SpawnAnswers) (spec : SpawnSpec) (a : Bool × Registry)
    → in_range spec.ring_capacity ≡ true
    → all_in_range a.1.sessions ≡ true
    → all_in_range (admit_and_spawn os spec a).1.sessions ≡ true
range-spawn os spec (false, r) b e = e
range-spawn os spec (true, r) b e =
    range-finish (record r { used_bytes = sat_add r.used_bytes spec.ring_capacity }) spec
      (spawn os spec) (capacity-spawn os spec) b e

range-create :
    (os : SpawnAnswers) (r : Registry) (spec : SpawnSpec)
    → in_range spec.ring_capacity ≡ true
    → all_in_range r.sessions ≡ true
    → all_in_range (create os r spec).1.sessions ≡ true
unfolding create touch
range-create os r spec b e =
    ground (
      arith,
      range-spawn os spec (admit r spec.ring_capacity) b (range-admit r spec.ring_capacity e),
    )

-- The accounting, and the bounds on every ring.
pub record IsSound (r : Registry) : Type 0 where
  pub registry : IsRegistry r
  pub sizes : all_in_range r.sessions ≡ true

range-get :
    (r : Registry) (id : String)
    → all_in_range r.sessions ≡ true
    → all_in_range (get r id).1.sessions ≡ true
unfolding get touch
range-get r id e = ground arith

pub get-IsSound : (r : Registry) (id : String) → IsSound r → IsSound (get r id).1
get-IsSound r id v = record {
  registry = get-IsRegistry r id v.registry;
  sizes = range-get r id v.sizes;
}

pub update-IsSound :
    (r : Registry) (id : String) (f : Session → Session)
    → ((s : Session) → capacity (f s) ≡ capacity s)
    → IsSound r
    → IsSound (update r id f)
unfolding update
update-IsSound r id f keeps v = record {
  registry = update-IsRegistry r id f keeps v.registry;
  sizes = range-adjust id f r.sessions keeps ∙ v.sizes;
}

pub purge-IsSound : (r : Registry) (id : String) → IsSound r → IsSound (purge r id).1
unfolding purge remove_session
purge-IsSound r id v = record {
  registry = purge-IsRegistry r id v.registry;
  sizes = ground (arith, v.sizes, range-remove id r.sessions v.sizes);
}

pub create-IsSound :
    (os : SpawnAnswers) (r : Registry) (spec : SpawnSpec)
    → in_range spec.ring_capacity ≡ true
    → IsSound r
    → IsSound (create os r spec).1
create-IsSound os r spec b v = record {
  registry = create-IsRegistry os r spec v.registry;
  sizes = range-create os r spec b v.sizes;
}
