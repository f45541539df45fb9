-- ===== src/Asmux/Registry/Admission.antt =====
-- crates/asmux/src/registry.rs: admission control. When a new ring is let in, and at whose cost.
use agent_workspace.Prelude.{
  ℕ, ◌+◌, ◌<◌, String, ◌≡◌, refl, sym, ◌∙◌, ◌⊎◌, inl, inr, true, false, not, ◌||◌, none, some, List,
  [], ◌∷◌, arith, str_eq, eq_iff, leb, Bool-cases, u64_max, Assoc, lookup, IsUnique,
}
use agent_workspace.Asmux.Session.{Session, is_alive}
use agent_workspace.Asmux.Registry.{
  Registry, fits, evict, admit, dead_entries, sort_by_tick, insert_by_tick,
}
use agent_workspace.Asmux.Registry.Totals.{total, live_total, live_total-le, total_live}
use agent_workspace.Asmux.Registry.Eviction.{
  IsRegistry, has_id, AreDead, limit-evict, evict-IsRegistry, lookup-evict_other, evict_end,
  evict_only_removes, live_total-evict,
}

has_id-insert :
    (k : String) (d : ℕ × String) (ds : List (ℕ × String))
    → has_id k (insert_by_tick d ds) ≡ str_eq d.1 k || has_id k ds
unfolding insert_by_tick
has_id-insert k d [] = refl
has_id-insert k d (e ∷ ds) = ground (arith, has_id-insert k d ds)

has_id-sort : (k : String) (ds : List (ℕ × String)) → has_id k (sort_by_tick ds) ≡ has_id k ds
unfolding sort_by_tick
has_id-sort k [] = refl
has_id-sort k (d ∷ ds) = ground (arith, has_id-insert k d (sort_by_tick ds), has_id-sort k ds)

absent_dead :
    (k : String) (access : Assoc ℕ) (ss : Assoc Session)
    → lookup k ss ≡ none
    → has_id k (dead_entries access ss) ≡ false
unfolding dead_entries lookup
absent_dead k access [] e = refl
absent_dead k access ((j, s) ∷ ss) e = ground (arith, absent_dead k access ss)

-- The entries are those of the tombstones.
has_id-dead_entries :
    (k : String) (access : Assoc ℕ) (ss : Assoc Session)
    → IsUnique ss
    → has_id k (dead_entries access ss)
      ≡ (elim (lookup k ss) [ none ↦ false | some s ↦ not (is_alive s) ])
unfolding dead_entries lookup
has_id-dead_entries k access [] u = refl
has_id-dead_entries k access ((j, s) ∷ ss) u =
    ground (arith, has_id-dead_entries k access ss u.1, absent_dead k access ss, eq_iff j k)

abbrev pub candidates : Registry → List (ℕ × String)
candidates r = sort_by_tick (dead_entries r.access r.sessions)

pub has_id-candidates :
    (k : String) (r : Registry)
    → IsRegistry r
    → has_id k (candidates r)
      ≡ (elim (lookup k r.sessions) [ none ↦ false | some s ↦ not (is_alive s) ])
has_id-candidates k r v =
    has_id-sort k (dead_entries r.access r.sessions)
    ∙ has_id-dead_entries k r.access r.sessions v.unique

candidates-AreDead : (r : Registry) → IsRegistry r → AreDead r (candidates r)
candidates-AreDead r v k s h e = ground (arith, has_id-candidates k r v)

-- Admission keeps the accounting.
pub admit-IsRegistry : (r : Registry) (need : ℕ) → IsRegistry r → IsRegistry (admit r need).1
unfolding admit
admit-IsRegistry r need v = elim (Bool-cases (fits r need)) [
  | inl e ↦ rw e v
  | inr e ↦ rw e (evict-IsRegistry r need (candidates r) v)
]

pub limit-admit : (r : Registry) (need : ℕ) → (admit r need).1.limit ≡ r.limit
unfolding admit
limit-admit r need = ground (arith, limit-evict r need (candidates r))

-- With no room left after the loop, all that remains is alive.
evict_all_live :
    (r : Registry) (need : ℕ)
    → IsRegistry r
    → ((k : String)
        → has_id k (candidates r) ≡ true
        → lookup k (evict r need (candidates r)).sessions ≡ none)
    → total (evict r need (candidates r)).sessions ≡ live_total r.sessions
evict_all_live r need v gone =
    total_live (evict r need (candidates r)).sessions
      (evict-IsRegistry r need (candidates r) v).unique alive
    ∙ live_total-evict r need (candidates r) v (candidates-AreDead r v)
  where
    alive :
        (k : String) (s : Session)
        → lookup k (evict r need (candidates r)).sessions ≡ some s
        → is_alive s ≡ true
    alive k s e =
        ground (arith, gone k, has_id-candidates k r v, lookup-evict_other r need (candidates r) k)

fits_lem :
    (r : Registry) (need : ℕ) → r.limit < u64_max → fits r need ≡ leb (r.used_bytes + need) r.limit
fits_lem r need h = ground arith

fits-evict :
    (r : Registry) (need : ℕ)
    → IsRegistry r
    → fits (evict r need (candidates r)) need ≡ leb (live_total r.sessions + need) r.limit
fits-evict r need v =
    let after = evict-IsRegistry r need (candidates r) v in
    let same = limit-evict r need (candidates r) in
    let exact = fits_lem (evict r need (candidates r)) need (omega (arith, same)) in
    let live = live_total-evict r need (candidates r) v (candidates-AreDead r v) in
    elim (evict_end r need (candidates r)) [
      | inl room ↦ ground (
        arith,
        same,
        exact,
        live,
        after.accounted,
        live_total-le (evict r need (candidates r)).sessions,
      )
      | inr gone ↦ ground (arith, same, exact, after.accounted, evict_all_live r need v gone)
    ]

-- Where the registry's accounting holds, a ring is let in exactly when it fits within the limit
-- beside the live sessions' rings.
pub admit-live_total :
    (r : Registry) (need : ℕ)
    → IsRegistry r
    → (admit r need).0 ≡ leb (live_total r.sessions + need) r.limit
unfolding admit
admit-live_total r need v = elim (Bool-cases (fits r need)) [
  | inl e ↦ ground (arith, e, fits_lem r need v.small, v.accounted, live_total-le r.sessions)
  | inr e ↦ rw e (fits-evict r need v)
]

-- Admission never removes a live session.
pub admit_keeps_live :
    (r : Registry) (need : ℕ) (k : String) (s : Session)
    → IsRegistry r
    → lookup k r.sessions ≡ some s
    → is_alive s ≡ true
    → lookup k (admit r need).1.sessions ≡ some s
unfolding admit
admit_keeps_live r need k s v e live = elim (Bool-cases (fits r need)) [
  | inl room ↦ rw room e
  | inr full ↦
      rw full
        (lookup-evict_other r need (candidates r) k (ground (arith, has_id-candidates k r v)) ∙ e)
]

-- Nor does it bring in a session, or change one.
pub admit_only_removes :
    (r : Registry) (need : ℕ) (k : String)
    → (lookup k (admit r need).1.sessions ≡ none)
      ⊎ (lookup k (admit r need).1.sessions ≡ lookup k r.sessions)
unfolding admit
admit_only_removes r need k = elim (Bool-cases (fits r need)) [
  | inl room ↦ rw room (inr refl)
  | inr full ↦ rw full (evict_only_removes r need (candidates r) k)
]

-- What admission answers is whether its result has room.
pub admit-fits : (r : Registry) (need : ℕ) → (admit r need).0 ≡ fits (admit r need).1 need
unfolding admit
admit-fits r need = elim (Bool-cases (fits r need)) [
  | inl room ↦ rw room (sym room)
  | inr full ↦ rw full
]
