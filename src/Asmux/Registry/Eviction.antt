-- ===== src/Asmux/Registry/Eviction.antt =====
-- crates/asmux/src/registry.rs: what the eviction loop removes, and what it keeps.
use agent_workspace.Prelude.{
  ℕ, ◌≤◌, ◌<◌, String, ◌≡◌, refl, ◌∙◌, ◌⊎◌, inl, inr, Bool, true, false, ◌||◌, none, some, List, [],
  ◌∷◌, arith, str_eq, eq_iff, if◌then◌else◌, Bool-cases, Option-cases, u64_max, lookup,
  lookup-remove, IsUnique, IsUnique-remove,
}
use agent_workspace.Asmux.Session.{Session, is_alive}
use agent_workspace.Asmux.Registry.{Registry, remove_session, fits, evict}
use agent_workspace.Asmux.Registry.Totals.{total, live_total, total-remove, live_total-remove}

-- Each session has one entry, the used bytes are the sum of the capacities, and within the limit.
pub record IsRegistry (r : Registry) : Type 0 where
  pub unique : IsUnique r.sessions
  pub accounted : r.used_bytes ≡ total r.sessions
  pub within : r.used_bytes ≤ r.limit
  pub small : r.limit < u64_max

abbrev pub has_id : String → List (ℕ × String) → Bool
has_id k [] = false
has_id k ((t, id) ∷ ds) = str_eq id k || has_id k ds

-- The entries name tombstones only.
abbrev pub AreDead : Registry → List (ℕ × String) → Type 0
AreDead r ds =
    (k : String) (s : Session)
    → has_id k ds ≡ true
    → lookup k r.sessions ≡ some s
    → is_alive s ≡ false

pub lookup-remove_session :
    (r : Registry) (id k : String)
    → lookup k (remove_session r id).sessions ≡ (if str_eq id k then none else lookup k r.sessions)
unfolding remove_session
lookup-remove_session r id k = ground (arith, lookup-remove id k r.sessions, eq_iff id k)

pub remove_session-IsRegistry :
    (r : Registry) (id : String) → IsRegistry r → IsRegistry (remove_session r id)
unfolding remove_session
remove_session-IsRegistry r id v = elim (Option-cases (lookup id r.sessions)) [
  | inl e ↦
      rw (e, remove_session)
        (record { unique = v.unique; accounted = v.accounted; within = v.within; small = v.small })
  | inr (s, e) ↦
      rw (e, remove_session)
        (record {
          unique = IsUnique-remove id r.sessions v.unique;
          accounted = omega (arith, v.accounted, total-remove id r.sessions s v.unique e);
          within = omega (arith, v.within);
          small = v.small;
        })
]

live_total-remove_session :
    (r : Registry) (id : String)
    → IsRegistry r
    → ((s : Session) → lookup id r.sessions ≡ some s → is_alive s ≡ false)
    → live_total (remove_session r id).sessions ≡ live_total r.sessions
unfolding remove_session
live_total-remove_session r id v dead = elim (Option-cases (lookup id r.sessions)) [
  | inl e ↦ rw (e, remove_session)
  | inr (s, e) ↦
      rw (e, remove_session)
        (ground (arith, live_total-remove id r.sessions s v.unique e, dead s e))
]

limit-remove_session : (r : Registry) (id : String) → (remove_session r id).limit ≡ r.limit
unfolding remove_session
limit-remove_session r id = ground arith

pub limit-evict :
    (r : Registry) (need : ℕ) (ds : List (ℕ × String)) → (evict r need ds).limit ≡ r.limit
unfolding evict
limit-evict r need [] = refl
limit-evict r need ((t, id) ∷ ds) =
    ground (arith, limit-evict (remove_session r id) need ds, limit-remove_session r id)

pub evict-IsRegistry :
    (r : Registry) (need : ℕ) (ds : List (ℕ × String)) → IsRegistry r → IsRegistry (evict r need ds)
unfolding evict
evict-IsRegistry r need [] v = v
evict-IsRegistry r need ((t, id) ∷ ds) v = elim (Bool-cases (fits r need)) [
  | inl e ↦ rw e v
  | inr e ↦ rw e (evict-IsRegistry (remove_session r id) need ds (remove_session-IsRegistry r id v))
]

-- A session that the loop is not given stays as it was.
pub lookup-evict_other :
    (r : Registry) (need : ℕ) (ds : List (ℕ × String)) (k : String)
    → has_id k ds ≡ false
    → lookup k (evict r need ds).sessions ≡ lookup k r.sessions
unfolding evict
lookup-evict_other r need [] k h = refl
lookup-evict_other r need ((t, id) ∷ ds) k h =
    ground (arith, lookup-evict_other (remove_session r id) need ds k, lookup-remove_session r id k)

-- A session that is not there does not come back.
pub lookup-evict-none :
    (r : Registry) (need : ℕ) (ds : List (ℕ × String)) (k : String)
    → lookup k r.sessions ≡ none
    → lookup k (evict r need ds).sessions ≡ none
unfolding evict
lookup-evict-none r need [] k h = h
lookup-evict-none r need ((t, id) ∷ ds) k h =
    ground (arith, lookup-evict-none (remove_session r id) need ds k, lookup-remove_session r id k)

-- The loop ends with room, or with every entry gone.
pub evict_end :
    (r : Registry) (need : ℕ) (ds : List (ℕ × String))
    → (fits (evict r need ds) need ≡ true)
      ⊎ ((k : String) → has_id k ds ≡ true → lookup k (evict r need ds).sessions ≡ none)
unfolding evict
evict_end r need [] = inr (λ k e. cc)
evict_end r need ((t, id) ∷ ds) = elim (Bool-cases (fits r need)) [
  | inl e ↦ rw e (inl e)
  | inr e ↦ rw e (elim (evict_end (remove_session r id) need ds) [
    | inl room ↦ inl room
    | inr gone ↦ inr λ k h. elim (Bool-cases (str_eq id k)) [
      | inl same ↦
          lookup-evict-none (remove_session r id) need ds k
            (ground (arith, lookup-remove_session r id k))
      | inr other ↦ gone k (ground arith)
    ]
  ])
]

AreDead-remove :
    (r : Registry) (t : ℕ) (id : String) (ds : List (ℕ × String))
    → AreDead r ((t, id) ∷ ds)
    → AreDead (remove_session r id) ds
AreDead-remove r t id ds dead k s h e =
    dead k s (ground arith) (ground (arith, lookup-remove_session r id k))

pub live_total-evict :
    (r : Registry) (need : ℕ) (ds : List (ℕ × String))
    → IsRegistry r
    → AreDead r ds
    → live_total (evict r need ds).sessions ≡ live_total r.sessions
unfolding evict
live_total-evict r need [] v dead = refl
live_total-evict r need ((t, id) ∷ ds) v dead = elim (Bool-cases (fits r need)) [
  | inl e ↦ rw e
  | inr e ↦ rw e (
      live_total-evict (remove_session r id) need ds (remove_session-IsRegistry r id v)
        (AreDead-remove r t id ds dead)
      ∙ live_total-remove_session r id v
          (λ s found. dead id s (ground (arith, eq_iff id id)) found))
]

pub evict_only_removes :
    (r : Registry) (need : ℕ) (ds : List (ℕ × String)) (k : String)
    → (lookup k (evict r need ds).sessions ≡ none)
      ⊎ (lookup k (evict r need ds).sessions ≡ lookup k r.sessions)
unfolding evict
evict_only_removes r need [] k = inr refl
evict_only_removes r need ((t, id) ∷ ds) k =
    ground (arith, evict_only_removes (remove_session r id) need ds k, lookup-remove_session r id k)
