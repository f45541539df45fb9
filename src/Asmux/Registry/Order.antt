-- ===== src/Asmux/Registry/Order.antt =====
-- crates/asmux/src/registry.rs: which tombstones go first.
use agent_workspace.Prelude.{
  ℕ, ◌≤◌, String, ◌≡◌, inl, inr, true, false, none, some, List, [], ◌∷◌, arith, str_eq, eq_iff,
  Bool-cases, unwrap_or, Assoc, lookup, All,
}
use agent_workspace.Asmux.Session.{Session, is_alive}
use agent_workspace.Asmux.Registry.{
  Registry, remove_session, fits, evict, admit, dead_entries, sort_by_tick, insert_by_tick,
}
use agent_workspace.Asmux.Registry.Eviction.{
  IsRegistry, has_id, lookup-remove_session, lookup-evict-none, lookup-evict_other,
  evict_only_removes,
}
use agent_workspace.Asmux.Registry.Admission.{candidates, has_id-candidates}

-- The last access of a session, 0 if it has none.
abbrev pub last_access : Registry → String → ℕ
last_access r id = unwrap_or 0 (lookup id r.access)

abbrev AreAbove : ℕ → List (ℕ × String) → Type 0
AreAbove t = All (λ d. t ≤ d.0)

abbrev IsSorted : List (ℕ × String) → Type 0
IsSorted [] = Unit
IsSorted (d ∷ ds) = AreAbove d.0 ds × IsSorted ds

AreAbove-mono : (t u : ℕ) (ds : List (ℕ × String)) → t ≤ u → AreAbove u ds → AreAbove t ds
AreAbove-mono t u [] h a = tt
AreAbove-mono t u (d ∷ ds) h a = (omega arith, AreAbove-mono t u ds h a.1)

AreAbove-insert :
    (t : ℕ) (d : ℕ × String) (ds : List (ℕ × String))
    → t ≤ d.0
    → AreAbove t ds
    → AreAbove t (insert_by_tick d ds)
unfolding insert_by_tick
AreAbove-insert t d [] h a = (h, tt)
AreAbove-insert t d (e ∷ ds) h a = ground (arith, AreAbove-insert t d ds h a.1)

insert-IsSorted :
    (d : ℕ × String) (ds : List (ℕ × String)) → IsSorted ds → IsSorted (insert_by_tick d ds)
unfolding insert_by_tick
insert-IsSorted d [] s = (tt, tt)
insert-IsSorted d (e ∷ ds) s =
    ground (arith, insert-IsSorted d ds s.1, AreAbove-insert e.0 d ds, AreAbove-mono d.0 e.0 ds)

sort-IsSorted : (ds : List (ℕ × String)) → IsSorted (sort_by_tick ds)
unfolding sort_by_tick
sort-IsSorted [] = tt
sort-IsSorted (d ∷ ds) = insert-IsSorted d (sort_by_tick ds) (sort-IsSorted ds)

-- Each entry carries the tick of its session.
abbrev AreTicks : (String → ℕ) → List (ℕ × String) → Type 0
AreTicks tick_of = All (λ d. d.0 ≡ tick_of d.1)

insert-AreTicks :
    (tick_of : String → ℕ) (d : ℕ × String) (ds : List (ℕ × String))
    → d.0 ≡ tick_of d.1
    → AreTicks tick_of ds
    → AreTicks tick_of (insert_by_tick d ds)
unfolding insert_by_tick
insert-AreTicks tick_of d [] h a = (h, tt)
insert-AreTicks tick_of d (e ∷ ds) h a = ground (arith, insert-AreTicks tick_of d ds h a.1)

sort-AreTicks :
    (tick_of : String → ℕ) (ds : List (ℕ × String))
    → AreTicks tick_of ds
    → AreTicks tick_of (sort_by_tick ds)
unfolding sort_by_tick
sort-AreTicks tick_of [] a = tt
sort-AreTicks tick_of (d ∷ ds) a =
    insert-AreTicks tick_of d (sort_by_tick ds) a.0 (sort-AreTicks tick_of ds a.1)

dead_entries-AreTicks :
    (access : Assoc ℕ) (ss : Assoc Session)
    → AreTicks (λ id. unwrap_or 0 (lookup id access)) (dead_entries access ss)
unfolding dead_entries
dead_entries-AreTicks access [] = tt
dead_entries-AreTicks access ((j, s) ∷ ss) = ground (arith, dead_entries-AreTicks access ss)

above_tick :
    (tick_of : String → ℕ) (t : ℕ) (ds : List (ℕ × String)) (k : String)
    → AreAbove t ds
    → AreTicks tick_of ds
    → has_id k ds ≡ true
    → t ≤ tick_of k
above_tick tick_of t [] k a b h = absurd (cc h)
above_tick tick_of t ((u, id) ∷ ds) k a b h = elim (Bool-cases (str_eq id k)) [
  | inl e ↦ ground (arith, eq_iff id k)
  | inr e ↦ above_tick tick_of t ds k a.1 b.1 (ground arith)
]

-- An entry that the loop removes was accessed no later than one that it keeps.
evict_order :
    (tick_of : String → ℕ) (r : Registry) (need : ℕ) (ds : List (ℕ × String)) (k j : String)
    (s t : Session)
    → IsSorted ds
    → AreTicks tick_of ds
    → lookup k r.sessions ≡ some s
    → lookup k (evict r need ds).sessions ≡ none
    → has_id j ds ≡ true
    → lookup j (evict r need ds).sessions ≡ some t
    → tick_of k ≤ tick_of j
unfolding evict
evict_order tick_of r need [] k j s t o a found gone h kept = absurd (cc h)
evict_order tick_of r need ((u, id) ∷ ds) k j s t o a found gone h kept =
    elim (Bool-cases (fits r need)) [
      | inl room ↦ absurd (ground arith)
      | inr full ↦
          let still : str_eq id j ≡ false = ground (
            arith,
            lookup-evict-none (remove_session r id) need ds j,
            lookup-remove_session r id j,
          ) in
          let later : u ≤ tick_of j = above_tick tick_of u ds j o.0 a.1 (ground arith) in
          elim (Bool-cases (str_eq id k)) [
            | inl same ↦ ground (arith, eq_iff id k)
            | inr other ↦
                evict_order tick_of (remove_session r id) need ds k j s t o.1 a.1
                  (ground (arith, lookup-remove_session r id k)) (ground arith) (ground arith)
                  (ground arith)
          ]
    ]

-- Where the accounting holds, a session that admission removes is a tombstone, and was accessed no
-- later than any tombstone that it keeps.
pub admit_order :
    (r : Registry) (need : ℕ) (k j : String) (s t : Session)
    → IsRegistry r
    → lookup k r.sessions ≡ some s
    → lookup k (admit r need).1.sessions ≡ none
    → lookup j (admit r need).1.sessions ≡ some t
    → is_alive t ≡ false
    → (is_alive s ≡ false) × (last_access r k ≤ last_access r j)
unfolding admit
admit_order r need k j s t v found gone kept dead = elim (Bool-cases (fits r need)) [
  | inl room ↦ absurd (ground arith)
  | inr full ↦
      let gone' : lookup k (evict r need (candidates r)).sessions ≡ none = ground arith in
      let kept' : lookup j (evict r need (candidates r)).sessions ≡ some t = ground arith in
      (
        ground (arith, lookup-evict_other r need (candidates r) k, has_id-candidates k r v),
        evict_order (last_access r) r need (candidates r) k j s t
            (sort-IsSorted (dead_entries r.access r.sessions))
            (sort-AreTicks (last_access r) (dead_entries r.access r.sessions)
              (dead_entries-AreTicks r.access r.sessions))
            found gone'
            (ground (arith, evict_only_removes r need (candidates r) j, has_id-candidates j r v))
            kept',
      )
]
