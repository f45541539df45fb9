-- ===== src/Asmux/Registry/Totals.antt =====
-- crates/asmux/src/registry.rs: the ring memory of all sessions, and of the live ones.
use agent_workspace.Prelude.{
  ℕ, ◌+◌, ◌≤◌, String, ◌≡◌, refl, true, none, some, [], ◌∷◌, arith, eq_iff, if◌then◌else◌, Assoc,
  lookup, insert, remove, adjust, IsUnique,
}
use agent_workspace.Asmux.Session.{Session, is_alive}

abbrev pub capacity : Session → ℕ
capacity s = s.ring.cap

unfoldable pub total : Assoc Session → ℕ
total [] = 0
total ((k, s) ∷ ss) = capacity s + total ss

unfoldable pub live_total : Assoc Session → ℕ
live_total [] = 0
live_total ((k, s) ∷ ss) = (if is_alive s then capacity s else 0) + live_total ss

pub live_total-le : (ss : Assoc Session) → live_total ss ≤ total ss
unfolding total live_total
live_total-le [] = omega arith
live_total-le ((k, s) ∷ ss) = ground (arith, live_total-le ss)

pub remove_absent : (k : String) (ss : Assoc Session) → lookup k ss ≡ none → remove k ss ≡ ss
unfolding remove lookup
remove_absent k [] e = refl
remove_absent k ((j, s) ∷ ss) e = ground (arith, remove_absent k ss)

pub total-remove :
    (k : String) (ss : Assoc Session) (s : Session)
    → IsUnique ss
    → lookup k ss ≡ some s
    → total ss ≡ capacity s + total (remove k ss)
unfolding total remove lookup
total-remove k [] s u e = cc
total-remove k ((j, t) ∷ ss) s u e =
    ground (arith, total-remove k ss s u.1, remove_absent k ss, eq_iff j k)

pub live_total-remove :
    (k : String) (ss : Assoc Session) (s : Session)
    → IsUnique ss
    → lookup k ss ≡ some s
    → live_total ss ≡ (if is_alive s then capacity s else 0) + live_total (remove k ss)
unfolding live_total remove lookup
live_total-remove k [] s u e = cc
live_total-remove k ((j, t) ∷ ss) s u e =
    ground (arith, live_total-remove k ss s u.1, remove_absent k ss, eq_iff j k)

pub total-insert :
    (k : String) (s : Session) (ss : Assoc Session)
    → lookup k ss ≡ none
    → total (insert k s ss) ≡ capacity s + total ss
unfolding total insert lookup
total-insert k s [] e = refl
total-insert k s ((j, t) ∷ ss) e = ground (arith, total-insert k s ss)

pub total-adjust :
    (k : String) (f : Session → Session) (ss : Assoc Session)
    → ((s : Session) → capacity (f s) ≡ capacity s)
    → total (adjust k f ss) ≡ total ss
unfolding total adjust
total-adjust k f [] h = refl
total-adjust k f ((j, t) ∷ ss) h = ground (arith, total-adjust k f ss h, h t)

-- Where every session that is found is alive, all the memory is live.
pub total_live :
    (ss : Assoc Session)
    → IsUnique ss
    → ((k : String) (s : Session) → lookup k ss ≡ some s → is_alive s ≡ true)
    → total ss ≡ live_total ss
unfolding total live_total lookup
total_live [] u h = refl
total_live ((j, t) ∷ ss) u h =
    let tail_alive : (k : String) (s : Session) → lookup k ss ≡ some s → is_alive s ≡ true =
      λ k s e. h k s (ground (arith, eq_iff j k)) in
    ground (arith, h j t (ground (arith, eq_iff j j)), total_live ss u.1 tail_alive)
