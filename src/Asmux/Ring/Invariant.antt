-- ===== src/Asmux/Ring/Invariant.antt =====
-- ring.rs: the representation invariant of a ring, and what every write keeps.
use native.Mathlib.Decide.{ℕ_discrete}
use agent_workspace.Prelude.{
  ℕ, ◌+◌, ◌-◌, ◌≤◌, ◌≡◌, ◌≢◌, ◌⊎◌, inl, inr, refl, min, Bool, true, false, List, [], ◌∷◌, ◌++◌,
  none, some, arith, sat_add, u64_max, length, drop, length-append, length-drop, take_all,
}
use agent_workspace.Asmux.Ring.{Ring, new, push, evict, retained, alloc_failed}

-- A capacity is a usize far below its limit, so the projected length does not saturate.
pub record IsValid (r : Ring) : Type 0 where
  pub small : r.cap + r.cap ≤ u64_max
  pub bounded : length r.buf ≤ r.cap
  pub counted : length r.buf ≤ r.head

pub evict_lem :
    (r : Ring) (keep : ℕ)
    → IsValid r
    → keep ≤ r.cap
    → evict r keep ≡ drop (length r.buf + keep - r.cap) r.buf
evict_lem r keep v h = ground arith

pub retained_lem :
    (r : Ring) (input : List ℕ) → retained r input ≡ drop (length input - r.cap) input
retained_lem r input = ground (
  arith,
  take_all (length input - (length input - r.cap)) (drop (length input - r.cap) input),
  length-drop (length input - r.cap) input,
)

-- The ring after a write that the allocator takes, and after one that it refuses.
abbrev pub kept : Ring → List ℕ → List ℕ
kept r input = drop (length r.buf + min (length input) r.cap - r.cap) r.buf

abbrev pub taken_ring : Ring → List ℕ → Ring
taken_ring r input = record r {
  buf = kept r input ++ drop (length input - r.cap) input;
  head = sat_add r.head (length input);
}

abbrev pub refused_ring : Ring → List ℕ → Ring
refused_ring r input = record r { buf = kept r input }

abbrev pub skipped_ring : Ring → List ℕ → Ring
skipped_ring r input = record r { head = sat_add r.head (length input) }

push_taken :
    (r : Ring) (input : List ℕ)
    → IsValid r
    → r.cap ≢ 0
    → input ≢ []
    → push true r input ≡ (none, taken_ring r input)
unfolding push
push_taken r input v c e =
    ground (arith, evict_lem r (min (length input) r.cap) v, retained_lem r input)

push_refused :
    (r : Ring) (input : List ℕ)
    → IsValid r
    → r.cap ≢ 0
    → input ≢ []
    → push false r input ≡ (some alloc_failed, refused_ring r input)
unfolding push
push_refused r input v c e = ground (arith, evict_lem r (min (length input) r.cap) v)

push_skipped :
    (reserved : Bool) (r : Ring) (input : List ℕ)
    → (r.cap ≡ 0) ⊎ (input ≡ [])
    → push reserved r input ≡ (none, skipped_ring r input)
unfolding push
push_skipped reserved r input (inl e) = ground arith
push_skipped reserved r input (inr e) = ground arith

-- The ways a write can go, with its result: skipped, taken, or refused by the allocator.
pub data Outcome (reserved : Bool) (r : Ring) (input : List ℕ) : Type 0 where
  skipped :
      (r.cap ≡ 0) ⊎ (input ≡ [])
      → push reserved r input ≡ (none, skipped_ring r input)
      → Outcome reserved r input
  taken :
      r.cap ≢ 0
      → input ≢ []
      → reserved ≡ true
      → push reserved r input ≡ (none, taken_ring r input)
      → Outcome reserved r input
  refused :
      r.cap ≢ 0
      → input ≢ []
      → reserved ≡ false
      → push reserved r input ≡ (some alloc_failed, refused_ring r input)
      → Outcome reserved r input

pub push-Outcome :
    (reserved : Bool) (r : Ring) (input : List ℕ) → IsValid r → Outcome reserved r input
push-Outcome reserved r [] v = skipped (inr refl) (push_skipped reserved r [] (inr refl))
push-Outcome reserved r (x ∷ xs) v = elim (ℕ_discrete r.cap 0) [
  | yes e ↦ skipped (inl e) (push_skipped reserved r (x ∷ xs) (inl e))
  | no c ↦ nonempty reserved c
]
  where
    nonempty : (b : Bool) → r.cap ≢ 0 → Outcome b r (x ∷ xs)
    nonempty true c = taken c (λ e. cc) refl (push_taken r (x ∷ xs) v c (λ e. cc))
    nonempty false c = refused c (λ e. cc) refl (push_refused r (x ∷ xs) v c (λ e. cc))

pub length-kept :
    (r : Ring) (input : List ℕ)
    → length (kept r input) ≡ length r.buf - (length r.buf + min (length input) r.cap - r.cap)
length-kept r input = length-drop (length r.buf + min (length input) r.cap - r.cap) r.buf

pub length-taken_ring :
    (r : Ring) (input : List ℕ)
    → length (taken_ring r input).buf
      ≡ length (kept r input) + (length input - (length input - r.cap))
length-taken_ring r input = omega (
  arith,
  length-append (kept r input) (drop (length input - r.cap) input),
  length-drop (length input - r.cap) input,
)

-- A new ring of at most half the address space is valid.
pub new-IsValid : (cap : ℕ) → cap + cap ≤ u64_max → IsValid (new cap)
new-IsValid cap h = record { small = h; bounded = omega arith; counted = omega arith }

-- A write keeps the ring within its capacity, and holding no more than was ever counted.
pub push-IsValid :
    (reserved : Bool) (r : Ring) (input : List ℕ) → IsValid r → IsValid (push reserved r input).1
push-IsValid reserved r input v = step (push-Outcome reserved r input v)
  where
    step : Outcome reserved r input → IsValid (push reserved r input).1
    step (skipped c e) = rw e (omega arith)
    step (taken c n b e) = rw e (omega (arith, length-taken_ring r input, length-kept r input))
    step (refused c n b e) = rw e (omega (arith, length-kept r input))
