-- ===== src/Asmux/Ring/History.antt =====
-- ring.rs against the whole output of a session: what a ring keeps of it.
use agent_workspace.Prelude.{
  ℕ, ◌+◌, ◌-◌, ◌≤◌, ◌≡◌, ◌≢◌, ◌⊎◌, inl, inr, refl, sym, ap, ◌∙◌, min, Bool, true, false, List, [],
  ◌∷◌, ◌++◌, Option, none, some, arith, sat_add, u64_max, length, drop, length-append, append-nil,
  drop-drop, drop-append, drop_all,
}
use agent_workspace.Asmux.Ring.{Ring, RingError, alloc_failed, new, push, tail}
use agent_workspace.Asmux.Ring.Invariant.{
  IsValid, Outcome, skipped, taken, refused, push-Outcome, push-IsValid, new-IsValid, taken_ring,
  refused_ring, kept, length-taken_ring, length-kept,
}

-- The ring counts the whole history `h` and holds its end from the tail on.
pub record Holds (r : Ring) (h : List ℕ) : Type 0 where
  pub valid : IsValid r
  pub counts : r.head ≡ length h
  pub holds : r.buf ≡ drop (tail r) h

-- A write that the allocator refused records nothing.
abbrev pub recorded : Option RingError → List ℕ → List ℕ → List ℕ
recorded none h input = h ++ input
recorded (some e) h input = h

push-Holds_skipped :
    (r : Ring) (h input : List ℕ)
    → Holds r h
    → length h + length input ≤ u64_max
    → (r.cap ≡ 0) ⊎ (input ≡ [])
    → Holds (record r { head = sat_add r.head (length input) }) (h ++ input)
push-Holds_skipped r h input w fits (inl e) = record {
  valid = omega arith;
  counts = omega (arith, length-append h input);
  holds =
      empty_cap r.buf (omega arith)
      ∙ sym (drop_all _ (h ++ input) (omega (arith, length-append h input)));
}
  where
    empty_cap : (xs : List ℕ) → length xs ≡ 0 → xs ≡ []
    empty_cap xs e = ground arith
push-Holds_skipped r h input w fits (inr e) = record {
  valid = omega arith;
  counts = omega (arith, length-append h input);
  holds = ground (arith, append-nil h);
}

taken_bytes :
    (r : Ring) (h input : List ℕ)
    → Holds r h
    → length h + length input ≤ u64_max
    → (taken_ring r input).buf ≡ drop (tail (taken_ring r input)) (h ++ input)
taken_bytes r h input w fits = rw (drop-append (tail (taken_ring r input)) h input) (
    ground (
      arith,
      length-taken_ring r input,
      length-kept r input,
      drop-drop (length r.buf + min (length input) r.cap - r.cap) (tail r) h,
      drop_all (tail r + (length r.buf + min (length input) r.cap - r.cap)) h,
      drop_all (tail (taken_ring r input)) h,
    ))

refused_bytes :
    (r : Ring) (h input : List ℕ) → Holds r h → kept r input ≡ drop (tail (refused_ring r input)) h
refused_bytes r h input w = ground (
  arith,
  length-kept r input,
  drop-drop (length r.buf + min (length input) r.cap - r.cap) (tail r) h,
)

-- A write by which the allocator stands appends to the history; one that it refuses leaves it.
pub push-Holds :
    (reserved : Bool) (r : Ring) (h input : List ℕ)
    → Holds r h
    → length h + length input ≤ u64_max
    → let (e, r') = push reserved r input in Holds r' (recorded e h input)
push-Holds reserved r h input w fits =
    step (push-Outcome reserved r input w.valid) (push-IsValid reserved r input w.valid)
  where
    step :
        Outcome reserved r input
        → IsValid (push reserved r input).1
        → let (e, r') = push reserved r input in Holds r' (recorded e h input)
    step (skipped c e) v = rw e (push-Holds_skipped r h input w fits c)
    step (taken c n b e) v = rw e (record {
      valid = rw e at v;
      counts = omega (arith, length-append h input);
      holds = taken_bytes r h input w fits;
    })
    step (refused c n b e) v =
        rw e (record { valid = rw e at v; counts = w.counts; holds = refused_bytes r h input w })

-- Writes in order, each with what the allocator answers.
unfoldable pub push_all : Ring → List (Bool × List ℕ) → Ring
push_all r [] = r
push_all r ((reserved, input) ∷ ws) = push_all (push reserved r input).1 ws

-- What those writes record, after `h`.
unfoldable pub record_all : Ring → List ℕ → List (Bool × List ℕ) → List ℕ
record_all r h [] = h
record_all r h ((reserved, input) ∷ ws) =
    record_all (push reserved r input).1 (recorded (push reserved r input).0 h input) ws

abbrev pub offered : List (Bool × List ℕ) → ℕ
offered [] = 0
offered ((reserved, input) ∷ ws) = length input + offered ws

length-recorded :
    (e : Option RingError) (h input : List ℕ)
    → length (recorded e h input) ≤ length h + length input
length-recorded none h input = omega (arith, length-append h input)
length-recorded (some e) h input = omega arith

-- Whatever the allocator answers to each of a list of writes, a ring that held a history holds that
-- history and then the writes that were recorded, while the bytes written stay within a u64.
pub push_all-Holds :
    (r : Ring) (h : List ℕ) (ws : List (Bool × List ℕ))
    → Holds r h
    → length h + offered ws ≤ u64_max
    → Holds (push_all r ws) (record_all r h ws)
unfolding push_all record_all
push_all-Holds r h [] w fits = w
push_all-Holds r h ((reserved, input) ∷ ws) w fits =
    push_all-Holds (push reserved r input).1 (recorded (push reserved r input).0 h input) ws
      (push-Holds reserved r h input w (omega arith))
      (omega (arith, length-recorded (push reserved r input).0 h input))

pub new-Holds : (cap : ℕ) → cap + cap ≤ u64_max → Holds (new cap) []
new-Holds cap h = record { valid = new-IsValid cap h; counts = refl; holds = refl }

-- The ring holds as much of the history as fits.
abbrev pub IsFull : Ring → Type 0
IsFull r = length r.buf ≡ min r.cap r.head

-- While the allocator stands by every write, the tail is the head less the smaller of head and
-- capacity.
pub push-IsFull :
    (r : Ring) (input : List ℕ)
    → IsValid r
    → r.head + length input ≤ u64_max
    → IsFull r
    → IsFull (push true r input).1
push-IsFull r input v fits full = step (push-Outcome true r input v)
  where
    step : Outcome true r input → IsFull (push true r input).1
    step (skipped (inl c) e) = rw e (omega arith)
    step (skipped (inr c) e) = rw e (omega (arith, ap length c))
    step (taken c n b e) = rw e (omega (arith, length-taken_ring r input, length-kept r input))
    step (refused c n b e) = cc

-- A non-empty write to a full ring that has a capacity, refused by the allocator, moves the tail on
-- by what it would have evicted, though the head stays.
pub push-refused_tail :
    (r : Ring) (input : List ℕ)
    → IsValid r
    → IsFull r
    → r.cap ≤ r.head
    → r.cap ≢ 0
    → input ≢ []
    → let (e, r') = push false r input in
      (e ≡ some alloc_failed) × (r'.head ≡ r.head) × (tail r' ≡ tail r + min (length input) r.cap)
push-refused_tail r input v full wrapped c n = step (push-Outcome false r input v)
  where
    step :
        Outcome false r input
        → let (e, r') = push false r input in
          (e ≡ some alloc_failed)
          × (r'.head ≡ r.head)
          × (tail r' ≡ tail r + min (length input) r.cap)
    step (skipped (inl c') e) = absurd (c c')
    step (skipped (inr n') e) = absurd (n n')
    step (taken c n b e) = cc
    step (refused c n b e) = rw e (refl, refl, omega (arith, length-kept r input))
