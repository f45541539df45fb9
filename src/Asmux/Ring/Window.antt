-- ===== src/Asmux/Ring/Window.antt =====
-- crates/asmux/src/ring.rs: exactly which bytes of a session's output a ring retains.
use agent_workspace.Prelude.{
  ℕ, ◌+◌, ◌-◌, ◌≤◌, ◌≡◌, ◌≢◌, ◌∙◌, refl, ap, inl, inr, min, max, Bool, ◌||◌, List, [], ◌∷◌, ◌++◌,
  arith, ◌==◌, if◌then◌else◌, u64_max, length, drop, length-append,
}
use agent_workspace.Asmux.Ring.{Ring, new, push, tail}
use agent_workspace.Asmux.Ring.Invariant.{
  Outcome, skipped, taken, refused, push-Outcome, length-taken_ring, length-kept,
}
use agent_workspace.Asmux.Ring.History.{
  Holds, recorded, push-Holds, new-Holds, push_all, offered, IsFull,
}

-- The bytes that were recorded, and the position of the first that must still be there.
pub record Log : Type 0 where
  pub history : List ℕ
  pub oldest : ℕ

-- A write is recorded unless the allocator refuses it, and what is more than a capacity before the
-- end is given up; a refused write gives up what would have made room for it.
abbrev pub log_write : ℕ → Log → Bool → List ℕ → Log
log_write cap l reserved input =
    if reserved || (cap == 0 || length input == 0)
    then record {
      history = l.history ++ input;
      oldest = max l.oldest (length l.history + length input - cap);
    }
    else record l { oldest = max l.oldest (length l.history + min (length input) cap - cap) }

unfoldable pub log_all : ℕ → Log → List (Bool × List ℕ) → Log
log_all cap l [] = l
log_all cap l ((reserved, input) ∷ ws) = log_all cap (log_write cap l reserved input) ws

Retains : Ring → Log → Type 0
Retains r l = Holds r l.history × (tail r ≡ l.oldest)

pub push-cap : (reserved : Bool) (r : Ring) (input : List ℕ) → (push reserved r input).1.cap ≡ r.cap
unfolding push
push-cap reserved r input = ground arith

nonzero : (xs : List ℕ) → xs ≢ [] → length xs ≢ 0
nonzero [] n = absurd (n refl)
nonzero (x ∷ xs) n = omega arith

log-recorded :
    (reserved : Bool) (r : Ring) (l : Log) (input : List ℕ)
    → Holds r l.history
    → (log_write r.cap l reserved input).history
      ≡ recorded (push reserved r input).0 l.history input
log-recorded reserved r l input w = step (push-Outcome reserved r input w.valid)
  where
    step :
        Outcome reserved r input
        → (log_write r.cap l reserved input).history
          ≡ recorded (push reserved r input).0 l.history input
    step (skipped (inl c) e) = rw e (ground arith)
    step (skipped (inr c) e) = rw e (ground (arith, ap length c))
    step (taken c n b e) = rw e (ground arith)
    step (refused c n b e) = rw e (ground (arith, nonzero input n))

push_tail :
    (reserved : Bool) (r : Ring) (l : Log) (input : List ℕ)
    → Retains r l
    → length l.history + length input ≤ u64_max
    → tail (push reserved r input).1 ≡ (log_write r.cap l reserved input).oldest
unfolding Retains
push_tail reserved r l input w fits = step (push-Outcome reserved r input w.0.valid)
  where
    step :
        Outcome reserved r input
        → tail (push reserved r input).1 ≡ (log_write r.cap l reserved input).oldest
    step (skipped (inl c) e) = rw e (ground arith)
    step (skipped (inr c) e) = rw e (ground (arith, ap length c))
    step (taken c n b e) = rw e (ground (arith, length-taken_ring r input, length-kept r input))
    step (refused c n b e) = rw e (ground (arith, length-kept r input, nonzero input n))

Retains-push :
    (reserved : Bool) (r : Ring) (l : Log) (input : List ℕ)
    → Retains r l
    → length l.history + length input ≤ u64_max
    → Retains (push reserved r input).1 (log_write r.cap l reserved input)
unfolding Retains
Retains-push reserved r l input w fits = (
  rw (log-recorded reserved r l input w.0) (push-Holds reserved r l.history input w.0 fits),
  push_tail reserved r l input w fits,
)

length-log_write :
    (cap : ℕ) (l : Log) (reserved : Bool) (input : List ℕ)
    → length (log_write cap l reserved input).history ≤ length l.history + length input
length-log_write cap l reserved input = ground (arith, length-append l.history input)

Retains-push_all :
    (r : Ring) (l : Log) (ws : List (Bool × List ℕ))
    → Retains r l
    → length l.history + offered ws ≤ u64_max
    → Retains (push_all r ws) (log_all r.cap l ws)
unfolding push_all log_all
Retains-push_all r l [] w fits = w
Retains-push_all r l ((reserved, input) ∷ ws) w fits = rw (push-cap reserved r input) at (
    Retains-push_all (push reserved r input).1 (log_write r.cap l reserved input) ws
      (Retains-push reserved r l input w (omega arith))
      (omega (arith, length-log_write r.cap l reserved input)))

abbrev pub nothing_written : Log
nothing_written = record { history = []; oldest = 0 }

-- Whatever the allocator answers to each of a list of writes to a new ring, while they stay within
-- a u64: the head counts the bytes of the writes that were recorded, and the ring holds exactly
-- these bytes from the oldest position on, which is the start, or a capacity before the end if that
-- is later, or further on where a refused write has given up more.
pub push_all-log_all :
    (cap : ℕ) (ws : List (Bool × List ℕ))
    → cap + cap ≤ u64_max
    → offered ws ≤ u64_max
    → let l = log_all cap nothing_written ws in
      ((push_all (new cap) ws).head ≡ length l.history)
      × ((push_all (new cap) ws).buf ≡ drop l.oldest l.history)
unfolding Retains
push_all-log_all cap ws small fits =
    let start : Retains (new cap) nothing_written = (new-Holds cap small, refl) in
    let end = Retains-push_all (new cap) nothing_written ws start (omega arith) in
    (end.0.counts, end.0.holds ∙ ap (λ k. drop k (log_all cap nothing_written ws).history) end.1)

-- The ring counts all of the output, and holds as much of its end as fits.
abbrev pub HoldsEnd : Ring → List ℕ → Type 0
HoldsEnd r h = (r.head ≡ length h) × (r.buf ≡ drop (length h - r.cap) h)

pub Holds-HoldsEnd : (r : Ring) (h : List ℕ) → Holds r h → IsFull r → HoldsEnd r h
Holds-HoldsEnd r h w full =
    let e : tail r ≡ length h - r.cap = omega (arith, w.counts) in
    (w.counts, w.holds ∙ ap (λ k. drop k h) e)
