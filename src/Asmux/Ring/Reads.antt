-- ===== src/Asmux/Ring/Reads.antt =====
-- ring.rs: a cursor read against the history that the ring holds.
use agent_workspace.Prelude.{
  ℕ, ◌+◌, ◌-◌, ◌≤◌, ◌≡◌, ap, ◌∙◌, min, List, ◌++◌, arith, ltb, ◌==◌, if◌then◌else◌, Bool-cases, inl,
  inr, u64_max, length, take, drop, length-append, length-drop, drop-drop, drop-append, drop_all,
  take-append, take_all, take-nil, take-append-drop,
}
use agent_workspace.Asmux.Ring.{Ring, ReadOutcome, bytes, gap, invalid, copy_range, read_at, tail}
use agent_workspace.Asmux.Ring.History.{Holds}

-- A read of the history itself, of which the bytes before `earliest` are gone.
unfoldable pub read_history : ℕ → List ℕ → ℕ → ℕ → ReadOutcome
read_history earliest h from bound =
    if ltb (length h) from
    then invalid
    else if ltb from earliest
    then gap earliest
    else bytes from (if bound == 0 then drop from h else take bound (drop from h))

-- Wherever the deque is split, the range is cut out of the whole.
copy_range_lem :
    (a b : List ℕ) (skip n : ℕ)
    → skip + n ≤ length a + length b
    → length a + length b ≤ u64_max
    → copy_range a b skip n ≡ take n (drop skip (a ++ b))
unfolding copy_range
copy_range_lem a b skip n within small =
    rw (drop-append skip a b, take-append n (drop skip a) (drop (skip - length a) b))
      (ground (
        arith,
        length-drop skip a,
        take_all n (drop skip a),
        take_all (min n (length a - skip)) (drop skip a),
        drop_all skip a,
      ))

-- The range is that part of the history.
cut :
    (split : ℕ) (r : Ring) (h : List ℕ) (from n : ℕ)
    → Holds r h
    → length h ≤ u64_max
    → tail r ≤ from
    → (from - tail r) + n ≤ length r.buf
    → copy_range (take split r.buf) (drop split r.buf) (from - tail r) n ≡ take n (drop from h)
cut split r h from n w small late within =
    copy_range_lem (take split r.buf) (drop split r.buf) (from - tail r) n
      (omega (arith, split_length)) (omega (arith, split_length))
    ∙ ap (λ xs. take n (drop (from - tail r) xs)) (take-append-drop split r.buf ∙ w.holds)
    ∙ ap (take n) (drop-drop (from - tail r) (tail r) h ∙ ap (λ k. drop k h) (omega arith))
  where
    split_length : length (take split r.buf) + length (drop split r.buf) ≡ length r.buf
    split_length = omega (
      arith,
      length-append (take split r.buf) (drop split r.buf),
      ap length (take-append-drop split r.buf),
    )

-- Bytes that a read within the ring asks for.
abbrev wanted : Ring → ℕ → ℕ → ℕ
wanted r from bound =
    let avail = length r.buf - (from - tail r) in if bound == 0 then avail else min avail bound

wanted_lem :
    (r : Ring) (h : List ℕ) (from bound : ℕ)
    → Holds r h
    → tail r ≤ from
    → from ≤ length h
    → take (wanted r from bound) (drop from h)
      ≡ (if bound == 0 then drop from h else take bound (drop from h))
wanted_lem r h from bound w late early = ground (
  arith,
  take_all (length r.buf - (from - tail r)) (drop from h),
  take_all bound (drop from h),
  length-drop from h,
)

-- Every read of a ring that holds a history, whose length is within a u64, is that read of the
-- history: the outcome, the earliest cursor of a gap, and the bytes, wherever the deque is split.
pub read_at-Holds :
    (split : ℕ) (r : Ring) (h : List ℕ) (from bound : ℕ)
    → Holds r h
    → length h ≤ u64_max
    → read_at split r from bound ≡ read_history (tail r) h from bound
unfolding read_at read_history
read_at-Holds split r h from bound w small = elim (Bool-cases (from == r.head)) [
  | inl top ↦ ground (arith, drop_all from h, take-nil {A = ℕ} bound)
  | inr below ↦
      ground (arith, wanted_lem r h from bound w, cut split r h from (wanted r from bound) w small)
]
