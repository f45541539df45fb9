-- ===== src/Asmux/Ring.antt =====
-- crates/asmux/src/ring.rs: the byte ring of one session, with global cursors.
-- What `try_reserve` answers, and where `as_slices` splits the deque, are arguments.
pub mod Invariant
pub mod History
pub mod Reads
pub mod Window
mod Tests
use agent_workspace.Prelude.{
  ℕ, ◌-◌, min, Bool, ◌||◌, Option, none, some, List, [], ◌++◌, ltb, ◌==◌, if◌then◌else◌, unwrap_or,
  sat_add, length, take, drop, slice?,
}

pub data RingError : Type 0 where
  alloc_failed : RingError

pub data ReadOutcome : Type 0 where
  bytes : ℕ → List ℕ → ReadOutcome
  gap : ℕ → ReadOutcome
  invalid : ReadOutcome

pub record Ring : Type 0 where
  pub cap : ℕ
  pub buf : List ℕ
  pub head : ℕ

abbrev pub new : ℕ → Ring
new cap = record { cap = cap; buf = []; head = 0 }

abbrev pub tail : Ring → ℕ
tail r = r.head - length r.buf

abbrev pub drop_front : List ℕ → ℕ → List ℕ
drop_front buf n = drop (min n (length buf)) buf

-- The deque after the eviction that makes room for `keep` bytes.
abbrev pub evict : Ring → ℕ → List ℕ
evict r keep =
    let projected = sat_add (length r.buf) keep in
    if ltb r.cap projected then drop_front r.buf (projected - r.cap) else r.buf

-- The end of `input` that the ring can retain.
abbrev pub retained : Ring → List ℕ → List ℕ
retained r input =
    let start = length input - min (length input) r.cap in
    unwrap_or input (slice? input start (length input))

-- `reserved` is what `try_reserve` answers. The result says whether the bytes were taken.
unfoldable pub push : Bool → Ring → List ℕ → Option RingError × Ring
push reserved r input =
    if r.cap == 0 || length input == 0
    then (none, record r { head = sat_add r.head (length input) })
    else let kept = evict r (min (length input) r.cap) in
      if reserved
      then (none, record r { buf = kept ++ retained r input; head = sat_add r.head (length input) })
      else (some alloc_failed, record r { buf = kept })

-- `a` and `b` are the two slices of the deque.
unfoldable pub copy_range : List ℕ → List ℕ → ℕ → ℕ → List ℕ
copy_range a b skip n =
    if ltb skip (length a)
    then (let take_a = min n (length a - skip) in
        let rem = n - take_a in
        unwrap_or [] (slice? a skip (sat_add skip take_a))
        ++ (if ltb 0 rem then unwrap_or [] (slice? b 0 rem) else []))
    else let bskip = skip - length a in unwrap_or [] (slice? b bskip (sat_add bskip n))

-- The first `split` bytes of the deque are its first slice.
unfoldable pub read_at : ℕ → Ring → ℕ → ℕ → ReadOutcome
unfolding copy_range
read_at split r from bound =
    if ltb r.head from
    then invalid
    else if ltb from (tail r)
    then gap (tail r)
    else if from == r.head
    then bytes from []
    else let skip = from - tail r in
      let avail = length r.buf - skip in
      let want = if bound == 0 then avail else min avail bound in
      bytes from (copy_range (take split r.buf) (drop split r.buf) skip want)
