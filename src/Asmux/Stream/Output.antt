-- ===== src/Asmux/Stream/Output.antt =====
-- server.rs: what a stream sends of its session's history, and how it ends.
use agent_workspace.Prelude.{
  ℕ, zero, suc, ◌+◌, ◌-◌, ◌≤◌, min, ◌≡◌, refl, sym, ap, ◌∙◌, true, false, List, [], ◌∷◌, ◌++◌,
  append-nil, arith, u64_max, length, take, drop, length-take, length-drop, take-nil, drop-drop,
  drop-take, take-take,
}
use agent_workspace.Asmux.Ring.{tail, bytes}
use agent_workspace.Asmux.Ring.History.{Holds}
use agent_workspace.Asmux.Ring.Reads.{read_history, read_at-Holds}
use agent_workspace.Asmux.Session
use agent_workspace.Asmux.Session.{Session, stream_chunk}
use agent_workspace.Asmux.Wire.{Frame, session_output}
use agent_workspace.Asmux.Server.{StreamTask}
use agent_workspace.Asmux.Stream.{Views, stream_iteration}

-- The bytes of the output frames, in order.
unfoldable pub output_of : List Frame → List ℕ
output_of [] = []
output_of (session_output sid head input ∷ fs) = input ++ output_of fs
output_of (_ ∷ fs) = output_of fs

-- The bytes that come next from a cursor.
abbrev pub next_bytes : List ℕ → ℕ → List ℕ
next_bytes h from = take stream_chunk (drop from h)

within_history :
    (earliest from n : ℕ) (h : List ℕ)
    → earliest ≤ from
    → from ≤ length h
    → read_history earliest h from (suc n) ≡ bytes from (take (suc n) (drop from h))
unfolding read_history
within_history earliest from n h late early = ground arith

pub iteration_read :
    (split : ℕ) (s : Session) (h : List ℕ) (from : ℕ)
    → Holds s.ring h
    → length h ≤ u64_max
    → tail s.ring ≤ from
    → from ≤ length h
    → Session.read_at split s from 0 ≡ bytes from (next_bytes h from)
iteration_read split s h from holds small late early =
    read_at-Holds split s.ring h from stream_chunk holds small
    ∙ within_history (tail s.ring) from (stream_chunk - 1) h late (omega (arith, holds.counts))

sends :
    (split : ℕ) (v : Views) (t : StreamTask) (input : List ℕ)
    → Session.read_at split v.at_read t.cursor 0 ≡ bytes t.cursor input
    → t.cursor + length input ≤ u64_max
    → let i = stream_iteration split false true v t in
      (output_of i.output ≡ input) × (i.task.cursor ≡ t.cursor + length input)
unfolding stream_iteration output_of
sends split v t [] e small = ground arith
sends split v t (b ∷ bs) e small = ground (arith, append-nil (b ∷ bs))

-- An iteration of a stream that is not cancelled, whose channel takes a frame, and whose cursor is
-- within the ring, sends the next bytes of the history, at most 256 KiB of them, and moves its
-- cursor past them; with none left it sends nothing and keeps its cursor.
pub iteration-Holds :
    (split : ℕ) (v : Views) (t : StreamTask) (h : List ℕ)
    → Holds v.at_read.ring h
    → length h ≤ u64_max
    → tail v.at_read.ring ≤ t.cursor
    → t.cursor ≤ length h
    → let i = stream_iteration split false true v t in
      (output_of i.output ≡ next_bytes h t.cursor)
      × (i.task.cursor ≡ t.cursor + length (next_bytes h t.cursor))
iteration-Holds split v t h holds small late early =
    sends split v t (next_bytes h t.cursor)
      (iteration_read split v.at_read h t.cursor holds small late early)
      (omega (arith, length-take stream_chunk (drop t.cursor h), length-drop t.cursor h))

-- The read's split and the views of the session at each iteration.
abbrev Seen : Type 0
Seen = ℕ × Views

unfoldable pub run_stream : StreamTask → List Seen → List ℕ × StreamTask
run_stream t [] = ([], t)
run_stream t ((split, v) ∷ seen) =
    let i = stream_iteration split false true v t in
    let (rest, last) = run_stream i.task seen in (output_of i.output ++ rest, last)

-- At each iteration's read the session holds a prefix of the whole history, and its ring has not passed
-- the cursor.
abbrev pub Keeps : List ℕ → StreamTask → List (ℕ × Views × ℕ) → Type 0
Keeps h t [] = Unit
Keeps h t ((split, v, upto) ∷ seen) =
    Holds v.at_read.ring (take upto h)
    × (tail v.at_read.ring ≤ t.cursor)
    × (t.cursor ≤ length (take upto h))
    × Keeps h (stream_iteration split false true v t).task seen

abbrev pub sessions_of : List (ℕ × Views × ℕ) → List Seen
sessions_of [] = []
sessions_of ((split, v, upto) ∷ seen) = (split, v) ∷ sessions_of seen

take-length-take : (n : ℕ) (xs : List ℕ) → take (length (take n xs)) xs ≡ take n xs
take-length-take zero xs = refl
take-length-take (suc n) [] = refl
take-length-take (suc n) (x ∷ xs) = ap (◌∷◌ x) (take-length-take n xs)

take_plus : (n m : ℕ) (xs : List ℕ) → take n xs ++ take m (drop n xs) ≡ take (n + m) xs
take_plus zero m xs = let e : m ≡ 0 + m = omega arith in ap (λ k. take k xs) e
take_plus (suc n) m [] = take-nil m ∙ sym (take-nil (suc n + m))
take_plus (suc n) m (x ∷ xs) =
    let e : suc (n + m) ≡ suc n + m = omega arith in
    ap (◌∷◌ x) (take_plus n m xs) ∙ ap (λ k. take k (x ∷ xs)) e

joined :
    (c n last : ℕ) (h sent : List ℕ)
    → c + n ≤ last
    → sent ≡ take (last - (c + n)) (drop (c + n) h)
    → take n (drop c h) ++ sent ≡ take (last - c) (drop c h)
joined c n last h sent le e =
    let split : n + (last - (c + n)) ≡ last - c = omega arith in
    ap (λ ys. take n (drop c h) ++ ys) (e ∙ ap (take (last - (c + n))) (sym (drop-drop n c h)))
    ∙ take_plus n (last - (c + n)) (drop c h)
    ∙ ap (λ k. take k (drop c h)) split

-- The next bytes of a prefix are next in the whole.
slice_step :
    (n : ℕ) (h : List ℕ) (upto from : ℕ)
    → let next = take n (drop from (take upto h)) in next ≡ take (length next) (drop from h)
slice_step n h upto from =
    let e : take n (drop from (take upto h)) ≡ take (min n (upto - from)) (drop from h) =
      ap (take n) (drop-take from upto h) ∙ take-take n (upto - from) (drop from h) in
    rw e (sym (take-length-take (min n (upto - from)) (drop from h)))

-- A stream that is not cancelled, whose channel takes its frames, and whose cursor is within the
-- ring at each iteration, whose read sees a session that holds a prefix of the history: over any
-- number of iterations it sends the history from the cursor where it began to the cursor where it
-- is, with nothing missing, repeated or out of order.
pub run_stream-Keeps :
    (h : List ℕ) (t : StreamTask) (seen : List (ℕ × Views × ℕ))
    → length h ≤ u64_max
    → Keeps h t seen
    → let (sent, last) = run_stream t (sessions_of seen) in
      (t.cursor ≤ last.cursor) × (sent ≡ take (last.cursor - t.cursor) (drop t.cursor h))
unfolding run_stream
run_stream-Keeps h t [] small keeps = ground arith
run_stream-Keeps h t ((split, v, upto) ∷ seen) small keeps =
    let i = stream_iteration split false true v t in
    let first =
      iteration-Holds split v t (take upto h) keeps.0 (omega (arith, length-take upto h)) keeps.1
        keeps.2 in
    let next = next_bytes (take upto h) t.cursor in
    let (later, rest) = run_stream-Keeps h i.task seen small keeps.3 in
    let last = (run_stream i.task (sessions_of seen)).1.cursor in
    let past : t.cursor + length next ≤ last = ground (arith, later, first.1) in
    let on : (run_stream i.task (sessions_of seen)).0
        ≡ take (last - (t.cursor + length next)) (drop (t.cursor + length next) h) =
      rest ∙ ap (λ k. take (last - k) (drop k h)) first.1 in
    (
      omega (arith, past),
      ap (λ ys. ys ++ (run_stream i.task (sessions_of seen)).0)
            (first.0 ∙ slice_step stream_chunk h upto t.cursor)
          ∙ joined t.cursor (length next) last h (run_stream i.task (sessions_of seen)).0 past on,
    )
