-- ===== src/Asmux/Frame.antt =====
-- crates/asmux/src/frame.rs: the wire framing of a connection's byte stream.
pub mod RoundTrip
pub mod Truncated
mod Tests
use agent_workspace.Prelude.{
  ℕ, ◌-◌, ◌*◌, ◌%◌, ◌^◌, Bool, Option, none, some, List, [], ◌∷◌, ◌++◌, ltb, leb, ◌==◌,
  if◌then◌else◌, sat_add, length, take, drop, Result, ok, err, ◌>>=◌, ok_or, be16, be32, from_be,
}

-- `MAX_FRAME_BYTES` of crates/asmux/src/lib.rs
abbrev pub max_frame_bytes : ℕ
max_frame_bytes = 16 * 1024 * 1024

abbrev pub tag_flatbuffers : ℕ
tag_flatbuffers = 0

pub data Incoming : Type 0 where
  frame : ℕ → List ℕ → Incoming
  eof : Incoming

pub data FrameError : Type 0 where
  too_large malformed io : FrameError

-- What the peer sends before the stream ends, and whether it ends by a reset.
pub record Stream : Type 0 where
  pub input : List ℕ
  pub is_reset : Bool

-- `read_exact`: fails when the stream ends first.
abbrev pub read_exact : ℕ → Stream → Option (List ℕ × Stream)
read_exact n s =
    if leb n (length s.input)
    then some (take n s.input, record s { input = drop n s.input })
    else none

-- The tag and the ordinal of a frame's head.
abbrev pub read_head : List ℕ → Result FrameError ℕ
read_head [] = err malformed
read_head (tag ∷ []) = err malformed
read_head (tag ∷ hi ∷ []) = err malformed
read_head (tag ∷ hi ∷ lo ∷ more) =
    if tag == tag_flatbuffers then ok (from_be 0 (hi ∷ lo ∷ [])) else err malformed

abbrev pub read_body : ℕ → ℕ → Stream → Result FrameError (Incoming × Stream)
read_body ordinal body_len s =
    if body_len == 0
    then ok (frame ordinal [], s)
    else do (body, rest) ← ok_or io (read_exact body_len s); ok (frame ordinal body, rest)

abbrev pub read_rest : ℕ → Stream → Result FrameError (Incoming × Stream)
read_rest len s =
    if ltb max_frame_bytes len then err too_large else if ltb len 3 then err malformed else do
      (head, s') ← ok_or io (read_exact 3 s)
      ordinal ← read_head head
      read_body ordinal (len - 3) s'

unfoldable pub read_frame : Stream → Result FrameError (Incoming × Stream)
read_frame s = elim (read_exact 4 s) [
  | none ↦ if s.is_reset then err io else ok (eof, record s { input = [] })
  | some (len_buf, s') ↦ read_rest (from_be 0 len_buf) s'
]

unfoldable pub frame_body : ℕ → List ℕ → List ℕ
frame_body ordinal body =
    be32 (sat_add (length body) 3 % 2 ^ 32) ++ tag_flatbuffers ∷ be16 ordinal ++ body
