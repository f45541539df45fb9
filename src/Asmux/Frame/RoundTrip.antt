-- ===== src/Asmux/Frame/RoundTrip.antt =====
-- frame.rs: what `frame_body` writes, `read_frame` reads, and nothing else.
use agent_workspace.Prelude.{
  ℕ, ◌+◌, ◌-◌, ◌*◌, ◌^◌, ◌≤◌, ◌<◌, ◌≡◌, refl, Bool, some, List, [], ◌∷◌, ◌++◌, append-nil, arith,
  length, length-append, length-take, take-append-drop, take_all, drop_all, drop-append,
  take-append, ok, err, be16, be32, from_be, IsBytes,
}
use agent_workspace.Asmux.Frame.{
  frame, too_large, Stream, read_exact, read_body, read_rest, read_frame, frame_body,
  max_frame_bytes, tag_flatbuffers,
}

read_exact-append :
    (n : ℕ) (xs ys : List ℕ) (b : Bool)
    → length xs ≡ n
    → read_exact n (record { input = xs ++ ys; is_reset = b })
      ≡ some (xs, record { input = ys; is_reset = b })
read_exact-append n xs ys b e = ground (
  arith,
  length-append xs ys,
  take-append n xs ys,
  drop-append n xs ys,
  take_all n xs,
  drop_all n xs,
  append-nil xs,
)

pub from_be-be32 : (n : ℕ) → n < 2 ^ 32 → from_be 0 (be32 n) ≡ n
from_be-be32 n h = omega arith

from_be-be16 : (n : ℕ) → n < 2 ^ 16 → from_be 0 (be16 n) ≡ n
from_be-be16 n h = omega arith

read_body-append :
    (ordinal : ℕ) (body rest : List ℕ) (reset : Bool)
    → read_body ordinal (length body) (record { input = body ++ rest; is_reset = reset })
      ≡ ok (frame ordinal body, record { input = rest; is_reset = reset })
read_body-append ordinal [] rest reset = refl
read_body-append ordinal (b ∷ body) rest reset =
    ground (arith, read_exact-append (length (b ∷ body)) (b ∷ body) rest reset refl)

read_rest-append :
    (len ordinal : ℕ) (body rest : List ℕ) (reset : Bool)
    → ordinal < 2 ^ 16
    → len ≡ length body + 3
    → len ≤ max_frame_bytes
    → read_rest len
        (record { input = tag_flatbuffers ∷ (be16 ordinal ++ (body ++ rest)); is_reset = reset })
      ≡ ok (frame ordinal body, record { input = rest; is_reset = reset })
read_rest-append len ordinal body rest reset o e fits =
    ground (arith, read_body-append ordinal body rest reset, from_be-be16 ordinal)

-- A frame with a 16-bit ordinal, within the size limit, that stands at the front of the stream is
-- read back, and the bytes after it are left.
pub read_frame-frame_body :
    (ordinal : ℕ) (body rest : List ℕ) (reset : Bool)
    → ordinal < 2 ^ 16
    → length body + 3 ≤ max_frame_bytes
    → read_frame (record { input = frame_body ordinal body ++ rest; is_reset = reset })
      ≡ ok (frame ordinal body, record { input = rest; is_reset = reset })
unfolding read_frame frame_body
read_frame-frame_body ordinal body rest reset o fits = ground (
  arith,
  from_be-be32 (length body + 3),
  read_rest-append (length body + 3) ordinal body rest reset o refl fits,
)

-- A 32-bit length over the limit is refused whatever follows it.
pub read_frame-too_large :
    (n : ℕ) (rest : List ℕ) (reset : Bool)
    → max_frame_bytes < n
    → n < 2 ^ 32
    → read_frame (record { input = be32 n ++ rest; is_reset = reset }) ≡ err too_large
unfolding read_frame
read_frame-too_large n rest reset over fits = ground (arith, from_be-be32 n)

read_body_inv :
    (ordinal n : ℕ) (s : Stream) (o : ℕ) (body : List ℕ) (rest : Stream)
    → read_body ordinal n s ≡ ok (frame o body, rest)
    → (o ≡ ordinal)
      × (s.input ≡ body ++ rest.input)
      × (length body ≡ n)
      × (rest.is_reset ≡ s.is_reset)
read_body_inv ordinal n s o body rest e =
    ground (arith, take-append-drop n s.input, length-take n s.input)

-- If a stream of bytes reads as a frame, then it began with that frame as it is written, and what
-- comes after is left; the ordinal has 16 bits, and the frame is within the limit.
pub frame_body-read_frame :
    (input : List ℕ) (reset : Bool) (ordinal : ℕ) (body : List ℕ) (rest : Stream)
    → IsBytes input
    → read_frame (record { input = input; is_reset = reset }) ≡ ok (frame ordinal body, rest)
    → (input ≡ frame_body ordinal body ++ rest.input)
      × (rest.is_reset ≡ reset)
      × (ordinal < 2 ^ 16)
      × (length body + 3 ≤ max_frame_bytes)
unfolding read_frame frame_body
frame_body-read_frame [] reset ordinal body rest h e = ground arith
frame_body-read_frame (a ∷ []) reset ordinal body rest h e = ground arith
frame_body-read_frame (a ∷ b ∷ []) reset ordinal body rest h e = ground arith
frame_body-read_frame (a ∷ b ∷ c ∷ []) reset ordinal body rest h e = ground arith
frame_body-read_frame (a ∷ b ∷ c ∷ d ∷ []) reset ordinal body rest h e = ground arith
frame_body-read_frame (a ∷ b ∷ c ∷ d ∷ t ∷ []) reset ordinal body rest h e = ground arith
frame_body-read_frame (a ∷ b ∷ c ∷ d ∷ t ∷ hi ∷ []) reset ordinal body rest h e = ground arith
frame_body-read_frame (a ∷ b ∷ c ∷ d ∷ t ∷ hi ∷ lo ∷ more) reset ordinal body rest h e = ground (
  arith,
  read_body_inv (hi * 256 + lo) (from_be 0 (a ∷ b ∷ c ∷ d ∷ []) - 3)
      (record { input = more; is_reset = reset }) ordinal body rest,
)
