-- ===== src/Asmux/Frame/Truncated.antt =====
-- frame.rs: streams that end inside a frame.
use agent_workspace.Prelude.{
  ℕ, zero, suc, ◌+◌, ◌≤◌, ◌<◌, ◌≡◌, refl, Bool, true, false, List, [], ◌∷◌, ◌++◌, arith, length,
  take, length-take, ok, err, be16,
}
use agent_workspace.Asmux.Frame.{
  eof, io, read_body, read_rest, read_frame, frame_body, max_frame_bytes, tag_flatbuffers,
}
use agent_workspace.Asmux.Frame.RoundTrip.{from_be-be32}

read_body-short :
    (ordinal n : ℕ) (input : List ℕ) (reset : Bool)
    → length input < n
    → read_body ordinal n (record { input = input; is_reset = reset }) ≡ err io
read_body-short ordinal n input reset h = ground arith

-- The frame without its length, cut short.
read_rest-short :
    (len ordinal k : ℕ) (body : List ℕ) (reset : Bool)
    → len ≡ length body + 3
    → len ≤ max_frame_bytes
    → k < len
    → read_rest len
        (record { input = take k (tag_flatbuffers ∷ (be16 ordinal ++ body)); is_reset = reset })
      ≡ err io
read_rest-short len ordinal zero body reset e fits h = ground arith
read_rest-short len ordinal (suc zero) body reset e fits h = ground arith
read_rest-short len ordinal (suc (suc zero)) body reset e fits h = ground arith
read_rest-short len ordinal (suc (suc (suc k))) body reset e fits h =
    ground (arith, length-take k body)

-- A stream that ends inside a frame's length prefix, also after one to three of its four bytes,
-- gives a clean end, unless it was reset.
pub read_frame-cut_prefix :
    (ordinal k : ℕ) (body : List ℕ)
    → k < 4
    → (read_frame (record { input = take k (frame_body ordinal body); is_reset = false })
        ≡ ok (eof, record { input = []; is_reset = false }))
      × (read_frame (record { input = take k (frame_body ordinal body); is_reset = true }) ≡ err io)
unfolding read_frame frame_body
read_frame-cut_prefix ordinal zero body h = ground arith
read_frame-cut_prefix ordinal (suc zero) body h = ground arith
read_frame-cut_prefix ordinal (suc (suc zero)) body h = ground arith
read_frame-cut_prefix ordinal (suc (suc (suc zero))) body h = ground arith
read_frame-cut_prefix ordinal (suc (suc (suc (suc k)))) body h = absurd (omega arith)

-- A stream that ends after the length prefix of a frame within the limit, and before the frame's
-- last byte, is a transport error.
pub read_frame-cut :
    (ordinal k : ℕ) (body : List ℕ) (reset : Bool)
    → length body + 3 ≤ max_frame_bytes
    → k < length body + 3
    → read_frame (record {
      input = take (suc (suc (suc (suc k)))) (frame_body ordinal body);
      is_reset = reset;
    })
      ≡ err io
unfolding read_frame frame_body
read_frame-cut ordinal k body reset fits h = ground (
  arith,
  from_be-be32 (length body + 3),
  read_rest-short (length body + 3) ordinal k body reset refl fits h,
)
