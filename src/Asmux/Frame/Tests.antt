-- ===== src/Asmux/Frame/Tests.antt =====
-- frame.rs: the source's own unit tests, and instances of the theorems.
use agent_workspace.Prelude.{ℕ, ◌≡◌, refl, false, List, [], ◌∷◌, ◌++◌, arith, ok, err}
use agent_workspace.Asmux.Frame.{frame, eof, malformed, Stream, read_frame, frame_body}
use agent_workspace.Asmux.Frame.RoundTrip.{read_frame-frame_body}

abbrev stream : List ℕ → Stream
stream input = record { input = input; is_reset = false }

declared_length : frame_body 301 (7 ∷ 8 ∷ []) ≡ 0 ∷ 0 ∷ 0 ∷ 5 ∷ 0 ∷ 1 ∷ 45 ∷ 7 ∷ 8 ∷ []
unfolding frame_body
declared_length = refl

clean_eof_at_boundary : read_frame (stream []) ≡ ok (eof, stream [])
unfolding read_frame
clean_eof_at_boundary = refl

rejects_foreign_tag : read_frame (stream (0 ∷ 0 ∷ 0 ∷ 3 ∷ 1 ∷ 0 ∷ 0 ∷ [])) ≡ err malformed
unfolding read_frame
rejects_foreign_tag = refl

read_frame-frame_body_example :
    read_frame (stream (frame_body 301 (7 ∷ 8 ∷ []) ++ 9 ∷ []))
    ≡ ok (frame 301 (7 ∷ 8 ∷ []), stream (9 ∷ []))
read_frame-frame_body_example =
    read_frame-frame_body 301 (7 ∷ 8 ∷ []) (9 ∷ []) false (omega arith) (omega arith)

abbrev sent : List ℕ
sent = 0 ∷ 0 ∷ 0 ∷ 4 ∷ 0 ∷ 1 ∷ 44 ∷ 7 ∷ 0 ∷ []
