-- ===== src/Asmux/Ring/Tests.antt =====
-- ring.rs: the source's own unit tests, and instances of the theorems.
use agent_workspace.Prelude.{ℕ, ◌≡◌, refl, true, false, List, [], ◌∷◌, none, arith}
use agent_workspace.Asmux.Ring.{Ring, bytes, gap, invalid, new, push, tail, read_at}
use agent_workspace.Asmux.Ring.Invariant.{IsValid}
use agent_workspace.Asmux.Ring.History.{Holds, push_all}
use agent_workspace.Asmux.Ring.Window.{log_all, push_all-log_all}
use agent_workspace.Asmux.Ring.Reads.{read_history, read_at-Holds}

-- "abc", "defghij", "gh"
abbrev abc : List ℕ
abc = 97 ∷ 98 ∷ 99 ∷ []

abbrev defghij : List ℕ
defghij = 100 ∷ 101 ∷ 102 ∷ 103 ∷ 104 ∷ 105 ∷ 106 ∷ []

abbrev wrapped : Ring
wrapped = record { cap = 8; buf = 99 ∷ 100 ∷ 101 ∷ 102 ∷ 103 ∷ 104 ∷ 105 ∷ 106 ∷ []; head = 10 }

head_tail_advance_and_wrap : push_all (new 8) ((true, abc) ∷ (true, defghij) ∷ []) ≡ wrapped
unfolding push_all push
head_tail_advance_and_wrap = refl

tail_advances : tail wrapped ≡ 2
tail_advances = refl

oversized_write : push true (new 2) abc ≡ (none, record { cap = 2; buf = 98 ∷ 99 ∷ []; head = 3 })
unfolding push
oversized_write = refl

read_before_tail_is_gap : read_at 3 wrapped 1 0 ≡ gap 2
unfolding read_at
read_before_tail_is_gap = refl

read_past_head_is_invalid : read_at 3 wrapped 11 0 ≡ invalid
unfolding read_at
read_past_head_is_invalid = refl

read_at_head_is_empty : read_at 3 wrapped 10 0 ≡ bytes 10 []
unfolding read_at
read_at_head_is_empty = refl

partial_read_respects_max : read_at 3 wrapped 3 2 ≡ bytes 3 (100 ∷ 101 ∷ [])
unfolding read_at
partial_read_respects_max = refl

read_spanning_wrapped_segments : read_at 3 wrapped 4 4 ≡ bytes 4 (101 ∷ 102 ∷ 103 ∷ 104 ∷ [])
unfolding read_at
read_spanning_wrapped_segments = refl

abbrev history : List ℕ
history = 97 ∷ 98 ∷ 99 ∷ 100 ∷ 101 ∷ 102 ∷ 103 ∷ 104 ∷ 105 ∷ 106 ∷ []

wrapped-IsValid : IsValid wrapped
wrapped-IsValid = omega arith

wrapped-Holds : Holds wrapped history
wrapped-Holds = record { valid = wrapped-IsValid; counts = refl; holds = refl }

-- The second write wraps the ring, and the third, which is refused, gives up two bytes more.
push_all-log_all_example :
    let r = push_all (new 8) ((true, abc) ∷ (true, defghij) ∷ (false, 1 ∷ 2 ∷ []) ∷ []) in
    (r.head ≡ 10) × (r.buf ≡ 101 ∷ 102 ∷ 103 ∷ 104 ∷ 105 ∷ 106 ∷ [])
unfolding log_all
push_all-log_all_example =
    push_all-log_all 8 ((true, abc) ∷ (true, defghij) ∷ (false, 1 ∷ 2 ∷ []) ∷ []) (omega arith)
      (omega arith)

read_at-Holds_example : read_at 3 wrapped 4 4 ≡ read_history 2 history 4 4
read_at-Holds_example = read_at-Holds 3 wrapped history 4 4 wrapped-Holds (omega arith)
