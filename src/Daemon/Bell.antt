-- ===== src/Daemon/Bell.antt =====
-- crates/daemon/src/session_manager/mod.rs: the search for a genuine bell in the output, and the
-- bound on the tail of the output that is kept. Output is a list of bytes.
pub mod Chunks
pub mod Titles
pub mod Trim
mod Tests
use agent_workspace.Prelude.{
  ℕ, ◌-◌, Bool, true, false, ◌&&◌, ◌||◌, List, [], ◌∷◌, ltb, leb, ◌==◌, if◌then◌else◌, length, drop,
}

abbrev pub esc : ℕ
esc = 27

abbrev pub bel : ℕ
bel = 7

abbrev pub backslash : ℕ
backslash = 92

abbrev pub bracket : ℕ
bracket = 93

-- `bytes.get(i + 1) == Some(&b)`
abbrev next_is : ℕ → List ℕ → Bool
next_is b [] = false
next_is b (x ∷ xs) = x == b

-- The bytes not yet read, whether the next one is skipped, `bell` and `in_osc`.
unfoldable pub scan_from : List ℕ → Bool → Bool → Bool → Bool × Bool
scan_from [] skip bell in_osc = (bell, in_osc)
scan_from (b ∷ bs) true bell in_osc = scan_from bs false bell in_osc
scan_from (b ∷ bs) false bell true =
    let outside = scan_from bs false bell false in
    let after = scan_from bs true bell false in
    let inside = scan_from bs false bell true in
    if b == bel then outside else if b == esc && next_is backslash bs then after else inside
scan_from (b ∷ bs) false bell false =
    let opened = scan_from bs true bell true in
    let rung = scan_from bs false true false in
    let passed = scan_from bs false bell false in
    if b == esc && next_is bracket bs then opened else if b == bel then rung else passed

-- Whether there is a bell, and `in_osc` afterwards.
unfoldable pub scan_bell : List ℕ → Bool → Bool × Bool
scan_bell bytes in_osc = scan_from bytes false false in_osc

-- A byte that starts a character of UTF-8.
abbrev pub is_char_start : ℕ → Bool
is_char_start b = ltb b 128 || leb 192 b

-- Cut forward to a character's start.
unfoldable pub to_boundary : List ℕ → List ℕ
to_boundary [] = []
to_boundary (b ∷ bs) = let rest = to_boundary bs in if is_char_start b then b ∷ bs else rest

-- `tail` as the bytes of its text.
unfoldable pub trim_tail : List ℕ → ℕ → List ℕ
trim_tail tail limit =
    if leb (length tail) limit then tail else to_boundary (drop (length tail - limit) tail)
