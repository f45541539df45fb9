-- ===== src/Daemon/Bell/Trim.antt =====
-- crates/daemon/src/session_manager/mod.rs: what the bounded tail keeps.
use agent_workspace.Prelude.{
  ℕ, ◌-◌, ◌≤◌, ◌≡◌, refl, ap, Bool, true, false, List, [], ◌∷◌, ◌++◌, arith, leb, if◌then◌else◌,
  length, drop, length-drop, All,
}
use agent_workspace.Daemon.Bell.{is_char_start, to_boundary, trim_tail}

-- Text: it starts at a character's start, if it has a byte.
abbrev pub starts_char : List ℕ → Bool
starts_char [] = true
starts_char (b ∷ bs) = is_char_start b

to_boundary-length : (bs : List ℕ) → length (to_boundary bs) ≤ length bs
unfolding to_boundary
to_boundary-length [] = ground arith
to_boundary-length (b ∷ bs) = ground (arith, to_boundary-length bs)

starts_char-to_boundary : (bs : List ℕ) → starts_char (to_boundary bs) ≡ true
unfolding to_boundary
starts_char-to_boundary [] = refl
starts_char-to_boundary (b ∷ bs) = ground (arith, starts_char-to_boundary bs)

-- The bytes that the cut moves past.
unfoldable before_boundary : List ℕ → List ℕ
before_boundary [] = []
before_boundary (b ∷ bs) = let rest = before_boundary bs in if is_char_start b then [] else b ∷ rest

before_boundary-append : (bs : List ℕ) → bs ≡ before_boundary bs ++ to_boundary bs
unfolding before_boundary to_boundary
before_boundary-append [] = refl
before_boundary-append (b ∷ bs) = ground (arith, before_boundary-append bs)

before_boundary-All : (bs : List ℕ) → All (λ b. is_char_start b ≡ false) (before_boundary bs)
unfolding before_boundary
before_boundary-All [] = tt
before_boundary-All (b ∷ bs) = ground (arith, before_boundary-All bs)

-- A tail that begins at a character's start is cut to at most the limit, begins at a character's
-- start again, and is what is left of the newest bytes within the limit when the bytes that start
-- no character are taken off their front.
pub trim_tail_lem :
    (tail : List ℕ) (limit : ℕ)
    → starts_char tail ≡ true
    → (length (trim_tail tail limit) ≤ limit)
      × (starts_char (trim_tail tail limit) ≡ true)
      × ((passed : List ℕ) × (drop (length tail - limit) tail ≡ passed ++ trim_tail tail limit)
          × All (λ b. is_char_start b ≡ false) passed)
unfolding trim_tail
trim_tail_lem tail limit s =
    let rest = drop (length tail - limit) tail in
    (
      ground (arith, to_boundary-length rest, length-drop (length tail - limit) tail),
      ground (arith, starts_char-to_boundary rest),
      (
        if leb (length tail) limit then [] else before_boundary rest,
        ground (arith, before_boundary-append rest, drop_short tail limit),
        ground (arith, before_boundary-All rest),
      ),
    )
  where
    drop_short :
        (tail : List ℕ) (limit : ℕ)
        → leb (length tail) limit ≡ true
        → drop (length tail - limit) tail ≡ tail
    drop_short tail limit e =
        let z : length tail - limit ≡ 0 = ground arith in ap (λ k. drop k tail) z
