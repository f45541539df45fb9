-- ===== src/Daemon/Bell/Chunks.antt =====
-- crates/daemon/src/session_manager/mod.rs: the search over output that arrives in chunks.
use agent_workspace.Prelude.{
  ℕ, ◌≡◌, refl, sym, ap, ◌∙◌, Bool, true, false, not, ◌||◌, List, [], ◌∷◌, ◌++◌, arith, ◌==◌, All,
}
use agent_workspace.Daemon.Bell.{esc, scan_from, scan_bell}

-- The chunks one after the other, as the monitor reads them.
unfoldable pub scan_chunks : List (List ℕ) → Bool → Bool × Bool
scan_chunks [] in_osc = (false, in_osc)
scan_chunks (c ∷ cs) in_osc =
    let first = scan_bell c in_osc in
    let rest = scan_chunks cs first.1 in (first.0 || rest.0, rest.1)

unfoldable pub concat : List (List ℕ) → List ℕ
concat [] = []
concat (c ∷ cs) = c ++ concat cs

-- The last byte is not ESC.
abbrev ends_open : List ℕ → Bool
ends_open [] = true
ends_open (b ∷ []) = not (b == esc)
ends_open (b ∷ c ∷ bs) = ends_open (c ∷ bs)

abbrev or_bell : Bool → Bool × Bool → Bool × Bool
or_bell bell seen = (bell || seen.0, seen.1)

scan_from-bell :
    (bs : List ℕ) (skip bell in_osc : Bool)
    → scan_from bs skip bell in_osc ≡ or_bell bell (scan_from bs skip false in_osc)
unfolding scan_from
scan_from-bell [] skip bell in_osc = ground arith
scan_from-bell (b ∷ bs) true bell in_osc = scan_from-bell bs false bell in_osc
scan_from-bell (b ∷ bs) false bell true = ground (
  arith,
  scan_from-bell bs false bell false,
  scan_from-bell bs true bell false,
  scan_from-bell bs false bell true,
)
scan_from-bell (b ∷ bs) false bell false = ground (
  arith,
  scan_from-bell bs true bell true,
  scan_from-bell bs false true false,
  scan_from-bell bs false bell false,
)

-- The scan goes on after a chunk as it would have without the cut.
abbrev Continues : List ℕ → List ℕ → Bool → Bool → Bool → Type 0
Continues c ds skip bell in_osc =
    scan_from (c ++ ds) skip bell in_osc
    ≡ (let seen = scan_from c skip bell in_osc in scan_from ds false seen.0 seen.1)

scan_from-append :
    (b : ℕ) (bs ds : List ℕ) (skip bell in_osc : Bool)
    → ends_open (b ∷ bs) ≡ true
    → Continues (b ∷ bs) ds skip bell in_osc
unfolding scan_from
scan_from-append b [] ds true bell in_osc e = refl
scan_from-append b [] ds false bell true e = ground arith
scan_from-append b [] ds false bell false e = ground arith
scan_from-append b (c ∷ bs) ds true bell in_osc e = scan_from-append c bs ds false bell in_osc e
scan_from-append b (c ∷ bs) ds false bell true e = ground (
  arith,
  scan_from-append c bs ds false bell false e,
  scan_from-append c bs ds true bell false e,
  scan_from-append c bs ds false bell true e,
)
scan_from-append b (c ∷ bs) ds false bell false e = ground (
  arith,
  scan_from-append c bs ds true bell true e,
  scan_from-append c bs ds false true false e,
  scan_from-append c bs ds false bell false e,
)

scan_bell-append :
    (c ds : List ℕ) (in_osc : Bool)
    → ends_open c ≡ true
    → scan_bell (c ++ ds) in_osc
      ≡ (let seen = scan_bell c in_osc in or_bell seen.0 (scan_bell ds seen.1))
unfolding scan_bell scan_from
scan_bell-append [] ds in_osc e = refl
scan_bell-append (b ∷ bs) ds in_osc e =
    scan_from-append b bs ds false false in_osc e
    ∙ scan_from-bell ds false (scan_from (b ∷ bs) false false in_osc).0
        (scan_from (b ∷ bs) false false in_osc).1

-- Output that arrives in chunks, none of which ends in ESC, is searched as it would be in one
-- piece: the same bell is found, and the search ends inside a title or not alike.
pub scan_chunks-concat :
    (cs : List (List ℕ)) (in_osc : Bool)
    → All (λ c. ends_open c ≡ true) cs
    → scan_chunks cs in_osc ≡ scan_bell (concat cs) in_osc
unfolding scan_chunks concat scan_bell scan_from
scan_chunks-concat [] in_osc a = refl
scan_chunks-concat (c ∷ cs) in_osc a =
    ap (or_bell (scan_bell c in_osc).0) (scan_chunks-concat cs (scan_bell c in_osc).1 a.1)
    ∙ sym (scan_bell-append c (concat cs) in_osc a.0)
