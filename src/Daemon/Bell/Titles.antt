-- ===== src/Daemon/Bell/Titles.antt =====
-- crates/daemon/src/session_manager/mod.rs: the search told as the parts of the output that it
-- takes apart, text between window titles.
use agent_workspace.Prelude.{
  ℕ, ◌≡◌, refl, ap, ◌∙◌, Bool, true, false, not, ◌&&◌, ◌||◌, List, [], ◌∷◌, ◌++◌, append_assoc,
  arith, ◌==◌, All,
}
use agent_workspace.Daemon.Bell.{esc, bel, backslash, bracket, scan_from, scan_bell}

-- The output of a program: a byte, a genuine bell, and a title that is ended by BEL or by ST.
pub data Part : Type 0 where
  plain_byte : ℕ → Part
  bell : Part
  bel_title : List ℕ → Part
  st_title : List ℕ → Part

abbrev is_plain : ℕ → Bool
is_plain b = not (b == esc) && not (b == bel)

-- No byte is ESC or BEL.
abbrev IsPlain : List ℕ → Type 0
IsPlain = All (λ b. is_plain b ≡ true)

abbrev IsPart : Part → Type 0
IsPart (plain_byte b) = is_plain b ≡ true
IsPart bell = Unit
IsPart (bel_title t) = IsPlain t
IsPart (st_title t) = IsPlain t

unfoldable pub emit : Part → List ℕ
emit (plain_byte b) = b ∷ []
emit bell = bel ∷ []
emit (bel_title t) = esc ∷ bracket ∷ (t ++ bel ∷ [])
emit (st_title t) = esc ∷ bracket ∷ (t ++ esc ∷ backslash ∷ [])

unfoldable pub emit_all : List Part → List ℕ
emit_all [] = []
emit_all (p ∷ ps) = emit p ++ emit_all ps

abbrev is_bell : Part → Bool
is_bell bell = true
is_bell _ = false

unfoldable pub rings : List Part → Bool
rings [] = false
rings (p ∷ ps) = is_bell p || rings ps

scan_from-title :
    (t ds : List ℕ) (seen : Bool)
    → IsPlain t
    → scan_from (t ++ ds) false seen true ≡ scan_from ds false seen true
unfolding scan_from
scan_from-title [] ds seen h = refl
scan_from-title (b ∷ t) ds seen h = ground (arith, scan_from-title t ds seen h.1)

scan_from-emit :
    (p : Part) (ds : List ℕ) (seen : Bool)
    → IsPart p
    → scan_from (emit p ++ ds) false seen false ≡ scan_from ds false (seen || is_bell p) false
unfolding scan_from emit
scan_from-emit (plain_byte b) ds seen h = ground arith
scan_from-emit bell ds seen h = ground arith
scan_from-emit (bel_title t) ds seen h =
    ap (λ bs. scan_from bs false seen true) (append_assoc t (bel ∷ []) ds)
    ∙ scan_from-title t (bel ∷ ds) seen h
    ∙ ground arith
scan_from-emit (st_title t) ds seen h =
    ap (λ bs. scan_from bs false seen true) (append_assoc t (esc ∷ backslash ∷ []) ds)
    ∙ scan_from-title t (esc ∷ backslash ∷ ds) seen h
    ∙ ground arith

scan_from-emit_all :
    (ps : List Part) (seen : Bool)
    → All IsPart ps
    → scan_from (emit_all ps) false seen false ≡ (seen || rings ps, false)
unfolding scan_from emit_all rings
scan_from-emit_all [] seen h = ground arith
scan_from-emit_all (p ∷ ps) seen h =
    scan_from-emit p (emit_all ps) seen h.0
    ∙ scan_from-emit_all ps (seen || is_bell p) h.1
    ∙ ground arith

-- For output that is made of bells, of other bytes, and of titles that end in BEL or in ST, where
-- neither those bytes nor the titles hold an ESC or a BEL, the search, begun outside a title, finds
-- a bell exactly when one of the parts is a bell, and ends outside a title.
pub scan_bell-emit_all :
    (ps : List Part) → All IsPart ps → scan_bell (emit_all ps) false ≡ (rings ps, false)
unfolding scan_bell
scan_bell-emit_all ps h = scan_from-emit_all ps false h
