-- ===== src/Daemon/Bell/Tests.antt =====
-- session_manager/mod.rs: instances of the theorems on the bell and the tail.
use agent_workspace.Prelude.{
  ℕ, ◌-◌, ◌≤◌, ◌≡◌, refl, true, false, List, [], ◌∷◌, ◌++◌, length, drop, All,
}
use agent_workspace.Daemon.Bell.{scan_from, scan_bell, trim_tail, is_char_start}
use agent_workspace.Daemon.Bell.Chunks.{scan_chunks, concat, scan_chunks-concat}
use agent_workspace.Daemon.Bell.Titles.{
  Part, plain_byte, bell, bel_title, st_title, emit_all, rings, scan_bell-emit_all,
}
use agent_workspace.Daemon.Bell.Trim.{starts_char, trim_tail_lem}

-- A title split over two reads, and then a bell.
abbrev reads : List (List ℕ)
reads = (27 ∷ 93 ∷ 48 ∷ []) ∷ (59 ∷ 7 ∷ []) ∷ [] ∷ (104 ∷ 7 ∷ []) ∷ []

scan_chunks-concat_example : scan_chunks reads false ≡ scan_bell (concat reads) false
scan_chunks-concat_example = scan_chunks-concat reads false (refl, (refl, (refl, (refl, tt))))

-- The bell alone is heard.
heard : scan_chunks reads false ≡ (true, false)
unfolding scan_chunks scan_bell scan_from
heard = refl

-- A title whose ESC ends a read: its BEL counts as a bell, in chunks only.
split_title : scan_chunks ((27 ∷ []) ∷ (93 ∷ 48 ∷ 7 ∷ []) ∷ []) false ≡ (true, false)
unfolding scan_chunks scan_bell scan_from
split_title = refl

whole_title : scan_bell (27 ∷ 93 ∷ 48 ∷ 7 ∷ []) false ≡ (false, false)
unfolding scan_bell scan_from
whole_title = refl

abbrev parts : List Part
parts = plain_byte 104 ∷ bel_title (48 ∷ 59 ∷ []) ∷ st_title (50 ∷ []) ∷ bell ∷ []

scan_bell-emit_all_example : scan_bell (emit_all parts) false ≡ (rings parts, false)
scan_bell-emit_all_example =
    scan_bell-emit_all parts (refl, ((refl, (refl, tt)), ((refl, tt), (tt, tt))))

-- Two characters of two bytes, cut to three bytes.
abbrev text : List ℕ
text = 195 ∷ 169 ∷ 195 ∷ 168 ∷ []

trim_tail_lem_example :
    (length (trim_tail text 3) ≤ 3)
    × (starts_char (trim_tail text 3) ≡ true)
    × ((passed : List ℕ) × (drop (length text - 3) text ≡ passed ++ trim_tail text 3)
        × All (λ b. is_char_start b ≡ false) passed)
trim_tail_lem_example = trim_tail_lem text 3 refl
