-- ===== src/Daemon/Lifecycle/Choosing.antt =====
-- crates/daemon/src/session_manager/mod.rs: the keys that a button sends, followed by a menu that
-- moves its selection with the arrows.
use agent_workspace.Prelude.{
  ℕ, zero, suc, ◌+◌, ◌-◌, String, ◌≡◌, ap, ◌∙◌, Bool, false, ◌&&◌, Option, none, some, List, [],
  ◌∷◌, ◌++◌, arith, eq_iff, ◌==◌, if◌then◌else◌, unwrap_or, ok,
}
use agent_workspace.Daemon.Lifecycle.Deck.{
  DeckPrompt, position, repeat_bytes, arrow_down, arrow_up, keys_between, deck_input,
}

-- Whether the three bytes are the key that an arrow sends.
abbrev is_key : List ℕ → ℕ → ℕ → ℕ → Bool
is_key (x ∷ y ∷ z ∷ []) a b c = a == x && (b == y && c == z)
is_key _ a b c = false

-- The place that Enter chooses, from the place at which the menu is.
unfoldable pub chosen : ℕ → List ℕ → Option ℕ
chosen at [] = none
chosen at (a ∷ []) = if a == 13 then some at else none
chosen at (a ∷ b ∷ []) = none
chosen at (a ∷ b ∷ c ∷ keys) =
    let down = chosen (suc at) keys in
    let up = chosen (at - 1) keys in
    if is_key arrow_down a b c then down else if is_key arrow_up a b c then up else none

chosen-down : (n at : ℕ) → chosen at (repeat_bytes n arrow_down ++ 13 ∷ []) ≡ some (at + n)
unfolding chosen repeat_bytes
chosen-down zero at = ground arith
chosen-down (suc n) at = chosen-down n (suc at) ∙ ap some (omega arith)

chosen-up : (n at : ℕ) → chosen at (repeat_bytes n arrow_up ++ 13 ∷ []) ≡ some (at - n)
unfolding chosen repeat_bytes
chosen-up zero at = ground arith
chosen-up (suc n) at = chosen-up n (at - 1) ∙ ap some (omega arith)

chosen-keys_between :
    (selected_at target_at : ℕ)
    → chosen selected_at (keys_between selected_at target_at) ≡ some target_at
unfolding keys_between
chosen-keys_between selected_at target_at = ground (
  arith,
  chosen-down (target_at - selected_at) selected_at,
  chosen-up (selected_at - target_at) selected_at,
)

-- Where the menu's selected option has a place in the prompt, the keys that are sent for a button
-- choose the place of its option on a menu that starts there, and they are sent only for the
-- revision that the button was made for.
pub chosen-deck_input :
    (prompt : DeckPrompt) (revision : String) (option_id selected_at : ℕ) (input : List ℕ)
    → position prompt.selected prompt.options ≡ some selected_at
    → deck_input revision option_id (some prompt) ≡ ok input
    → (chosen selected_at input ≡ position option_id prompt.options) × (prompt.revision ≡ revision)
unfolding deck_input
chosen-deck_input prompt revision option_id selected_at input p e = ground (
  arith,
  p,
  eq_iff prompt.revision revision,
  chosen-keys_between selected_at (unwrap_or 0 (position option_id prompt.options)),
)
