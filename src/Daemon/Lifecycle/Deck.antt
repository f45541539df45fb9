-- ===== src/Daemon/Lifecycle/Deck.antt =====
-- crates/daemon/src/session_manager/mod.rs: a prompt answered by buttons. The prompt that is read
-- from the screen, and whether the terminal takes input, are arguments; what is sent is a result.
use agent_workspace.Prelude.{
  ℕ, zero, suc, ◌-◌, String, Bool, not, Option, none, some, List, [], ◌∷◌, ◌++◌, str_eq, leb, ◌==◌,
  if◌then◌else◌, map_option, Result, ok, err, ◌>>=◌, ok_or,
}
use agent_workspace.Daemon.Domain.{Session, needs_user}
use agent_workspace.Daemon.Store.Sessions.{get_session}
use agent_workspace.Daemon.Manager.{
  Manager, Fault, no_such_session, not_waiting, not_live, no_choices, stale_prompt, no_selected,
  no_option, send_failed, is_live_id,
}
use agent_workspace.Daemon.Lifecycle.{note_interaction, acknowledge_attention}

pub record DeckPrompt : Type 0 where
  pub revision : String
  pub selected : ℕ
  pub options : List ℕ

-- `options.iter().position(...)`
unfoldable pub position : ℕ → List ℕ → Option ℕ
position id [] = none
position id (o ∷ os) =
    let rest = position id os in if o == id then some 0 else map_option {B = ℕ} suc rest

unfoldable pub repeat_bytes : ℕ → List ℕ → List ℕ
repeat_bytes zero bytes = []
repeat_bytes (suc n) bytes = bytes ++ repeat_bytes n bytes

abbrev pub arrow_down : List ℕ
arrow_down = 27 ∷ 91 ∷ 66 ∷ []

abbrev pub arrow_up : List ℕ
arrow_up = 27 ∷ 91 ∷ 65 ∷ []

-- The arrows from one option to the other, and Enter.
unfoldable pub keys_between : ℕ → ℕ → List ℕ
keys_between selected_at target_at =
    (if leb selected_at target_at
      then repeat_bytes (target_at - selected_at) arrow_down
      else repeat_bytes (selected_at - target_at) arrow_up)
    ++ 13 ∷ []

abbrev checked_prompt : String → Option DeckPrompt → Result Fault DeckPrompt
checked_prompt revision none = err no_choices
checked_prompt revision (some prompt) =
    if str_eq prompt.revision revision then ok prompt else err stale_prompt

unfoldable pub deck_input : String → ℕ → Option DeckPrompt → Result Fault (List ℕ)
deck_input revision option_id parsed = checked_prompt revision parsed >>= (λ prompt.
    ok_or no_selected (position prompt.selected prompt.options) >>= (λ selected_at.
      ok_or no_option (position option_id prompt.options)
      >>= (λ target_at. ok (keys_between selected_at target_at))))

abbrev Reply : Type 0
Reply = Result {0, 0} Fault Session × List ℕ × Manager

abbrev send : Bool → ℕ → String → List ℕ → Manager → Reply
send sends now id input m =
    let acked = acknowledge_attention now id (note_interaction now id input m) in
    if sends then (acked.0, input, acked.1) else (err send_failed, [], m)

unfoldable respond_to_deck_prompt :
    Option DeckPrompt → Bool → ℕ → String → String → ℕ → Manager → Reply
respond_to_deck_prompt parsed sends now id revision option_id m = elim (get_session m.db id) [
  | none ↦ (err no_such_session, [], m)
  | some s ↦
      if not (needs_user s.attention_state)
      then (err not_waiting, [], m)
      else if not (is_live_id m id)
      then (err not_live, [], m)
      else elim (deck_input revision option_id parsed) [
        | err fault ↦ (err fault, [], m)
        | ok input ↦ send sends now id input m
      ]
]

unfoldable deck_prompt : Option DeckPrompt → String → Manager → Result Fault (Option DeckPrompt)
deck_prompt parsed id m = elim (get_session m.db id) [
  | none ↦ err no_such_session
  | some s ↦
      if not (needs_user s.attention_state)
      then ok none
      else if is_live_id m id
      then ok parsed
      else err not_live
]
