-- ===== src/Daemon/Lifecycle/Tests.antt =====
-- session_manager: instances of the theorems on a session's end and on the passes.
use agent_workspace.Prelude.{
  ◌≡◌, refl, inr, true, false, none, some, List, [], ◌∷◌, lookup, All, pos,
}
use agent_workspace.Daemon.Domain.{running, stopped, idle, quiet}
use agent_workspace.Daemon.Store.Sessions.{get_session, live_session_ids}
use agent_workspace.Daemon.Store.Badges.{status_of, exit_code_of, badge}
use agent_workspace.Daemon.Manager.{Manager, is_live_id}
use agent_workspace.Daemon.Lifecycle.{Host, exited_with, ending_of, on_exit, stop_session}
use agent_workspace.Daemon.Lifecycle.Stopping.{on_exit-stop_session}
use agent_workspace.Daemon.Lifecycle.Reconcile.{HolderEntry, Holder, Pass, reconcile_from_holder}
use agent_workspace.Daemon.Lifecycle.Settling.{is_settled}
use agent_workspace.Daemon.Lifecycle.Passes.{is_settled-reconcile_from_holder}
use agent_workspace.Daemon.Lifecycle.Deck.{
  DeckPrompt, position, keys_between, repeat_bytes, deck_input,
}
use agent_workspace.Daemon.Lifecycle.Choosing.{chosen, chosen-deck_input}
use agent_workspace.Daemon.Samples.{session, row, database, manager, agent}

abbrev host : Host
host = record { plugins = ("codex", agent) ∷ []; show_int = λ n. "1"; new_uuid = "u" }

abbrev two_live : Manager
two_live =
    manager
      (database
        (row (session "s" running idle none) "running/idle"
          ∷ row (session "t" running idle none) "running/idle"
          ∷ [])
        [])
      (("s", 1) ∷ [])

on_exit-stop_session_example :
    let end =
      on_exit host "s"
        (some agent)
        1
        5
        20
        (exited_with (pos 1))
        (stop_session true 10 "s" false two_live).1 in
    (status_of end.db "s" ≡ some stopped)
    × (exit_code_of end.db "s" ≡ some none)
    × (badge end.db "s" ≡ some quiet)
    × (is_live_id end "s" ≡ false)
unfolding get_session lookup ending_of
on_exit-stop_session_example =
    on_exit-stop_session host "s" (some agent) 1 5 10 20 (exited_with (pos 1)) _ true false two_live
      (session "s" running idle none) refl refl (inr refl) refl

abbrev holder : Holder
holder = record { list = none; adopt = λ id rows cols. some 2; keeps = true }

abbrev entries : List HolderEntry
entries = record { id = "t"; alive = true; exit_code = pos 0; exit_signal = pos 0 } ∷ []

abbrev pass : Pass
pass = record { manager = two_live; ended = [] }

is_settled-reconcile_from_holder_example :
    All
      (λ id. is_settled id (reconcile_from_holder host holder 50 entries pass).manager ≡ true)
      (live_session_ids two_live.db)
is_settled-reconcile_from_holder_example =
    is_settled-reconcile_from_holder host holder 50 entries pass

abbrev prompt : DeckPrompt
prompt = record { revision = "r"; selected = 3; options = 1 ∷ 2 ∷ 3 ∷ [] }

-- Two up, and Enter.
chosen-deck_input_example :
    (chosen 2 (27 ∷ 91 ∷ 65 ∷ 27 ∷ 91 ∷ 65 ∷ 13 ∷ []) ≡ position 1 (1 ∷ 2 ∷ 3 ∷ []))
    × (prompt.revision ≡ "r")
unfolding position deck_input keys_between repeat_bytes
chosen-deck_input_example =
    chosen-deck_input prompt "r" 1 2 (27 ∷ 91 ∷ 65 ∷ 27 ∷ 91 ∷ 65 ∷ 13 ∷ []) refl refl
