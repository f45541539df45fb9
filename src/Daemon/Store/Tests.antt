-- ===== src/Daemon/Store/Tests.antt =====
-- crates/daemon/src/db.rs: instances of the theorems on the store.
use agent_workspace.Prelude.{◌≡◌, refl, none, some, List, [], ◌∷◌, map_option}
use agent_workspace.Daemon.Domain.{
  running, activity, quiet, approval_needed, status_as_str, attention_as_str,
}
use agent_workspace.Daemon.Store.{Row}
use agent_workspace.Daemon.Store.Sessions.{kind_of, get_session}
use agent_workspace.Daemon.Store.Clock.{
  run_began, shown_status, Write, activity_write, view_write, attention_write, after_writes,
  recorded, newest_run, state_since-after_writes,
}
use agent_workspace.Daemon.Store.Conversations.{
  Binding, capture, repair, bind_all, IsExclusive, IsExclusive-bind_all,
}
use agent_workspace.Daemon.Samples.{session, row, database}

abbrev held : Row
held = row (session "s" running quiet none) "running/none"

-- Blocked, seen, and found blocked again, the newest first.
abbrev writes : List Write
writes =
    activity_write 9 40 approval_needed none
    ∷ view_write 30
    ∷ attention_write approval_needed none 20
    ∷ activity_write 7 10 activity none
    ∷ []

state_since-after_writes_example :
    map_option
      (λ s. s.state_since)
      (get_session (after_writes "s" (database (held ∷ []) []) writes) "s")
    ≡ some (newest_run held (recorded held writes))
state_since-after_writes_example =
    state_since-after_writes "s" (database (held ∷ []) []) writes held refl

-- It is blocked since the first time.
blocked_since : newest_run held (recorded held writes) ≡ 20
unfolding newest_run run_began recorded kind_of shown_status status_as_str attention_as_str
blocked_since = refl

abbrev pair : List Row
pair = row (session "s" running quiet (some "n")) "" ∷ row (session "t" running quiet none) "" ∷ []

abbrev bindings : List Binding
bindings = capture "t" "n" ∷ repair "s" "n" "m" ∷ capture "t" "n" ∷ []

starts_IsExclusive : IsExclusive pair
unfolding IsExclusive
starts_IsExclusive = ((refl, tt), (tt, tt))

IsExclusive-bind_all_example : IsExclusive (bind_all (database pair []) bindings).sessions
IsExclusive-bind_all_example = IsExclusive-bind_all (database pair []) bindings starts_IsExclusive
