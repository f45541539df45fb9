-- ===== src/Daemon/Manager.antt =====
-- crates/daemon/src/session_manager/mod.rs: the state of the session manager, and its errors.
use agent_workspace.Prelude.{ℕ, String, Bool, Assoc, contains, Result}
use agent_workspace.Daemon.Store.{Db}
use agent_workspace.Daemon.Monitor.{Interaction}

-- A live session's handle is a number.
pub record Manager : Type 0 where
  pub db : Db
  pub live : Assoc ℕ
  pub interactions : Assoc Interaction

-- `NeedsForce` and `SessionBusy` are the source's own error types; the others are messages.
pub data Fault : Type 0 where
  no_such_session no_such_workspace workspace_missing session_vanished : Fault
  still_live not_ended outcome_unknown session_busy not_live : Fault
  dirty_needs_force unmerged_needs_force : Fault
  no_instance has_sessions not_git branch_checked_out branch_is_live : Fault
  no_root no_cwd outside_roots git_failed stop_failed list_failed : Fault
  not_waiting no_choices stale_prompt no_selected no_option send_failed : Fault
  unknown_plugin needs_approval no_directory instructions_failed store_failed spawn_failed : Fault

abbrev pub is_live_id : Manager → String → Bool
is_live_id m id = contains id m.live

-- `Result<()>`
abbrev pub Outcome : Type 0
Outcome = Result {0, 0} Fault Unit
