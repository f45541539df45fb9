-- ===== src/Daemon/Domain.antt =====
-- crates/daemon/src/domain.rs: the states of a session, and the records that the daemon keeps.
-- Times are milliseconds of a clock after 1970.
pub mod Names
use agent_workspace.Prelude.{
  ℕ, String, Bool, true, false, Option, none, List, str_eq, ◌==◌, if◌then◌else◌, ℤ,
}

pub data SessionStatus : Type 0 where
  starting running exited failed stopped archived indeterminate : SessionStatus

pub data AttentionState : Type 0 where
  quiet activity idle likely_blocked approval_needed error aborted : AttentionState

unfoldable pub status_as_str : SessionStatus → String
status_as_str starting = "starting"
status_as_str running = "running"
status_as_str exited = "exited"
status_as_str failed = "failed"
status_as_str stopped = "stopped"
status_as_str archived = "archived"
status_as_str indeterminate = "indeterminate"

unfoldable pub status_from_str : String → SessionStatus
status_from_str s =
    if str_eq s "starting"
    then starting
    else if str_eq s "running"
    then running
    else if str_eq s "exited"
    then exited
    else if str_eq s "failed"
    then failed
    else if str_eq s "stopped"
    then stopped
    else if str_eq s "archived"
    then archived
    else if str_eq s "indeterminate"
    then indeterminate
    else failed

abbrev pub is_terminal : SessionStatus → Bool
is_terminal starting = false
is_terminal running = false
is_terminal _ = true

abbrev pub is_definitively_ended : SessionStatus → Bool
is_definitively_ended exited = true
is_definitively_ended failed = true
is_definitively_ended stopped = true
is_definitively_ended archived = true
is_definitively_ended _ = false

-- `none` of the source is `quiet` here, and its `failed` is `aborted`.
unfoldable pub attention_as_str : AttentionState → String
attention_as_str quiet = "none"
attention_as_str activity = "activity"
attention_as_str idle = "idle"
attention_as_str likely_blocked = "likely_blocked"
attention_as_str approval_needed = "approval_needed"
attention_as_str error = "error"
attention_as_str aborted = "failed"

unfoldable pub attention_from_str : String → AttentionState
attention_from_str s =
    if str_eq s "activity"
    then activity
    else if str_eq s "idle"
    then idle
    else if str_eq s "likely_blocked"
    then likely_blocked
    else if str_eq s "approval_needed"
    then approval_needed
    else if str_eq s "error"
    then error
    else if str_eq s "failed"
    then aborted
    else quiet

-- The order of the source's declaration, by which two states are compared.
abbrev pub attention_ordinal : AttentionState → ℕ
attention_ordinal quiet = 0
attention_ordinal activity = 1
attention_ordinal idle = 2
attention_ordinal likely_blocked = 3
attention_ordinal approval_needed = 4
attention_ordinal error = 5
attention_ordinal aborted = 6

abbrev pub same_attention : AttentionState → AttentionState → Bool
same_attention a b = attention_ordinal a == attention_ordinal b

abbrev pub needs_user : AttentionState → Bool
needs_user likely_blocked = true
needs_user approval_needed = true
needs_user error = true
needs_user _ = false

abbrev pub is_busy : AttentionState → Bool
is_busy activity = true
is_busy likely_blocked = true
is_busy approval_needed = true
is_busy _ = false

pub record Session : Type 0 where
  pub id : String
  pub agent_plugin_id : String
  pub command : String
  pub args : List String
  pub env : List (String × String)
  pub working_directory : String
  pub workspace_id : Option String
  pub status : SessionStatus
  pub rows : ℕ
  pub cols : ℕ
  pub last_event_seq : ℕ
  pub exit_code : Option ℤ
  pub attention_state : AttentionState
  pub attention_reason : Option String
  pub created_at : ℕ
  pub updated_at : ℕ
  pub last_activity_at : ℕ
  pub risky : Bool
  pub agent_session_id : Option String
  pub forked_from : Option String
  pub state_since : ℕ

pub record Device : Type 0 where
  pub id : String
  pub name : String
  pub token : String
  pub created_at : ℕ
  pub last_seen_at : ℕ
  pub revoked : Bool

pub record Workspace : Type 0 where
  pub id : String
  pub name : String
  pub root_path : String
  pub is_git : Bool
  pub created_at : ℕ

pub data Isolation : Type 0 where
  worktree shared direct plain : Isolation

-- `status` is `active` or `released`.
pub record WorkspaceInstance : Type 0 where
  pub id : String
  pub workspace_id : String
  pub session_id : Option String
  pub path : String
  pub branch : Option String
  pub isolation : Isolation
  pub is_active : Bool
  pub created_at : ℕ
  pub owns_worktree : Bool
  pub owns_branch : Bool

pub record SessionSummary : Type 0 where
  pub id : String
  pub session_id : String
  pub agent_plugin_id : String
  pub started_at : ℕ
  pub ended_at : ℕ
  pub duration_ms : ℕ
  pub exit_status : String
  pub terminal_event_start : ℕ
  pub terminal_event_end : ℕ
