-- ===== src/Daemon/Creation/Launching.antt =====
-- crates/daemon/src/session_manager/mod.rs: the request for a session, its launch line, and the
-- session that it makes. The launch lines of the plugins and the backend's answer are arguments.
use agent_workspace.Prelude.{
  ℕ, String, Bool, not, ◌&&◌, Option, none, some, List, if◌then◌else◌, Result, ok, err, ◌>>=◌,
}
use agent_workspace.Daemon.Domain.{Session, WorkspaceInstance, starting, quiet}
use agent_workspace.Daemon.Monitor.{Plugin}
use agent_workspace.Daemon.Manager.{Fault, needs_approval, no_directory}
use agent_workspace.Daemon.Creation.{Place, Site}

pub record Launch : Type 0 where
  pub command : String
  pub args : List String
  pub env : List (String × String)
  pub requires_approval : Bool

-- `fork` is the origin of a session that is forked.
pub record CreateRequest : Type 0 where
  pub agent_plugin_id : String
  pub approve_custom : Bool
  pub rows : ℕ
  pub cols : ℕ
  pub fork : Option String
  pub place : Place

-- What the plugin and the backend answer: the launch lines of a fresh and of a forked session, the
-- instructions written to the place, whether a danger option is on, and the handle.
pub record Launcher : Type 0 where
  pub plugin : Option Plugin
  pub build_launch : Result {0, 0} Fault Launch
  pub fork_launch : String → Result {0, 0} Fault Launch
  pub with_instructions : Launch → String → Option String → Result {0, 0} Fault Launch
  pub risky : Bool
  pub handle : Launch → Option ℕ

abbrev approved : CreateRequest → Launch → Result {0, 0} Fault Launch
approved req launch =
    if launch.requires_approval && not req.approve_custom then err needs_approval else ok launch

-- A fork's launch line is checked later.
abbrev pub precheck : Launcher → CreateRequest → Result {0, 0} Fault (Option Launch)
precheck l req = elim (req.fork) [
  | some origin ↦ ok none
  | none ↦ l.build_launch >>= (λ launch. approved req launch >>= (λ checked. ok (some checked)))
]

abbrev launch_of : Launcher → CreateRequest → Option Launch → String → Result {0, 0} Fault Launch
launch_of l req (some launch) cwd = ok launch
launch_of l req none cwd = elim (req.fork) [
  | some origin ↦ l.fork_launch cwd
  | none ↦ l.build_launch
]

abbrev branch_of : Option WorkspaceInstance → Option String
branch_of none = none
branch_of (some inst) = inst.branch

-- The launch line, checked in the directory.
abbrev pub prepare :
    Launcher
    → Site
    → CreateRequest
    → Option Launch
    → String
    → Option WorkspaceInstance
    → Result {0, 0} Fault Launch
prepare l site req checked cwd instance = launch_of l req checked cwd >>= (λ launch.
    approved req launch >>= (λ allowed.
      if site.is_dir cwd
      then l.with_instructions allowed cwd (branch_of instance)
      else err no_directory))

abbrev pub new_session : Launcher → Site → CreateRequest → String → String → Launch → Session
new_session l site req id cwd launch = record {
  id = id;
  agent_plugin_id = req.agent_plugin_id;
  command = launch.command;
  args = launch.args;
  env = launch.env;
  working_directory = cwd;
  workspace_id = req.place.workspace_id;
  status = starting;
  rows = req.rows;
  cols = req.cols;
  last_event_seq = 0;
  exit_code = none;
  attention_state = quiet;
  attention_reason = none;
  created_at = site.now;
  updated_at = site.now;
  last_activity_at = site.now;
  risky = l.risky;
  agent_session_id = none;
  forked_from = req.fork;
  state_since = site.now;
}
