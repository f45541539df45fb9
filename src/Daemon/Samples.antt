-- ===== src/Daemon/Samples.antt =====
-- crates/daemon: the data of the runs and of the instances.
use agent_workspace.Prelude.{ℕ, String, Bool, true, false, Option, none, some, List, [], ◌∷◌, Assoc}
use agent_workspace.Daemon.Domain.{
  Session, SessionStatus, AttentionState, activity, approval_needed, Workspace, WorkspaceInstance,
  Isolation, Device,
}
use agent_workspace.Daemon.Store.{Row, Db}
use agent_workspace.Daemon.Manager.{Manager}
use agent_workspace.Daemon.Monitor.{Plugin, Moment, Verdict, Text, untouched}

abbrev pub session : String → SessionStatus → AttentionState → Option String → Session
session id status attention native = record {
  id = id;
  agent_plugin_id = "codex";
  command = "codex";
  args = [];
  env = [];
  working_directory = "/w";
  workspace_id = some "ws";
  status = status;
  rows = 24;
  cols = 80;
  last_event_seq = 0;
  exit_code = none;
  attention_state = attention;
  attention_reason = none;
  created_at = 1;
  updated_at = 1;
  last_activity_at = 1;
  risky = false;
  agent_session_id = native;
  forked_from = none;
  state_since = 1;
}

abbrev pub row : Session → String → Row
row s kind = record { session = s; state_kind = kind; backend_cursor = 0 }

abbrev pub workspace : Workspace
workspace = record { id = "ws"; name = "w"; root_path = "/w"; is_git = true; created_at = 1 }

-- Session, isolation, and whether the worktree and the branch are the daemon's.
abbrev pub instance_of : String → String → Isolation → Bool → Bool → WorkspaceInstance
instance_of id session_id isolation owns_worktree owns_branch = record {
  id = id;
  workspace_id = "ws";
  session_id = some session_id;
  path = "/t";
  branch = some "b";
  isolation = isolation;
  is_active = true;
  created_at = 1;
  owns_worktree = owns_worktree;
  owns_branch = owns_branch;
}

abbrev device : Device
device = record {
  id = "d";
  name = "phone";
  token = "secret";
  created_at = 1;
  last_seen_at = 1;
  revoked = false;
}

abbrev pub database : List Row → List WorkspaceInstance → Db
database rows instances = record {
  sessions = rows;
  titles = [];
  summaries = [];
  workspaces = workspace ∷ [];
  instances = instances;
  devices = device ∷ [];
  identity = none;
}

abbrev pub manager : Db → Assoc ℕ → Manager
manager db live = record { db = db; live = live; interactions = ("s", untouched) ∷ [] }

-- An agent that shows a prompt by anything on its screen.
abbrev read_screen : Text → Bool → Verdict
read_screen [] rung = (activity, none)
read_screen (b ∷ bs) rung = (approval_needed, some "prompt")

abbrev pub agent : Plugin
agent = record {
  tracks_attention = true;
  bell_means_attention = true;
  attention_uses_screen = true;
  attention = read_screen;
  idle_error = λ text. none;
  idle_busy = λ text. false;
}

abbrev pub moment : ℕ → Text → Moment
moment now screen = record {
  now = now;
  screen = screen;
  last_seq = 5;
  decoded = 104 ∷ 105 ∷ [];
  default_attention = read_screen;
}
