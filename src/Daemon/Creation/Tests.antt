-- ===== src/Daemon/Creation/Tests.antt =====
-- session_manager: instances of the theorems on a session's creation.
use agent_workspace.Prelude.{◌≡◌, refl, true, false, none, some, [], ◌∷◌, ok}
use agent_workspace.Daemon.Domain.{
  Session, WorkspaceInstance, worktree, shared, running, exited, quiet, status_as_str,
  attention_as_str,
}
use agent_workspace.Daemon.Store.Sessions.{
  get_session, insert_session, update_status, restate, kind_of,
}
use agent_workspace.Daemon.Store.Instances.{
  get_workspace, get_instance_for_session, instance_ownership_at_path, insert_instance,
}
use agent_workspace.Daemon.Worktrees.{World, archive_session}
use agent_workspace.Daemon.Worktrees.Branches.{BranchOps}
use agent_workspace.Daemon.Worktrees.Ownership.{OnlyWorktree, root_of}
use agent_workspace.Daemon.Creation.{
  Site, Place, instance_at, make_worktree, resolve_isolated, resolve_workspace,
}
use agent_workspace.Daemon.Creation.Borrowing.{archive_session-resolve_workspace}
use agent_workspace.Daemon.Creation.Launching.{Launch, Launcher, CreateRequest}
use agent_workspace.Daemon.Creation.Sessions.{create_in_instance, create_session}
use agent_workspace.Daemon.Repository.{Repo, git, branches, trees}
use agent_workspace.Daemon.Samples.{session, row, database, manager, agent}

abbrev site : Site
site = record {
  now = 7;
  new_uuid = "i";
  instance_path = "/t";
  auto_name = "asm-session/s";
  trim = λ b. b;
  is_dir = λ path. true;
  exists_path = λ path. true;
  is_within = λ cwd root. true;
  canonical = λ path. path;
}

-- On the branch `b`, which the user has.
abbrev place : Place
place = record {
  workspace_id = some "ws";
  cwd = "";
  direct_checkout = false;
  create_branch = false;
  branch = some "b";
  base_ref = none;
}

abbrev lent : WorkspaceInstance
lent = instance_at site "s" "ws" "/t" (some "b") worktree (true, false)

abbrev later : World Repo
later = record {
  git = "/t" ∷ "b" ∷ [];
  manager =
      manager (database (row (session "s" exited quiet none) "exited/none" ∷ []) (lent ∷ [])) [];
}

archive_session-resolve_workspace_example :
    OnlyWorktree git
      (root_of later.manager lent)
      lent
      true
      later.git
      (archive_session git 9 "s" true later).1.git
unfolding resolve_workspace resolve_isolated make_worktree get_workspace instance_ownership_at_path
    get_instance_for_session
archive_session-resolve_workspace_example =
    archive_session-resolve_workspace branches trees git site (database [] []) "s" "b" "/t" place
      ("b" ∷ []) lent 9 true later refl refl refl refl refl

-- The user has the branch `b` checked out in the worktree `/u`.
abbrev user_branches : BranchOps Repo
user_branches = record branches { worktree_for_branch = λ g root b. ok (some ("/u", false)) }

abbrev joined : WorkspaceInstance
joined = instance_at site "s" "ws" "/u" (some "b") shared (false, false)

abbrev ended : World Repo
ended = record {
  git = "/u" ∷ "b" ∷ [];
  manager =
      manager (database (row (session "s" exited quiet none) "exited/none" ∷ []) (joined ∷ [])) [];
}

abbrev launch : Launch
launch = record { command = "codex"; args = []; env = []; requires_approval = false }

abbrev launcher : Launcher
launcher = record {
  plugin = some agent;
  build_launch = ok launch;
  fork_launch = λ cwd. ok launch;
  with_instructions = λ l cwd b. ok l;
  risky = false;
  handle = λ l. some 1;
}

abbrev request : CreateRequest
request = record {
  agent_plugin_id = "codex";
  approve_custom = false;
  rows = 24;
  cols = 80;
  fork = none;
  place = place;
}

abbrev before : World Repo
before = record { git = "b" ∷ []; manager = manager (database [] []) [] }

-- The session that the request makes.
abbrev made : Session
made = record (session "s" running quiet none) {
  working_directory = "/t";
  created_at = 7;
  updated_at = 7;
  last_activity_at = 7;
  state_since = 7;
}

creates : (create_session git branches trees launcher site request "s" before).0 ≡ ok made
unfolding create_session resolve_workspace get_workspace resolve_isolated make_worktree
    create_in_instance insert_session insert_instance get_session update_status restate kind_of
    status_as_str attention_as_str
creates = refl
