-- ===== src/Daemon/Worktrees/Tests.antt =====
-- session_manager/workspaces.rs: instances of the theorems on worktrees and branches.
use agent_workspace.Prelude.{ℕ, ◌≡◌, refl, true, false, none, List, [], ◌∷◌, arith, Assoc, lookup}
use agent_workspace.Daemon.Domain.{WorkspaceInstance, worktree, shared, exited, quiet}
use agent_workspace.Daemon.Store.Sessions.{get_session}
use agent_workspace.Daemon.Store.Instances.{
  get_workspace, get_instance_for_session, count_active_instances_at_path,
}
use agent_workspace.Daemon.Manager.{dirty_needs_force}
use agent_workspace.Daemon.Worktrees.{
  World, discard_instance, discard_found, lost_work, archive_session, cleanup_instance,
}
use agent_workspace.Daemon.Worktrees.Ownership.{archive_session-owns_nothing}
use agent_workspace.Daemon.Worktrees.Refusal.{
  work_at_risk, archive_session-refused, archive_session-work_at_risk,
}
use agent_workspace.Daemon.Worktrees.Sharing.{archive_session-shared, cleanup_instance-in_use}
use agent_workspace.Daemon.Worktrees.Branches.{merge_workspace_branches, rebase_workspace_branch}
use agent_workspace.Daemon.Worktrees.Rewriting.{rewrite-works_on}
use agent_workspace.Daemon.Repository.{Repo, git, branches}
use agent_workspace.Daemon.Samples.{session, row, database, manager, instance_of}
use agent_workspace.Daemon.Worktrees.Orphans.{WorktreeEntry, SweepOps}
use agent_workspace.Prelude.{ok, some}

abbrev borrowed : WorkspaceInstance
borrowed = instance_of "i" "s" shared false false

abbrev own : WorkspaceInstance
own = instance_of "i" "s" worktree true true

abbrev other : WorkspaceInstance
other = instance_of "j" "t" shared true true

abbrev repo : Repo
repo = "/t" ∷ "b" ∷ "dirty" ∷ []

abbrev world : List WorkspaceInstance → Assoc ℕ → World Repo
world instances live = record {
  git = repo;
  manager =
      manager (database (row (session "s" exited quiet none) "exited/none" ∷ []) instances) live;
}

archive_session-owns_nothing_example :
    (archive_session git 9 "s" true (world (borrowed ∷ []) [])).1.git ≡ repo
unfolding get_instance_for_session
archive_session-owns_nothing_example =
    archive_session-owns_nothing git 9 "s" true (world (borrowed ∷ []) []) borrowed refl refl

archive_session-refused_example :
    (archive_session git 9 "s" false (world (own ∷ []) [])).1 ≡ world (own ∷ []) []
unfolding archive_session discard_instance discard_found lost_work get_instance_for_session
    get_workspace get_session count_active_instances_at_path lookup
archive_session-refused_example =
    archive_session-refused git 9 "s" false (world (own ∷ []) []) dirty_needs_force refl refl

archive_session-work_at_risk_example :
    (archive_session git 9 "s" false (world (own ∷ []) [])).1.git ≡ repo
unfolding get_instance_for_session work_at_risk get_workspace
archive_session-work_at_risk_example =
    archive_session-work_at_risk git 9 "s" (world (own ∷ []) []) own refl refl

archive_session-shared_example :
    (archive_session git 9 "s" true (world (own ∷ other ∷ []) [])).1.git ≡ repo
unfolding get_instance_for_session count_active_instances_at_path
archive_session-shared_example =
    archive_session-shared git 9 "s" true (world (own ∷ other ∷ []) []) own refl (ground arith)

cleanup_instance-in_use_example :
    (cleanup_instance git "s" true (world (own ∷ []) (("s", 1) ∷ []))).1.git ≡ repo
unfolding get_instance_for_session count_active_instances_at_path lookup
cleanup_instance-in_use_example =
    cleanup_instance-in_use git "s" true (world (own ∷ []) (("s", 1) ∷ [])) own refl refl

-- The worktree of a session that joined it, and that the daemon did not make.
rewrite-works_on_example :
    ((merge_workspace_branches git branches "ws" "c" "b" (world (own ∷ []) (("s", 1) ∷ []))).1
      ≡ world (own ∷ []) (("s", 1) ∷ []))
    × ((rebase_workspace_branch git branches "ws" "b" "c" (world (own ∷ []) (("s", 1) ∷ []))).1
        ≡ world (own ∷ []) (("s", 1) ∷ []))
unfolding lookup
rewrite-works_on_example =
    rewrite-works_on git branches "ws" "b" "c" (world (own ∷ []) (("s", 1) ∷ [])) refl

-- The main worktree, that of a session on record, and one on the user's own branch.
abbrev listed : List WorktreeEntry
listed =
    record { path = "/w"; branch = some "main" }
    ∷ record { path = "/t"; branch = some "asm-session/01234567" }
    ∷ record { path = "/u"; branch = some "feature" }
    ∷ []

abbrev sweep : SweepOps Repo
sweep = record {
  prune_worktrees = λ g root. g;
  list_worktrees = λ g root. ok listed;
  list_branches = λ g root. ok ("main" ∷ "asm-session/01234567" ∷ "feature" ∷ []);
}

abbrev known_world : World Repo
known_world = record {
  git = repo;
  manager = manager (database (row (session "01234567-89" exited quiet none) "" ∷ []) []) [];
}
