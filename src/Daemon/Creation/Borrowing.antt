-- ===== src/Daemon/Creation/Borrowing.antt =====
-- crates/daemon/src/session_manager/workspaces.rs: a branch that existed before the session is
-- only borrowed.
use agent_workspace.Prelude.{
  ℕ, String, ◌≡◌, refl, Bool, true, false, not, ◌||◌, Option, none, some, arith, unwrap_or, Result,
  ok, err,
}
use agent_workspace.Daemon.Domain.{Workspace, WorkspaceInstance}
use agent_workspace.Daemon.Store.{Db}
use agent_workspace.Daemon.Store.Instances.{
  get_workspace, get_instance_for_session, instance_ownership_at_path,
}
use agent_workspace.Daemon.Manager.{Fault}
use agent_workspace.Daemon.Worktrees.{GitOps, World, archive_session}
use agent_workspace.Daemon.Worktrees.Ownership.{OnlyWorktree, root_of, archive_session-keeps_branch}
use agent_workspace.Daemon.Worktrees.Branches.{BranchOps}
use agent_workspace.Daemon.Creation.{
  Place, Site, WorktreeOps, Located, trimmed, make_worktree, resolve_isolated, resolve_in,
  resolve_workspace,
}

-- The branch is the daemon's if the store has it so for the path.
abbrev inherits : Db → WorkspaceInstance → Bool
inherits db inst = elim (instance_ownership_at_path db inst.path) [
  | none ↦ false
  | some owns ↦ owns.1
]

abbrev is_borrowed : Db → Result {0, 0} Fault Located → Bool
is_borrowed db (err fault) = true
is_borrowed db (ok (path, none)) = true
is_borrowed db (ok (path, some inst)) = not inst.owns_branch || inherits db inst

module _ {G : Type 0} (branches : BranchOps G) (trees : WorktreeOps G) where
  resolve_isolated-borrowed :
      (site : Site) (db : Db) (session_id name : String) (ws : Workspace) (req : Place) (g : G)
      → req.create_branch ≡ false
      → trimmed site req.branch ≡ some name
      → is_borrowed db (resolve_isolated branches trees site db session_id ws req g).0 ≡ true
  unfolding resolve_isolated make_worktree
  resolve_isolated-borrowed site db session_id name ws req g c t = ground (arith, t)

  resolve_in-borrowed :
      (site : Site) (db : Db) (session_id name : String) (o : Option Workspace) (req : Place)
      → (g : G) → req.create_branch ≡ false
      → trimmed site req.branch ≡ some name
      → is_borrowed db (resolve_in branches trees site db session_id req g o).0 ≡ true
  resolve_in-borrowed site db session_id name none req g c t = refl
  resolve_in-borrowed site db session_id name (some ws) req g c t =
      ground (arith, resolve_isolated-borrowed site db session_id name ws req g c t)

  resolve_workspace-borrowed :
      (site : Site) (db : Db) (session_id name : String) (req : Place) (g : G)
      → req.create_branch ≡ false
      → trimmed site req.branch ≡ some name
      → is_borrowed db (resolve_workspace branches trees site db session_id req g).0 ≡ true
  unfolding resolve_workspace
  resolve_workspace-borrowed site db session_id name req g c t = ground (
    arith,
    resolve_in-borrowed site db session_id name (get_workspace db (unwrap_or "" req.workspace_id))
        req g c t,
  )

  -- Whatever the repository does: if a session was placed on a branch that it asked for and did not
  -- ask to create, at a path for which no ownership was on record, then archiving it later, forced
  -- or not, while its instance is still as it was placed, leaves the repository as it was or as
  -- git's removal of that instance's worktree leaves it: the branch is not deleted.
  pub archive_session-resolve_workspace :
      (ops : GitOps G) (site : Site) (db : Db) (session_id name path : String) (req : Place)
      → (g : G) (inst : WorkspaceInstance) (now : ℕ) (force : Bool) (w : World G)
      → req.create_branch ≡ false
      → trimmed site req.branch ≡ some name
      → (resolve_workspace branches trees site db session_id req g).0 ≡ ok (path, some inst)
      → instance_ownership_at_path db inst.path ≡ none
      → get_instance_for_session w.manager.db session_id ≡ some inst
      → OnlyWorktree ops
          (root_of w.manager inst)
          inst
          force
          w.git
          (archive_session ops now session_id force w).1.git
  archive_session-resolve_workspace ops site db session_id name path req g inst now force w c t e o
        f =
      archive_session-keeps_branch ops now session_id force w inst f
        (ground (arith, e, o, resolve_workspace-borrowed site db session_id name req g c t))
