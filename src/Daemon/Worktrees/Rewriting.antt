-- ===== src/Daemon/Worktrees/Rewriting.antt =====
-- crates/daemon/src/session_manager/workspaces.rs: the branches that a client cannot delete, and
-- those that it cannot rewrite.
use agent_workspace.Prelude.{
  ◌<◌, String, ◌≡◌, ap, ◌∙◌, ◌⊎◌, Bool, true, false, ◌&&◌, some, arith, str_eq, ltb, if◌then◌else◌,
  ok, err,
}
use agent_workspace.Daemon.Domain.{Workspace, WorkspaceInstance}
use agent_workspace.Daemon.Store.Query.{exists, select, exists-order_by, exists-select}
use agent_workspace.Daemon.Store.Instances.{get_workspace, list_active_instances_for_workspace}
use agent_workspace.Daemon.Manager.{Manager, branch_is_live}
use agent_workspace.Daemon.Worktrees.{GitOps, World}
use agent_workspace.Daemon.Worktrees.Branches.{
  BranchOps, is_running_on, ensure_branch_not_live, delete_workspace_branch,
  merge_workspace_branches, rebase_workspace_branch,
}

-- An active instance of the workspace records the branch, and its session is live.
abbrev works_on : Manager → String → String → WorkspaceInstance → Bool
works_on m id branch i = (str_eq i.workspace_id id && i.is_active) && is_running_on m branch i

ensure_branch_not_live-works_on :
    (id branch : String) (m : Manager)
    → exists (works_on m id branch) m.db.instances ≡ true
    → ensure_branch_not_live id branch m ≡ err branch_is_live
unfolding ensure_branch_not_live list_active_instances_for_workspace
ensure_branch_not_live-works_on id branch m e =
    let active = select (λ i. str_eq i.workspace_id id && i.is_active) m.db.instances in
    ap (λ b. if b then err branch_is_live else ok tt)
      (exists-order_by (is_running_on m branch) (λ a b. ltb b.created_at a.created_at) active
        ∙ exists-select (is_running_on m branch) (λ i. str_eq i.workspace_id id && i.is_active)
            m.db.instances
        ∙ e)

module _ {G : Type 0} (ops : GitOps G) (branches : BranchOps G) where
  -- While an active instance of the workspace records the branch and its session is live, a merge
  -- into the branch and a rebase of it leave the repository and the manager as they were.
  pub rewrite-works_on :
      (id branch other : String) (w : World G)
      → exists (works_on w.manager id branch) w.manager.db.instances ≡ true
      → ((merge_workspace_branches ops branches id other branch w).1 ≡ w)
        × ((rebase_workspace_branch ops branches id branch other w).1 ≡ w)
  unfolding merge_workspace_branches rebase_workspace_branch
  rewrite-works_on id branch other w e =
      let refused = ensure_branch_not_live-works_on id branch w.manager e in
      (ground (arith, refused), ground (arith, refused))

  pub delete_workspace_branch_lem :
      (id branch : String) (force : Bool) (w : World G) (ws : Workspace) (at : String × Bool)
      → get_workspace w.manager.db id ≡ some ws
      → ((branches.worktree_for_branch w.git ws.root_path branch ≡ ok (some at))
          ⊎ ((force ≡ false) × (0 < branches.unmerged_commit_count w.git ws.root_path branch)))
      → (delete_workspace_branch ops branches id branch force w).1 ≡ w
  unfolding delete_workspace_branch
  delete_workspace_branch_lem id branch force w ws at e h = ground (arith, e)
