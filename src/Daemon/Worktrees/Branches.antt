-- ===== src/Daemon/Worktrees/Branches.antt =====
-- crates/daemon/src/session_manager/workspaces.rs: the workspaces' registration, and the branches
-- that a client deletes or rewrites.
use agent_workspace.Prelude.{
  ℕ, String, Bool, true, false, not, ◌&&◌, Option, none, some, str_eq, ltb, if◌then◌else◌, Result,
  ok, err, ◌>>=◌,
}
use agent_workspace.Daemon.Domain.{Session, WorkspaceInstance, is_definitively_ended}
use agent_workspace.Daemon.Store.Query.{exists}
use agent_workspace.Daemon.Store.Sessions.{list_sessions}
use agent_workspace.Daemon.Store.Instances.{
  get_workspace, delete_workspace, list_active_instances_for_workspace,
}
use agent_workspace.Daemon.Manager.{
  Manager, Fault, Outcome, no_such_workspace, has_sessions, not_git, branch_checked_out,
  branch_is_live, unmerged_needs_force, git_failed, is_live_id,
}
use agent_workspace.Daemon.Worktrees.{GitOps, World}

abbrev same_text : Option String → String → Bool
same_text none b = false
same_text (some a) b = str_eq a b

abbrev holds_workspace : String → Session → Bool
holds_workspace id s = same_text s.workspace_id id && not (is_definitively_ended s.status)

unfoldable remove_workspace : String → Manager → Outcome × Manager
remove_workspace id m = elim (get_workspace m.db id) [
  | none ↦ (err no_such_workspace, m)
  | some ws ↦
      if exists (holds_workspace id) (list_sessions m.db)
      then (err has_sessions, m)
      else (ok tt, record m { db = (delete_workspace m.db id).1 })
]

abbrev pub git_workspace_root : String → Manager → Result Fault String
git_workspace_root id m = elim (get_workspace m.db id) [
  | none ↦ err no_such_workspace
  | some ws ↦ if ws.is_git then ok ws.root_path else err not_git
]

-- An active instance on the branch with a live session.
abbrev pub is_running_on : Manager → String → WorkspaceInstance → Bool
is_running_on m branch i =
    same_text i.branch branch && elim (i.session_id) [ none ↦ false | some sid ↦ is_live_id m sid ]

unfoldable pub ensure_branch_not_live : String → String → Manager → Outcome
ensure_branch_not_live id branch m =
    if exists (is_running_on m branch) (list_active_instances_for_workspace m.db id)
    then err branch_is_live
    else ok tt

-- What crates/daemon/src/source_control.rs does to the repository.
pub record BranchOps (G : Type 0) : Type 0 where
  pub worktree_for_branch : G → String → String → Result {0, 0} Fault (Option (String × Bool))
  pub unmerged_commit_count : G → String → String → ℕ
  pub merge_branches : G → String → String → String → Result String String × G
  pub rebase_branch : G → String → String → String → Result String String × G

module _ {G : Type 0} (ops : GitOps G) (branches : BranchOps G) where
  abbrev delete_from :
      String
      → String
      → Bool
      → World G
      → Result {0, 0} Fault (Option (String × Bool))
      → Outcome × World G
  delete_from root branch force w (err fault) = (err fault, w)
  delete_from root branch force w (ok (some at)) = (err branch_checked_out, w)
  delete_from root branch force w (ok none) =
      if not force && ltb 0 (branches.unmerged_commit_count w.git root branch)
      then (err unmerged_needs_force, w)
      else let deleted = ops.delete_branch w.git root branch true in
        (if deleted.0 then ok tt else err git_failed, record w { git = deleted.1 })

  unfoldable pub delete_workspace_branch : String → String → Bool → World G → Outcome × World G
  delete_workspace_branch id branch force w = elim (git_workspace_root id w.manager) [
    | err fault ↦ (err fault, w)
    | ok root ↦ delete_from root branch force w (branches.worktree_for_branch w.git root branch)
  ]

  -- The checks before a branch is rewritten.
  abbrev may_rewrite : String → String → Manager → Result Fault String
  may_rewrite id branch m =
      git_workspace_root id m >>= (λ root. ensure_branch_not_live id branch m >>= (λ done. ok root))

  unfoldable pub merge_workspace_branches :
      String → String → String → World G → Result Fault (Result String String) × World G
  merge_workspace_branches id source target w = elim (may_rewrite id target w.manager) [
    | err fault ↦ (err fault, w)
    | ok root ↦
        let merged = branches.merge_branches w.git root source target in
        (ok merged.0, record w { git = merged.1 })
  ]

  unfoldable pub rebase_workspace_branch :
      String → String → String → World G → Result Fault (Result String String) × World G
  rebase_workspace_branch id branch onto w = elim (may_rewrite id branch w.manager) [
    | err fault ↦ (err fault, w)
    | ok root ↦
        let rebased = branches.rebase_branch w.git root branch onto in
        (ok rebased.0, record w { git = rebased.1 })
  ]
