-- ===== src/Daemon/Worktrees/Refusal.antt =====
-- crates/daemon/src/session_manager/workspaces.rs: an archive that is refused leaves all as it
-- was, and an unforced one discards no work.
use agent_workspace.Prelude.{
  ℕ, String, ◌≡◌, refl, Bool, true, false, not, ◌&&◌, ◌||◌, Option, none, some, arith, is_some,
  Result, ok, err,
}
use agent_workspace.Daemon.Domain.{Workspace, WorkspaceInstance}
use agent_workspace.Daemon.Store.Instances.{get_workspace, get_instance_for_session}
use agent_workspace.Daemon.Manager.{Fault, git_failed, session_vanished}
use agent_workspace.Daemon.Worktrees.{
  GitOps, World, reclaim, discard_found, discard_in, discard_held, discard_instance,
  archive_session, lost_work,
}
use agent_workspace.Daemon.Worktrees.Ownership.{root_of, archive_session-git}

-- A fault that the checks raise.
abbrev is_refusal : Fault → Bool
is_refusal git_failed = false
is_refusal session_vanished = false
is_refusal _ = true

abbrev is_refused {ℓ} : {A : Type ℓ} → Result Fault A → Bool
is_refused (ok a) = false
is_refused (err fault) = is_refusal fault

module _ {G : Type 0} (ops : GitOps G) where
  reclaim-refused :
      (root : String) (inst : WorkspaceInstance) (force : Bool) (w : World G)
      → is_refused (reclaim ops root inst force w).0 ≡ false
  unfolding reclaim
  reclaim-refused root inst force w = ground arith

  discard_found-refused :
      (id root : String) (inst : WorkspaceInstance) (force : Bool) (w : World G)
      → is_refused (discard_found ops id root inst force w).0 ≡ true
      → (discard_found ops id root inst force w).1 ≡ w
  unfolding discard_found
  discard_found-refused id root inst force w e = ground (arith, reclaim-refused root inst force w)

  discard_in-refused :
      (id : String) (inst : WorkspaceInstance) (force : Bool) (w : World G) (o : Option Workspace)
      → is_refused (discard_in ops id inst force w o).0 ≡ true
      → (discard_in ops id inst force w o).1 ≡ w
  discard_in-refused id inst force w none e = refl
  discard_in-refused id inst force w (some ws) e =
      discard_found-refused id ws.root_path inst force w e

  discard_held-refused :
      (id : String) (force : Bool) (w : World G) (o : Option WorkspaceInstance)
      → is_refused (discard_held ops id force w o).0 ≡ true
      → (discard_held ops id force w o).1 ≡ w
  discard_held-refused id force w none e = refl
  discard_held-refused id force w (some inst) e =
      ground
        (arith, discard_in-refused id inst force w (get_workspace w.manager.db inst.workspace_id))

  discard_instance-refused :
      (id : String) (force : Bool) (w : World G)
      → is_refused (discard_instance ops id force w).0 ≡ true
      → (discard_instance ops id force w).1 ≡ w
  unfolding discard_instance
  discard_instance-refused id force w e =
      discard_held-refused id force w (get_instance_for_session w.manager.db id) e

  -- An archive that ends in an error other than a failure of git, or than the session's record
  -- being gone, leaves the repository and the manager as they were.
  pub archive_session-refused :
      (now : ℕ) (id : String) (force : Bool) (w : World G) (fault : Fault)
      → is_refusal fault ≡ true
      → (archive_session ops now id force w).0 ≡ err fault
      → (archive_session ops now id force w).1 ≡ w
  unfolding archive_session
  archive_session-refused now id force w fault r e =
      ground (arith, discard_instance-refused id force w)

  -- Uncommitted changes in a worktree, or unmerged commits on a branch, that the daemon made.
  unfoldable pub work_at_risk : G → String → WorkspaceInstance → Bool
  work_at_risk g root inst =
      (inst.owns_worktree && (inst.is_active && ops.is_dirty g inst.path))
      || (inst.owns_branch && elim (inst.branch) [
        | none ↦ false
        | some b ↦ ops.branch_exists g root b && not (ops.branch_is_merged g root b)
      ])

  lost_work-work_at_risk :
      (g : G) (root : String) (inst : WorkspaceInstance)
      → is_some (lost_work ops g root inst) ≡ work_at_risk g root inst
  unfolding work_at_risk lost_work
  lost_work-work_at_risk g root inst = ground arith

  discard_instance-work_at_risk :
      (id : String) (w : World G) (inst : WorkspaceInstance)
      → get_instance_for_session w.manager.db id ≡ some inst
      → work_at_risk w.git (root_of w.manager inst) inst ≡ true
      → (discard_instance ops id false w).1.git ≡ w.git
  unfolding discard_instance discard_found
  discard_instance-work_at_risk id w inst e l =
      ground (arith, e, lost_work-work_at_risk w.git (root_of w.manager inst) inst)

  -- An archive that is not forced leaves the repository as it was, if the active instance has
  -- uncommitted changes in a worktree that the daemon made, or if the instance's branch, made by
  -- the daemon, exists and is not merged.
  pub archive_session-work_at_risk :
      (now : ℕ) (id : String) (w : World G) (inst : WorkspaceInstance)
      → get_instance_for_session w.manager.db id ≡ some inst
      → work_at_risk w.git (root_of w.manager inst) inst ≡ true
      → (archive_session ops now id false w).1.git ≡ w.git
  archive_session-work_at_risk now id w inst e l =
      ground
        (arith, discard_instance-work_at_risk id w inst e l, archive_session-git ops now id false w)
