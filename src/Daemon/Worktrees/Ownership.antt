-- ===== src/Daemon/Worktrees/Ownership.antt =====
-- crates/daemon/src/session_manager/workspaces.rs: an archived session takes away only what the
-- daemon made.
use agent_workspace.Prelude.{
  ℕ, String, ◌≡◌, ◌⊎◌, Bool, true, false, not, ◌&&◌, some, arith, unwrap_or, map_option,
}
use agent_workspace.Daemon.Domain.{WorkspaceInstance}
use agent_workspace.Daemon.Store.Instances.{get_workspace, get_instance_for_session}
use agent_workspace.Daemon.Manager.{Manager}
use agent_workspace.Daemon.Worktrees.{
  GitOps, World, reclaim, discard_found, discard_instance, archive_session,
}

-- The daemon made neither the worktree nor the branch.
abbrev pub owns_nothing : WorkspaceInstance → Bool
owns_nothing inst = not inst.owns_worktree && not inst.owns_branch

-- The root of the instance's workspace, if it is registered.
abbrev pub root_of : Manager → WorkspaceInstance → String
root_of m inst =
    unwrap_or "" (map_option (λ ws. ws.root_path) (get_workspace m.db inst.workspace_id))

module _ {G : Type 0} (ops : GitOps G) where
  reclaim-owns_nothing :
      (root : String) (inst : WorkspaceInstance) (force : Bool) (w : World G)
      → owns_nothing inst ≡ true
      → (reclaim ops root inst force w).1.git ≡ w.git
  unfolding reclaim
  reclaim-owns_nothing root inst force w o = ground arith

  discard_found-owns_nothing :
      (id root : String) (inst : WorkspaceInstance) (force : Bool) (w : World G)
      → owns_nothing inst ≡ true
      → (discard_found ops id root inst force w).1.git ≡ w.git
  unfolding discard_found
  discard_found-owns_nothing id root inst force w o =
      ground (arith, reclaim-owns_nothing root inst force w o)

  discard_instance-owns_nothing :
      (id : String) (force : Bool) (w : World G) (inst : WorkspaceInstance)
      → get_instance_for_session w.manager.db id ≡ some inst
      → owns_nothing inst ≡ true
      → (discard_instance ops id force w).1.git ≡ w.git
  unfolding discard_instance
  discard_instance-owns_nothing id force w inst e o =
      ground (arith, e, discard_found-owns_nothing id (root_of w.manager inst) inst force w o)

  -- The repository is as it was, or as the removal of the instance's worktree left it.
  abbrev pub OnlyWorktree : String → WorkspaceInstance → Bool → G → G → Type 0
  OnlyWorktree root inst force before g =
      (g ≡ before) ⊎ ((ops.remove_worktree before root inst.path force).1 ≡ g)

  OnlyWorktree-reclaim :
      (root : String) (inst : WorkspaceInstance) (force : Bool) (w : World G)
      → inst.owns_branch ≡ false
      → OnlyWorktree root inst force w.git (reclaim ops root inst force w).1.git
  unfolding reclaim
  OnlyWorktree-reclaim root inst force w o = ground arith

  OnlyWorktree-discard_found :
      (id root : String) (inst : WorkspaceInstance) (force : Bool) (w : World G)
      → inst.owns_branch ≡ false
      → OnlyWorktree root inst force w.git (discard_found ops id root inst force w).1.git
  unfolding discard_found
  OnlyWorktree-discard_found id root inst force w o =
      ground (arith, OnlyWorktree-reclaim root inst force w o)

  OnlyWorktree-discard_instance :
      (id : String) (force : Bool) (w : World G) (inst : WorkspaceInstance)
      → get_instance_for_session w.manager.db id ≡ some inst
      → inst.owns_branch ≡ false
      → OnlyWorktree
          (root_of w.manager inst)
          inst
          force
          w.git
          (discard_instance ops id force w).1.git
  unfolding discard_instance
  OnlyWorktree-discard_instance id force w inst e o =
      ground (arith, e, OnlyWorktree-discard_found id (root_of w.manager inst) inst force w o)

  pub archive_session-git :
      (now : ℕ) (id : String) (force : Bool) (w : World G)
      → ((archive_session ops now id force w).1.git ≡ w.git)
        ⊎ ((archive_session ops now id force w).1.git ≡ (discard_instance ops id force w).1.git)
  unfolding archive_session
  archive_session-git now id force w = ground arith

  -- Whatever the repository does, archiving a session, forced or not, leaves the repository as it
  -- was if the daemon made neither the worktree nor the branch of the session's instance.
  pub archive_session-owns_nothing :
      (now : ℕ) (id : String) (force : Bool) (w : World G) (inst : WorkspaceInstance)
      → get_instance_for_session w.manager.db id ≡ some inst
      → owns_nothing inst ≡ true
      → (archive_session ops now id force w).1.git ≡ w.git
  archive_session-owns_nothing now id force w inst e o =
      ground (
        arith,
        discard_instance-owns_nothing id force w inst e o,
        archive_session-git now id force w,
      )

  pub archive_session-keeps_branch :
      (now : ℕ) (id : String) (force : Bool) (w : World G) (inst : WorkspaceInstance)
      → get_instance_for_session w.manager.db id ≡ some inst
      → inst.owns_branch ≡ false
      → OnlyWorktree
          (root_of w.manager inst)
          inst
          force
          w.git
          (archive_session ops now id force w).1.git
  archive_session-keeps_branch now id force w inst e o =
      ground (
        arith,
        OnlyWorktree-discard_instance id force w inst e o,
        archive_session-git now id force w,
      )
