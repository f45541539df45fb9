-- ===== src/Daemon/Worktrees/Sharing.antt =====
-- crates/daemon/src/session_manager/workspaces.rs: a worktree that another session works in, or
-- whose session may still run, is kept.
use agent_workspace.Prelude.{ℕ, ◌<◌, String, ◌≡◌, Bool, true, false, ◌||◌, some, arith, ltb}
use agent_workspace.Daemon.Domain.{Session, WorkspaceInstance, is_definitively_ended}
use agent_workspace.Daemon.Store.Sessions.{get_session}
use agent_workspace.Daemon.Store.Instances.{get_instance_for_session}
use agent_workspace.Daemon.Manager.{Manager, is_live_id}
use agent_workspace.Daemon.Worktrees.{
  GitOps, World, sharers, discard_found, discard_instance, archive_session, has_not_ended,
  cleanup_instance,
}
use agent_workspace.Daemon.Worktrees.Ownership.{archive_session-git}

-- Another active instance has the path, or the session's process may run.
abbrev pub in_use : Manager → String → WorkspaceInstance → Bool
in_use m id inst =
    ltb 0 (sharers m inst) || (is_live_id m id || has_not_ended (get_session m.db id))

module _ {G : Type 0} (ops : GitOps G) where
  discard_instance-shared :
      (id : String) (force : Bool) (w : World G) (inst : WorkspaceInstance)
      → get_instance_for_session w.manager.db id ≡ some inst
      → 0 < sharers w.manager inst
      → (discard_instance ops id force w).1.git ≡ w.git
  unfolding discard_instance discard_found
  discard_instance-shared id force w inst e s = ground (arith, e)

  -- While another active instance has the path of the session's instance, archiving the session,
  -- forced or not, leaves the repository as it was.
  pub archive_session-shared :
      (now : ℕ) (id : String) (force : Bool) (w : World G) (inst : WorkspaceInstance)
      → get_instance_for_session w.manager.db id ≡ some inst
      → 0 < sharers w.manager inst
      → (archive_session ops now id force w).1.git ≡ w.git
  archive_session-shared now id force w inst e s =
      ground
        (arith, discard_instance-shared id force w inst e s, archive_session-git ops now id force w)

  pub archive_session-not_ended :
      (now : ℕ) (id : String) (force : Bool) (w : World G) (s : Session)
      → get_session w.manager.db id ≡ some s
      → is_definitively_ended s.status ≡ false
      → (archive_session ops now id force w).1 ≡ w
  unfolding archive_session
  archive_session-not_ended now id force w s e n = ground (arith, e)

  -- A cleanup leaves the repository as it was while another active instance has the path, while the
  -- session is live, or while its record has not definitively ended: forcing it lifts none of these.
  pub cleanup_instance-in_use :
      (id : String) (force : Bool) (w : World G) (inst : WorkspaceInstance)
      → get_instance_for_session w.manager.db id ≡ some inst
      → in_use w.manager id inst ≡ true
      → (cleanup_instance ops id force w).1.git ≡ w.git
  unfolding cleanup_instance
  cleanup_instance-in_use id force w inst e u = ground (arith, e)
