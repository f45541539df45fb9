-- ===== src/Daemon/Creation/Joining.antt =====
-- crates/daemon/src/session_manager/workspaces.rs: a session that joined a worktree which the user
-- made, when it is archived and when it is cleaned up.
use agent_workspace.Prelude.{
  Bool, true, false, not, ◌&&◌, ◌||◌, none, some, is_some, Result, ok, err,
}
use agent_workspace.Daemon.Domain.{WorkspaceInstance, shared}
use agent_workspace.Daemon.Store.{Db}
use agent_workspace.Daemon.Store.Instances.{instance_ownership_at_path}
use agent_workspace.Daemon.Manager.{Fault}
use agent_workspace.Daemon.Worktrees.Ownership.{owns_nothing}
use agent_workspace.Daemon.Creation.{Located}

-- The instance is a shared one, active, and the daemon's only where the store has it so.
abbrev is_joined : Db → WorkspaceInstance → Bool
is_joined db inst =
    inst.is_active && (is_some (instance_ownership_at_path db inst.path) || owns_nothing inst)

abbrev is_shared : WorkspaceInstance → Bool
is_shared inst = elim (inst.isolation) [ shared ↦ true | _ ↦ false ]

abbrev joins : Db → Result {0, 0} Fault Located → Bool
joins db (err fault) = true
joins db (ok (path, none)) = true
joins db (ok (path, some inst)) = not (is_shared inst) || is_joined db inst
