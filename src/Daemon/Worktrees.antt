-- ===== src/Daemon/Worktrees.antt =====
-- crates/daemon/src/session_manager/workspaces.rs: what becomes of a session's worktree and branch.
-- The repository is an abstract state `G`, which is read and changed by the functions of `GitOps`
-- alone, those of crates/daemon/src/workspace.rs.
pub mod Ownership
pub mod Refusal
pub mod Sharing
pub mod Branches
pub mod Orphans
pub mod Sweeping
pub mod Rewriting
mod Tests
use agent_workspace.Prelude.{
  ℕ, String, Bool, true, false, not, ◌&&◌, Option, none, some, ltb, ◌==◌, if◌then◌else◌, Result, ok,
  err, ok_or,
}
use agent_workspace.Daemon.Domain.{
  Session, Workspace, WorkspaceInstance, worktree, shared, indeterminate, archived,
  is_definitively_ended,
}
use agent_workspace.Daemon.Store.Sessions.{get_session, update_status}
use agent_workspace.Daemon.Store.Instances.{
  get_workspace, get_instance_for_session, set_instance_status, count_active_instances_at_path,
}
use agent_workspace.Daemon.Manager.{
  Manager, Fault, Outcome, no_such_session, workspace_missing, session_vanished, still_live,
  not_ended, outcome_unknown, dirty_needs_force, unmerged_needs_force, no_instance, git_failed,
  is_live_id,
}

-- The last argument of `remove_worktree` and of `delete_branch` is `force`. They answer whether they
-- succeeded, and leave a repository either way.
pub record GitOps (G : Type 0) : Type 0 where
  pub is_dirty : G → String → Bool
  pub branch_exists : G → String → String → Bool
  pub branch_is_merged : G → String → String → Bool
  pub remove_worktree : G → String → String → Bool → Bool × G
  pub delete_branch : G → String → String → Bool → Bool × G

pub record World (G : Type 0) : Type 0 where
  pub git : G
  pub manager : Manager

abbrev pub is_isolated : WorkspaceInstance → Bool
is_isolated inst = elim (inst.isolation) [ worktree ↦ true | shared ↦ true | _ ↦ false ]

abbrev pub release : String → Manager → Manager
release id m = record m { db = set_instance_status m.db id false }

abbrev pub sharers : Manager → WorkspaceInstance → ℕ
sharers m inst = count_active_instances_at_path m.db inst.path inst.id

-- The branch, if the daemon made it.
abbrev pub owned_branch : WorkspaceInstance → Option String
owned_branch inst = if inst.owns_branch then inst.branch else none

-- A session whose record is gone is not held to have ended or not.
abbrev pub has_not_ended : Option Session → Bool
has_not_ended none = false
has_not_ended (some s) = not (is_definitively_ended s.status)

abbrev outcome_of : Bool → Outcome
outcome_of succeeded = if succeeded then ok tt else err git_failed

module _ {G : Type 0} (ops : GitOps G) where
  abbrev would_lose : G → String → Option String → Bool
  would_lose g root none = false
  would_lose g root (some b) = ops.branch_exists g root b && not (ops.branch_is_merged g root b)

  -- The work that an unforced removal would discard.
  unfoldable pub lost_work : G → String → WorkspaceInstance → Option Fault
  lost_work g root inst =
      if inst.is_active && (inst.owns_worktree && ops.is_dirty g inst.path)
      then some dirty_needs_force
      else if would_lose g root (owned_branch inst)
      then some unmerged_needs_force
      else none

  abbrev drop_worktree : String → WorkspaceInstance → Bool → G → Bool × G
  drop_worktree root inst force g =
      if inst.is_active && inst.owns_worktree
      then ops.remove_worktree g root inst.path force
      else (true, g)

  abbrev pub drop_branch : String → Option String → G → Bool × G
  drop_branch root none g = (true, g)
  drop_branch root (some b) g =
      if ops.branch_exists g root b then ops.delete_branch g root b true else (true, g)

  -- The instance's record is released if it is active.
  abbrev let_go : WorkspaceInstance → Manager → Manager
  let_go inst m = if inst.is_active then release inst.id m else m

  -- The worktree first, then the branch.
  unfoldable pub reclaim : String → WorkspaceInstance → Bool → World G → Outcome × World G
  reclaim root inst force w =
      let tree = drop_worktree root inst force w.git in
      let branch = drop_branch root (owned_branch inst) tree.1 in
      if tree.0
      then (outcome_of branch.0, record { git = branch.1; manager = let_go inst w.manager })
      else (err git_failed, record w { git = tree.1 })

  abbrev proceed : String → WorkspaceInstance → Bool → World G → Option Fault → Outcome × World G
  proceed root inst force w (some fault) = (err fault, w)
  proceed root inst force w none = reclaim root inst force w

  unfoldable pub discard_found :
      String → String → WorkspaceInstance → Bool → World G → Outcome × World G
  discard_found id root inst force w =
      if inst.is_active && is_live_id w.manager id
      then (err still_live, w)
      else if ltb 0 (sharers w.manager inst)
      then (ok tt, record w { manager = let_go inst w.manager })
      else proceed root inst force w (if force then none else lost_work w.git root inst)

  abbrev pub discard_in :
      String → WorkspaceInstance → Bool → World G → Option Workspace → Outcome × World G
  discard_in id inst force w none = (err workspace_missing, w)
  discard_in id inst force w (some ws) = discard_found id ws.root_path inst force w

  abbrev pub discard_held : String → Bool → World G → Option WorkspaceInstance → Outcome × World G
  discard_held id force w none = (ok tt, w)
  discard_held id force w (some inst) =
      if is_isolated inst
      then discard_in id inst force w (get_workspace w.manager.db inst.workspace_id)
      else (ok tt, w)

  unfoldable pub discard_instance : String → Bool → World G → Outcome × World G
  discard_instance id force w = discard_held id force w (get_instance_for_session w.manager.db id)

  abbrev mark_archived : ℕ → String → Session → Outcome × World G → Result Fault Session × World G
  mark_archived now id s (err fault, w) = (err fault, w)
  mark_archived now id s (ok tt, w) =
      let db = update_status w.manager.db id archived s.exit_code now in
      (
        ok_or session_vanished (get_session db id),
        record w { manager = record (w.manager) { db = db } },
      )

  unfoldable pub archive_session : ℕ → String → Bool → World G → Result Fault Session × World G
  archive_session now id force w = elim (get_session w.manager.db id) [
    | none ↦ (err no_such_session, w)
    | some s ↦
        if is_definitively_ended s.status
        then mark_archived now id s (discard_instance id force w)
        else (err (elim (s.status) [ indeterminate ↦ outcome_unknown | _ ↦ not_ended ]), w)
  ]

  abbrev clean_worktree : WorkspaceInstance → Bool → World G → Outcome × World G
  clean_worktree inst force w =
      if sharers w.manager inst == 0
      then elim (get_workspace w.manager.db inst.workspace_id) [
        | none ↦ (err workspace_missing, w)
        | some ws ↦
            let removed = ops.remove_worktree w.git ws.root_path inst.path force in
            if removed.0
            then (ok tt, record { git = removed.1; manager = release inst.id w.manager })
            else (err git_failed, record w { git = removed.1 })
      ]
      else (ok tt, record w { manager = release inst.id w.manager })

  unfoldable pub cleanup_instance : String → Bool → World G → Outcome × World G
  cleanup_instance id force w = elim (get_instance_for_session w.manager.db id) [
    | none ↦ (err no_instance, w)
    | some inst ↦
        if not inst.is_active
        then (ok tt, w)
        else if not (is_isolated inst)
        then (ok tt, record w { manager = release inst.id w.manager })
        else if is_live_id w.manager id
        then (err still_live, w)
        else if has_not_ended (get_session w.manager.db id)
        then (err not_ended, w)
        else clean_worktree inst force w
  ]
