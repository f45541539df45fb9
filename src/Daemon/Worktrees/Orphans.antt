-- ===== src/Daemon/Worktrees/Orphans.antt =====
-- crates/daemon/src/session_manager/workspaces.rs and mod.rs: the sweep of worktrees and branches
-- that no session of this daemon owns.
use text.Mathlib.Text.{get?}
use Prim.Native.String.{slice, len}
use agent_workspace.Prelude.{
  String, Bool, true, false, not, ◌&&◌, ◌||◌, Option, none, some, List, [], ◌∷◌, ◌++◌, str_eq,
  if◌then◌else◌, unwrap_or, Result, ok, err, starts_with,
}
use agent_workspace.Daemon.Domain.{Session}
use agent_workspace.Daemon.Store.Sessions.{list_sessions}
use agent_workspace.Daemon.Manager.{Fault}
use agent_workspace.Daemon.Worktrees.{GitOps, World}
use agent_workspace.Daemon.Worktrees.Branches.{git_workspace_root}

pub record WorktreeEntry : Type 0 where
  pub path : String
  pub branch : Option String

pub record WorktreeCleanupReport : Type 0 where
  pub removed_worktrees : List String
  pub deleted_branches : List String
  pub skipped_dirty : List String
  pub skipped_unmerged : List String

abbrev pub empty_report : WorktreeCleanupReport
empty_report = record {
  removed_worktrees = [];
  deleted_branches = [];
  skipped_dirty = [];
  skipped_unmerged = [];
}

-- More of crates/daemon/src/workspace.rs.
pub record SweepOps (G : Type 0) : Type 0 where
  pub prune_worktrees : G → String → G
  pub list_worktrees : G → String → Result {0, 0} Fault (List WorktreeEntry)
  pub list_branches : G → String → Result {0, 0} Fault (List String)

abbrev pub has_text : String → List String → Bool
has_text t [] = false
has_text t (x ∷ xs) = str_eq x t || has_text t xs

-- The first eight bytes of the sessions' ids.
abbrev pub known_ids : List Session → List String
known_ids [] = []
known_ids (s ∷ ss) = elim (get? s.id 0 8) [
  | none ↦ known_ids ss
  | some start ↦ start ∷ known_ids ss
]

abbrev pub auto_prefix : String
auto_prefix = "asm-session/"

-- What follows the prefix of the branches that the daemon names.
abbrev pub suffix_of : String → Option String
suffix_of b = if starts_with b auto_prefix then some (slice b (len auto_prefix) (len b)) else none

-- A branch that the daemon named, for a session that it does not know.
unfoldable pub is_orphan : List String → String → Bool
is_orphan known b = elim (suffix_of b) [ none ↦ false | some suffix ↦ not (has_text suffix known) ]

abbrev pub is_orphan_tree : List String → WorktreeEntry → Bool
is_orphan_tree known wt = elim (wt.branch) [ none ↦ false | some b ↦ is_orphan known b ]

module _ {G : Type 0} (ops : GitOps G) (sweep : SweepOps G) where
  abbrev pub Swept : Type 0
  Swept = G × WorktreeCleanupReport

  abbrev skip_unmerged : String → Swept → Swept
  skip_unmerged b (g, report) =
      if has_text b report.skipped_unmerged
      then (g, report)
      else (g, record report { skipped_unmerged = report.skipped_unmerged ++ b ∷ [] })

  unfoldable pub delete_orphan_branch : String → String → Bool → Swept → Swept
  delete_orphan_branch root b force (g, report) =
      if force || ops.branch_is_merged g root b
      then (let deleted = ops.delete_branch g root b true in
          if deleted.0
          then (deleted.1, record report { deleted_branches = report.deleted_branches ++ b ∷ [] })
          else (deleted.1, report))
      else skip_unmerged b (g, report)

  abbrev skip_dirty : String → Swept → Swept
  skip_dirty path (g, report) =
      (g, record report { skipped_dirty = report.skipped_dirty ++ path ∷ [] })

  abbrev removed : String → WorktreeCleanupReport → WorktreeCleanupReport
  removed path report = record report { removed_worktrees = report.removed_worktrees ++ path ∷ [] }

  -- An orphaned worktree, and then its branch.
  unfoldable pub sweep_worktree : String → Bool → String → String → Swept → Swept
  sweep_worktree root force path b (g, report) =
      if not force && ops.is_dirty g path
      then skip_dirty path (g, report)
      else let gone = ops.remove_worktree g root path force in
        if gone.0
        then delete_orphan_branch root b force (gone.1, removed path report)
        else skip_dirty path (gone.1, report)

  unfoldable pub sweep_worktrees : String → Bool → List String → List WorktreeEntry → Swept → Swept
  sweep_worktrees root force known [] st = st
  sweep_worktrees root force known (wt ∷ wts) st =
      let swept = sweep_worktree root force wt.path (unwrap_or "" wt.branch) st in
      sweep_worktrees root force known wts (if is_orphan_tree known wt then swept else st)

  unfoldable pub sweep_branches : String → Bool → List String → List String → Swept → Swept
  sweep_branches root force known [] st = st
  sweep_branches root force known (b ∷ bs) st = sweep_branches root force known bs (
      if is_orphan known b && not (has_text b st.1.deleted_branches)
      then delete_orphan_branch root b force st
      else st)

  -- All but the main worktree, which is the first.
  abbrev pub others : List WorktreeEntry → List WorktreeEntry
  others [] = []
  others (main ∷ wts) = wts

  abbrev Cleaned : Type 0
  Cleaned = Result {0, 0} Fault WorktreeCleanupReport × World G

  abbrev pub finish_sweep :
      String → Bool → List String → World G → Swept → Result {0, 0} Fault (List String) → Cleaned
  finish_sweep root force known w st (err fault) = (err fault, record w { git = st.0 })
  finish_sweep root force known w st (ok bs) =
      let swept = sweep_branches root force known bs st in (ok swept.1, record w { git = swept.0 })

  abbrev pub sweep_listed :
      String → Bool → List String → World G → Result {0, 0} Fault (List WorktreeEntry) → Cleaned
  sweep_listed root force known w (err fault) = (err fault, w)
  sweep_listed root force known w (ok wts) =
      let st = sweep_worktrees root force known (others wts) (w.git, empty_report) in
      finish_sweep root force known w st (sweep.list_branches st.0 root)

  abbrev pub sweep_root : Bool → World G → Result {0, 0} Fault String → Cleaned
  sweep_root force w (err fault) = (err fault, w)
  sweep_root force w (ok root) =
      let pruned = record w { git = sweep.prune_worktrees w.git root } in
      sweep_listed root force (known_ids (list_sessions w.manager.db)) pruned
        (sweep.list_worktrees pruned.git root)

  unfoldable pub cleanup_orphan_worktrees : String → Bool → World G → Cleaned
  cleanup_orphan_worktrees id force w = sweep_root force w (git_workspace_root id w.manager)
