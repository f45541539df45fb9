-- ===== src/Daemon/Creation.antt =====
-- crates/daemon/src/session_manager/workspaces.rs and mod.rs: where a new session runs. The clock,
-- fresh ids, the file system and the names that are cut or joined are arguments.
pub mod Launching
pub mod Sessions
pub mod Borrowing
pub mod Joining
pub mod Rejection
mod Tests
use agent_workspace.Prelude.{
  ℕ, String, Bool, true, false, not, ◌&&◌, ◌||◌, Option, none, some, List, [], ◌∷◌, str_eq,
  if◌then◌else◌, unwrap_or, is_some, Result, ok, err,
}
use agent_workspace.Daemon.Domain.{
  Workspace, WorkspaceInstance, Isolation, worktree, shared, direct, plain,
}
use agent_workspace.Daemon.Store.{Db}
use agent_workspace.Daemon.Store.Query.{exists}
use agent_workspace.Daemon.Store.Instances.{
  get_workspace, list_workspaces, instance_ownership_at_path,
}
use agent_workspace.Daemon.Manager.{
  Fault, no_such_workspace, no_root, no_cwd, outside_roots, git_failed,
}
use agent_workspace.Daemon.Worktrees.Branches.{BranchOps}

pub data BranchSpec : Type 0 where
  new_branch : String → String → BranchSpec
  existing : String → BranchSpec
  auto : String → String → BranchSpec

-- The parts of a request that choose the place.
pub record Place : Type 0 where
  pub workspace_id : Option String
  pub cwd : String
  pub direct_checkout : Bool
  pub create_branch : Bool
  pub branch : Option String
  pub base_ref : Option String

-- `instance_path` and `auto_name` are the session's own; `is_within` is said of canonical paths.
pub record Site : Type 0 where
  pub now : ℕ
  pub new_uuid : String
  pub instance_path : String
  pub auto_name : String
  pub trim : String → String
  pub is_dir : String → Bool
  pub exists_path : String → Bool
  pub is_within : String → String → Bool
  pub canonical : String → String

-- The new worktree's branch, if it is on one; a failure too may have changed the repository.
pub record WorktreeOps (G : Type 0) : Type 0 where
  pub create_worktree : G → String → String → BranchSpec → Option (Option String) × G
  pub is_git_repo : G → String → Bool

-- `map(trim).filter(|b| !b.is_empty())`
abbrev pub trimmed : Site → Option String → Option String
trimmed site none = none
trimmed site (some b) = if str_eq (site.trim b) "" then none else some (site.trim b)

-- Path, branch, isolation, and whether the worktree and the branch are the daemon's.
abbrev pub instance_at :
    Site → String → String → String → Option String → Isolation → Bool × Bool → WorkspaceInstance
instance_at site session_id ws_id path branch isolation owns = record {
  id = site.new_uuid;
  workspace_id = ws_id;
  session_id = some session_id;
  path = path;
  branch = branch;
  isolation = isolation;
  is_active = true;
  created_at = site.now;
  owns_worktree = owns.0;
  owns_branch = owns.1;
}

abbrev pub Located : Type 0
Located = String × Option WorkspaceInstance

-- The checkout that has the branch is shared, with the ownership on record for its path.
abbrev share : Site → Db → String → Workspace → String → String × Bool → Located
share site db session_id ws name (existing_path, is_main) =
    let path = if is_main then ws.root_path else existing_path in
    let owns = unwrap_or (false, false) (instance_ownership_at_path db path) in
    (
      path,
      some (
          instance_at site session_id ws.id path (if is_main then none else some name)
            (if is_main then direct else shared) owns),
    )

abbrev base_of : Site → Place → String
base_of site req = unwrap_or "HEAD" (trimmed site req.base_ref)

abbrev spec_of : Site → Place → Option String → BranchSpec
spec_of site req none = auto site.auto_name (base_of site req)
spec_of site req (some name) =
    if req.create_branch then new_branch name (base_of site req) else existing name

abbrev creates_branch : BranchSpec → Bool
creates_branch (existing name) = false
creates_branch _ = true

module _ {G : Type 0} (branches : BranchOps G) (trees : WorktreeOps G) where
  unfoldable pub make_worktree :
      Site → String → Workspace → BranchSpec → G → Result {0, 0} Fault Located × G
  make_worktree site session_id ws spec g =
      let made = trees.create_worktree g ws.root_path site.instance_path spec in
      (
        elim (made.0) [
          | none ↦ err git_failed
          | some branch ↦ ok (
            site.instance_path,
            some (
                instance_at site session_id ws.id site.instance_path branch worktree
                  (true, creates_branch spec && is_some branch)),
          )
        ],
        made.1,
      )

  -- The checkout of a branch that is asked for and not to be created.
  abbrev checkout_of :
      Workspace → Bool → Option String → G → Result {0, 0} Fault (Option (String × String × Bool))
  checkout_of ws create none g = ok none
  checkout_of ws true (some name) g = ok none
  checkout_of ws false (some name) g = elim (branches.worktree_for_branch g ws.root_path name) [
    | err fault ↦ err fault
    | ok none ↦ ok none
    | ok (some (path, is_main)) ↦ ok (some (name, path, is_main))
  ]

  unfoldable pub resolve_isolated :
      Site → Db → String → Workspace → Place → G → Result {0, 0} Fault Located × G
  resolve_isolated site db session_id ws req g =
      let requested = trimmed site req.branch in
      elim (checkout_of ws req.create_branch requested g) [
        | err fault ↦ (err fault, g)
        | ok (some (name, path, is_main)) ↦
            (ok (share site db session_id ws name (path, is_main)), g)
        | ok none ↦ make_worktree site session_id ws (spec_of site req requested) g
      ]

  abbrev pub resolve_in :
      Site → Db → String → Place → G → Option Workspace → Result {0, 0} Fault Located × G
  resolve_in site db session_id req g none = (err no_such_workspace, g)
  resolve_in site db session_id req g (some ws) =
      if not (site.is_dir ws.root_path)
      then (err no_root, g)
      else if ws.is_git && not req.direct_checkout
      then resolve_isolated site db session_id ws req g
      else (
        ok (
          ws.root_path,
          some (
              instance_at site session_id ws.id ws.root_path none
                (if ws.is_git then direct else plain) (false, false)),
        ),
        g,
      )

  -- Any path, until a workspace is registered.
  abbrev resolve_raw : Site → Db → Place → Result {0, 0} Fault Located
  resolve_raw site db req =
      if str_eq (site.trim req.cwd) ""
      then err no_cwd
      else if is_empty (list_workspaces db)
          || exists (λ ws. site.is_within req.cwd ws.root_path) (list_workspaces db)
      then ok (req.cwd, none)
      else err outside_roots
    where
      is_empty : List Workspace → Bool
      is_empty [] = true
      is_empty (ws ∷ wss) = false

  unfoldable pub resolve_workspace :
      Site → Db → String → Place → G → Result {0, 0} Fault Located × G
  resolve_workspace site db session_id req g = elim (req.workspace_id) [
    | none ↦ (resolve_raw site db req, g)
    | some ws_id ↦ resolve_in site db session_id req g (get_workspace db ws_id)
  ]
