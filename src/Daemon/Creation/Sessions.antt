-- ===== src/Daemon/Creation/Sessions.antt =====
-- crates/daemon/src/session_manager/mod.rs: a session's creation, and what is put back when it
-- fails. The launch lines of the plugins and the backend's answer are arguments.
use agent_workspace.Prelude.{
  ℕ, String, Bool, true, false, not, ◌&&◌, Option, none, some, if◌then◌else◌, insert, is_some,
  Result, ok, err, ok_or,
}
use agent_workspace.Daemon.Domain.{
  Session, Workspace, WorkspaceInstance, worktree, running, failed, aborted,
}
use agent_workspace.Daemon.Store.{Db}
use agent_workspace.Daemon.Store.Sessions.{
  get_session, insert_session, update_status, set_attention,
}
use agent_workspace.Daemon.Store.Instances.{get_workspace, insert_instance, insert_workspace}
use agent_workspace.Daemon.Monitor.{untouched}
use agent_workspace.Daemon.Manager.{
  Manager, Fault, unknown_plugin, store_failed, spawn_failed, session_vanished, no_root,
}
use agent_workspace.Daemon.Worktrees.{GitOps, World, owned_branch, release, drop_branch}
use agent_workspace.Daemon.Worktrees.Branches.{BranchOps}
use agent_workspace.Daemon.Creation.{Site, WorktreeOps, Located, resolve_workspace}
use agent_workspace.Daemon.Creation.Launching.{
  Launch, CreateRequest, Launcher, precheck, prepare, new_session,
}

abbrev insert_place : Option WorkspaceInstance → Db → Option Db
insert_place none db = some db
insert_place (some inst) db = insert_instance db inst

-- The rows of the session and of its instance. The first may stand without the second.
abbrev insert_rows : Session → Option WorkspaceInstance → Db → Bool × Db
insert_rows s instance db = elim (insert_session db s) [
  | none ↦ (false, db)
  | some inserted ↦ elim (insert_place instance inserted) [
    | none ↦ (false, inserted)
    | some d ↦ (true, d)
  ]
]

abbrev tracks : Launcher → Bool
tracks l = elim (l.plugin) [ none ↦ true | some p ↦ p.tracks_attention ]

-- The row stays, as `failed`.
abbrev record_failure : Launcher → ℕ → String → Db → Db
record_failure l now id db =
    let written = update_status db id failed none now in
    if tracks l then set_attention written id aborted (some "backend spawn failed") now else written

abbrev pub started : ℕ → String → ℕ → Manager → Manager
started now id handle m = record m {
  live = insert id handle m.live;
  db = update_status m.db id running none now;
  interactions = insert id untouched m.interactions;
}

abbrev with_db : Db → Manager → Manager
with_db db m = record m { db = db }

abbrev pub spawn_in :
    Launcher → ℕ → String → Option ℕ → Manager → Result {0, 0} Fault Session × Manager
spawn_in l now id none m = (err spawn_failed, with_db (record_failure l now id m.db) m)
spawn_in l now id (some handle) m =
    let up = started now id handle m in (ok_or session_vanished (get_session up.db id), up)

abbrev pub create_with :
    Launcher
    → Site
    → CreateRequest
    → String
    → Located
    → Result {0, 0} Fault Launch
    → Manager
    → Result {0, 0} Fault Session × Manager
create_with l site req id located (err fault) m = (err fault, m)
create_with l site req id located (ok launch) m =
    let rows = insert_rows (new_session l site req id located.0 launch) located.1 m.db in
    let spawned = spawn_in l site.now id (l.handle launch) (with_db rows.1 m) in
    if rows.0 then spawned else (err store_failed, with_db rows.1 m)

unfoldable pub create_in_instance :
    Launcher
    → Site
    → CreateRequest
    → String
    → Option Launch
    → Located
    → Manager
    → Result {0, 0} Fault Session × Manager
create_in_instance l site req id checked located m =
    create_with l site req id located (prepare l site req checked located.0 located.1) m

module _ {G : Type 0} (ops : GitOps G) (branches : BranchOps G) (trees : WorktreeOps G) where
  abbrev is_new : WorkspaceInstance → Bool
  is_new inst = elim (inst.isolation) [ worktree ↦ true | _ ↦ false ]

  abbrev undo_worktree : Site → String → WorkspaceInstance → G → G
  undo_worktree site root inst g =
      if inst.owns_worktree && site.exists_path inst.path
      then (ops.remove_worktree g root inst.path true).1
      else g

  -- The results of its steps are ignored.
  unfoldable pub rollback_new_instance : Site → Option WorkspaceInstance → World G → World G
  rollback_new_instance site none w = w
  rollback_new_instance site (some inst) w =
      if is_new inst
      then elim (get_workspace w.manager.db inst.workspace_id) [
        | none ↦ w
        | some ws ↦
            let g = undo_worktree site ws.root_path inst w.git in
            record {
              git = (drop_branch ops ws.root_path (owned_branch inst) g).1;
              manager = release inst.id w.manager;
            }
      ]
      else w

  abbrev pub or_rollback :
      Site
      → Option WorkspaceInstance
      → G
      → Result {0, 0} Fault Session × Manager
      → Result {0, 0} Fault Session × World G
  or_rollback site instance g (ok s, m) = (ok s, record { git = g; manager = m })
  or_rollback site instance g (err fault, m) =
      (err fault, rollback_new_instance site instance (record { git = g; manager = m }))

  abbrev pub create_located :
      Launcher
      → Site
      → CreateRequest
      → String
      → Option Launch
      → World G
      → Result {0, 0} Fault Located × G
      → Result {0, 0} Fault Session × World G
  create_located l site req id checked w (err fault, g) = (err fault, record w { git = g })
  create_located l site req id checked w (ok located, g) =
      or_rollback site located.1 g (create_in_instance l site req id checked located w.manager)

  abbrev pub create_checked :
      Launcher
      → Site
      → CreateRequest
      → String
      → World G
      → Result {0, 0} Fault (Option Launch)
      → Result {0, 0} Fault Session × World G
  create_checked l site req id w (err fault) = (err fault, w)
  create_checked l site req id w (ok checked) =
      create_located l site req id checked w
        (resolve_workspace branches trees site w.manager.db id req.place w.git)

  unfoldable pub create_session :
      Launcher → Site → CreateRequest → String → World G → Result {0, 0} Fault Session × World G
  create_session l site req id w =
      if is_some l.plugin
      then create_checked l site req id w (precheck l req)
      else (err unknown_plugin, w)

  unfoldable register_workspace :
      Site → String → String → World G → Result {0, 0} Fault Workspace × Manager
  register_workspace site name root_path w =
      let ws : Workspace = record {
        id = site.new_uuid;
        name = name;
        root_path = site.canonical root_path;
        is_git = trees.is_git_repo w.git root_path;
        created_at = site.now;
      } in
      if not (site.is_dir root_path)
      then (err no_root, w.manager)
      else elim (insert_workspace w.manager.db ws) [
        | none ↦ (err store_failed, w.manager)
        | some db ↦ (ok ws, with_db db w.manager)
      ]
