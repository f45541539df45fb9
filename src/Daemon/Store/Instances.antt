-- ===== src/Daemon/Store/Instances.antt =====
-- crates/daemon/src/db.rs: the tables of workspaces and of their instances.
use agent_workspace.Prelude.{
  ℕ, String, Bool, false, not, ◌&&◌, Option, none, some, List, [], ◌∷◌, ◌++◌, str_eq, ltb,
  if◌then◌else◌, length, map_option,
}
use agent_workspace.Daemon.Domain.{Workspace, WorkspaceInstance}
use agent_workspace.Daemon.Store.{Db}
use agent_workspace.Daemon.Store.Query.{select, exists, first, update, order_by, top}

abbrev is_workspace : String → Workspace → Bool
is_workspace id w = str_eq w.id id

-- A workspace's id is the primary key.
unfoldable pub insert_workspace : Db → Workspace → Option Db
insert_workspace db w =
    if exists (is_workspace w.id) db.workspaces
    then none
    else some (record db { workspaces = db.workspaces ++ w ∷ [] })

unfoldable pub list_workspaces : Db → List Workspace
list_workspaces db = order_by (λ a b. ltb b.created_at a.created_at) db.workspaces

unfoldable pub get_workspace : Db → String → Option Workspace
get_workspace db id = first (is_workspace id) db.workspaces

unfoldable pub delete_workspace : Db → String → Bool × Db
delete_workspace db id = (
  exists (is_workspace id) db.workspaces,
  record db { workspaces = select (λ w. not (is_workspace id w)) db.workspaces },
)

unfoldable set_workspace_git : Db → String → Bool → Db
set_workspace_git db id is_git = record db {
  workspaces = update (is_workspace id) (λ w. record w { is_git = is_git }) db.workspaces;
}

abbrev is_instance : String → WorkspaceInstance → Bool
is_instance id i = str_eq i.id id

abbrev is_newer : WorkspaceInstance → WorkspaceInstance → Bool
is_newer a b = ltb b.created_at a.created_at

unfoldable pub insert_instance : Db → WorkspaceInstance → Option Db
insert_instance db i =
    if exists (is_instance i.id) db.instances
    then none
    else some (record db { instances = db.instances ++ i ∷ [] })

abbrev of_session : String → WorkspaceInstance → Bool
of_session id i = elim (i.session_id) [ none ↦ false | some held ↦ str_eq held id ]

unfoldable pub get_instance_for_session : Db → String → Option WorkspaceInstance
get_instance_for_session db id = top is_newer (select (of_session id) db.instances)

unfoldable pub list_active_instances_for_workspace : Db → String → List WorkspaceInstance
list_active_instances_for_workspace db id =
    order_by is_newer (select (λ i. str_eq i.workspace_id id && i.is_active) db.instances)

-- Whether the daemon made the worktree, and the branch, of the newest instance at the path.
unfoldable pub instance_ownership_at_path : Db → String → Option (Bool × Bool)
instance_ownership_at_path db path =
    map_option {B = Bool × Bool} (λ i. (i.owns_worktree, i.owns_branch))
      (top is_newer (select (λ i. str_eq i.path path) db.instances))

-- The source passes the text `released`, which is `false` here.
unfoldable pub set_instance_status : Db → String → Bool → Db
set_instance_status db id is_active = record db {
  instances = update (is_instance id) (λ i. record i { is_active = is_active }) db.instances;
}

abbrev shares_path : String → String → WorkspaceInstance → Bool
shares_path path exclude_id i =
    str_eq i.path path && (i.is_active && not (is_instance exclude_id i))

unfoldable pub count_active_instances_at_path : Db → String → String → ℕ
count_active_instances_at_path db path exclude_id =
    length (select (shares_path path exclude_id) db.instances)
