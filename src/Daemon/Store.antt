-- ===== src/Daemon/Store.antt =====
-- crates/daemon/src/db.rs: the tables that the daemon keeps. A statement is taken to succeed,
-- except for an insert with a key that is in use; the terminal events, and the file that holds
-- the tables, are not part of this state.
pub mod Query
pub mod Sessions
pub mod Badges
pub mod Clock
pub mod Conversations
pub mod Instances
pub mod Devices
mod Tests
use agent_workspace.Prelude.{ℕ, String, Option, List, Assoc}
use agent_workspace.Daemon.Domain.{Session, SessionSummary, Workspace, WorkspaceInstance, Device}

-- A session's row. `state_kind` is the pair of states that `state_since` dates.
pub record Row : Type 0 where
  pub session : Session
  pub state_kind : String
  pub backend_cursor : ℕ

-- `identity` is the server's id and its enrollment token, once they are written.
pub record Db : Type 0 where
  pub sessions : List Row
  pub titles : Assoc String
  pub summaries : List SessionSummary
  pub workspaces : List Workspace
  pub instances : List WorkspaceInstance
  pub devices : List Device
  pub identity : Option (String × String)
