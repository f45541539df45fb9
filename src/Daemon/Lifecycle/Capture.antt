-- ===== src/Daemon/Lifecycle/Capture.antt =====
-- crates/daemon/src/session_manager/monitor.rs: the capture of the agent's own conversation id. The
-- plugin's search of the transcripts is an argument.
use agent_workspace.Prelude.{
  ℕ, String, Bool, true, false, Option, none, some, if◌then◌else◌, is_some,
}
use agent_workspace.Daemon.Domain.{Session}
use agent_workspace.Daemon.Store.{Db}
use agent_workspace.Daemon.Store.Sessions.{get_session, set_agent_session_id}

-- The directory and the start of the session are searched.
abbrev Finder : Type 0
Finder = String → ℕ → Option String

abbrev capture_from : String → Option String → Db → Bool × Db
capture_from id none db = (false, db)
capture_from id (some native) db = set_agent_session_id db id native

abbrev capture_for : String → Finder → ℕ → Option Session → Db → Bool × Db
capture_for id find started_at none db = (false, db)
capture_for id find started_at (some s) db =
    if is_some s.agent_session_id
    then (true, db)
    else capture_from id (find s.working_directory started_at) db

-- Whether the id is on record, so that it is not asked for again.
unfoldable capture_native_id : String → Option Finder → ℕ → Db → Bool × Db
capture_native_id id none started_at db = (true, db)
capture_native_id id (some find) started_at db =
    capture_for id find started_at (get_session db id) db
