-- ===== src/Daemon/Lifecycle.antt =====
-- crates/daemon/src/session_manager/mod.rs and monitor.rs: the ends of a session. One reading of
-- the clock is an argument of each operation, and the plugins are a map from their ids.
pub mod Reconcile
pub mod Stopping
pub mod Settling
pub mod Passes
pub mod Capture
pub mod Deck
pub mod Choosing
mod Tests
use agent_workspace.Prelude.{
  ℕ, zero, ◌-◌, String, Bool, true, false, not, ◌&&◌, Option, none, some, List, [], ◌∷◌,
  if◌then◌else◌, length, Assoc, remove, adjust, Result, ok, err, ok_or, ℤ, pos, join_text,
}
use agent_workspace.Daemon.Domain.{
  Session, SessionSummary, SessionStatus, exited, failed, stopped, archived, status_as_str,
  is_terminal, is_busy, AttentionState, quiet, aborted,
}
use agent_workspace.Daemon.Store.{Db}
use agent_workspace.Daemon.Store.Sessions.{
  get_session, update_status, set_attention, set_size, insert_summary, clear_attention_for_view,
}
use agent_workspace.Daemon.Monitor.{Plugin, untracked, interact}
use agent_workspace.Daemon.Manager.{
  Manager, Fault, Outcome, no_such_session, session_vanished, session_busy, stop_failed, not_live,
  is_live_id,
}

pub data BackendStatus : Type 0 where
  still_running : BackendStatus
  exited_with : ℤ → BackendStatus
  failed_with : String → BackendStatus

-- What an exit writes.
pub record Ending : Type 0 where
  pub status : SessionStatus
  pub exit_code : Option ℤ
  pub attention : AttentionState
  pub reason : Option String
  pub label : String

-- What the surroundings give: the plugins, the text of a number, and a fresh id.
pub record Host : Type 0 where
  pub plugins : Assoc Plugin
  pub show_int : ℤ → String
  pub new_uuid : String

-- `none` for a backend that still runs.
unfoldable pub ending_of : Host → BackendStatus → Option Ending
ending_of host still_running = none
ending_of host (exited_with (pos zero)) = some (record {
  status = exited;
  exit_code = some (pos 0);
  attention = quiet;
  reason = none;
  label = "exited(0)";
})
ending_of host (exited_with code) = some (record {
  status = exited;
  exit_code = some code;
  attention = aborted;
  reason = some (join_text "exited with code " (host.show_int code));
  label = join_text (join_text "exited(" (host.show_int code)) ")";
})
ending_of host (failed_with msg) = some (record {
  status = failed;
  exit_code = none;
  attention = aborted;
  reason = some msg;
  label = join_text "failed: " msg;
})

-- A stop or an archive that is on record is not a failure.
abbrev pub by_user : SessionStatus → Ending
by_user status = record {
  status = status;
  exit_code = none;
  attention = quiet;
  reason = none;
  label = status_as_str status;
}

unfoldable pub respect_user : Option Session → Ending → Ending
respect_user none e = e
respect_user (some s) e = elim (s.status) [
  | stopped ↦ by_user stopped
  | archived ↦ by_user archived
  | _ ↦ e
]

-- A shell has no badge.
abbrev pub without_badge : Option Plugin → Ending → Ending
without_badge plugin e =
    if untracked plugin then record e { attention = quiet; reason = none } else e

abbrev agent_of : Option Session → String
agent_of none = ""
agent_of (some s) = s.agent_plugin_id

abbrev summary_of : Host → String → Option Session → ℕ → ℕ → ℕ → String → SessionSummary
summary_of host id existing started_at now last_seq label = record {
  id = host.new_uuid;
  session_id = id;
  agent_plugin_id = agent_of existing;
  started_at = started_at;
  ended_at = now;
  duration_ms = now - started_at;
  exit_status = label;
  terminal_event_start = 1;
  terminal_event_end = last_seq;
}

abbrev pub write_ending : String → ℕ → Ending → Db → Db
write_ending id now e db =
    set_attention (update_status db id e.status e.exit_code now) id e.attention e.reason now

-- The start of the session, and the backend's last sequence number, come after the plugin.
abbrev pub finalize : Host → String → Option Plugin → ℕ → ℕ → ℕ → Manager → Ending → Manager
finalize host id plugin started_at last_seq now m ending =
    let existing = get_session m.db id in
    let e = without_badge plugin (respect_user existing ending) in
    record m {
      db =
          insert_summary (write_ending id now e m.db)
            (summary_of host id existing started_at now last_seq e.label);
      live = remove id m.live;
    }

unfoldable pub on_exit :
    Host → String → Option Plugin → ℕ → ℕ → ℕ → BackendStatus → Manager → Manager
on_exit host id plugin started_at last_seq now status m = elim (ending_of host status) [
  | none ↦ m
  | some ending ↦ finalize host id plugin started_at last_seq now m ending
]

abbrev refuses_stop : Option Session → Bool
refuses_stop none = false
refuses_stop (some s) = not (is_terminal s.status) && is_busy s.attention_state

abbrev reread : String → Manager → Result Fault Session × Manager
reread id m = (ok_or session_vanished (get_session m.db id), m)

abbrev pub record_stopped : String → ℕ → Manager → Manager
record_stopped id now m = record m { db = update_status m.db id stopped none now }

-- Whether the backend takes the stop is an argument.
unfoldable pub stop_session : Bool → ℕ → String → Bool → Manager → Result Fault Session × Manager
stop_session stops now id force m =
    if not force && refuses_stop (get_session m.db id)
    then (err session_busy, m)
    else if is_live_id m id
    then if stops
      then reread id (record_stopped id now m)
      else (err stop_failed, record_stopped id now m)
    else elim (get_session m.db id) [
      | none ↦ (err no_such_session, m)
      | some s ↦ if is_terminal s.status then (ok s, m) else reread id (record_stopped id now m)
    ]

abbrev record_all_stopped : ℕ → Assoc ℕ → Manager → Manager
record_all_stopped now [] m = m
record_all_stopped now ((id, h) ∷ handles) m =
    record_all_stopped now handles (record_stopped id now m)

-- The sessions of a holder that outlives the daemon are left alone. The number of those stopped.
unfoldable shutdown_all_live : Bool → ℕ → Manager → ℕ × Manager
shutdown_all_live keeps now m =
    let drained = record m { live = [] } in
    if keeps then (0, drained) else (length m.live, record_all_stopped now m.live drained)

unfoldable resize_session : Bool → ℕ → String → ℕ → ℕ → Manager → Outcome × Manager
resize_session resizes now id rows cols m =
    if is_live_id m id
    then if resizes
      then (ok tt, record m { db = set_size m.db id rows cols now })
      else (err stop_failed, m)
    else (err not_live, m)

unfoldable pub signal_attn_reset : String → Manager → Manager
signal_attn_reset id m = record m {
  interactions = adjust id (λ sig. record sig { reset = true }) m.interactions;
}

unfoldable pub acknowledge_attention : ℕ → String → Manager → Result Fault Session × Manager
acknowledge_attention now id m =
    let cleared = record m { db = clear_attention_for_view m.db id now } in
    let signalled = signal_attn_reset id cleared in
    (ok_or no_such_session (get_session signalled.db id), signalled)

unfoldable pub note_interaction : ℕ → String → List ℕ → Manager → Manager
note_interaction now id data_in m = record m {
  interactions = adjust id (interact now data_in) m.interactions;
}
