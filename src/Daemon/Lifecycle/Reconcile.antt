-- ===== src/Daemon/Lifecycle/Reconcile.antt =====
-- crates/daemon/src/session_manager/mod.rs: the sessions that the store has as live, compared with
-- those that the holder still runs. The holder's answers are arguments, and the streams that the
-- manager has the backend end are listed in order.
use agent_workspace.Prelude.{
  ℕ, zero, ◌+◌, String, Bool, true, false, not, ◌&&◌, Option, none, some, List, [], ◌∷◌, ◌++◌,
  str_eq, ltb, if◌then◌else◌, Assoc, lookup, insert, remove, ℤ, pos,
}
use agent_workspace.Daemon.Domain.{Session, running, exited, failed, indeterminate, likely_blocked}
use agent_workspace.Daemon.Store.{Db}
use agent_workspace.Daemon.Store.Sessions.{
  get_session, list_sessions, update_status, set_attention, live_session_ids,
  reconcile_orphans_on_startup, replace_agent_session_id,
}
use agent_workspace.Daemon.Monitor.{Plugin, untouched, untracked}
use agent_workspace.Daemon.Manager.{Manager, is_live_id}
use agent_workspace.Daemon.Lifecycle.{Host}

pub record HolderEntry : Type 0 where
  pub id : String
  pub alive : Bool
  pub exit_code : ℤ
  pub exit_signal : ℤ

pub data StreamEnd : Type 0 where
  stream_exited : ℤ → ℤ → StreamEnd
  vanished : StreamEnd

-- The holder's side: its list, if it answers, the handle of an adopted session, if it can be
-- adopted, and whether it outlives the daemon.
pub record Holder : Type 0 where
  pub list : Option (List HolderEntry)
  pub adopt : String → ℕ → ℕ → Option ℕ
  pub keeps : Bool

pub record Pass : Type 0 where
  pub manager : Manager
  pub ended : List (String × StreamEnd)

abbrev plugin_of : Host → Option Session → Option Plugin
plugin_of host none = none
plugin_of host (some s) = lookup s.agent_plugin_id host.plugins

abbrev lost_advice : String
lost_advice =
    "no completion record — the session holder exited while this was running; check the preserved output before assuming it finished"

-- A badge for the agents that have one.
abbrev pub advise : Bool → ℕ → String → Db → Db
advise true now id db = db
advise false now id db = set_attention db id likely_blocked (some lost_advice) now

unfoldable pub reconcile_indeterminate : Host → ℕ → String → Manager → Manager
reconcile_indeterminate host now id m =
    let db = update_status m.db id indeterminate none now in
    record m { db = advise (untracked (plugin_of host (get_session db id))) now id db }

-- The last entry of an id counts.
abbrev pub by_id : List HolderEntry → Assoc HolderEntry → Assoc HolderEntry
by_id [] held = held
by_id (h ∷ hs) held = by_id hs (insert h.id h held)

-- The monitor of an adopted session starts with a signal of its own.
abbrev pub take_over : String → ℕ → ℕ → Manager → Manager
take_over id handle now m = record m {
  live = insert id handle m.live;
  db = update_status m.db id running none now;
  interactions = insert id untouched m.interactions;
}

abbrev pub adopt_with : Host → ℕ → String → Option ℕ → Manager → Manager
adopt_with host now id none m = reconcile_indeterminate host now id m
adopt_with host now id (some handle) m = take_over id handle now m

-- A session whose row has gone is left alone.
abbrev pub adopt_session : Host → Holder → ℕ → String → Option Session → Manager → Manager
adopt_session host holder now id none m = m
adopt_session host holder now id (some s) m =
    adopt_with host now id (holder.adopt id s.rows s.cols) m

abbrev is_zero : ℤ → Bool
is_zero (pos zero) = true
is_zero _ = false

abbrev pub record_exit : ℕ → String → HolderEntry → Manager → Manager
record_exit now id entry m = record m {
  db =
      if is_zero entry.exit_signal
      then update_status m.db id exited (some entry.exit_code) now
      else update_status m.db id failed none now;
}

abbrev pub end_stream : String → StreamEnd → Pass → Pass
end_stream id outcome p = record p { ended = p.ended ++ (id, outcome) ∷ [] }

abbrev on_manager : (Manager → Manager) → Pass → Pass
on_manager f p = record p { manager = f p.manager }

abbrev pub forget : String → Manager → Manager
forget id m = record m { live = remove id m.live }

-- One id of the pass, with what the holder has of it.
abbrev pub reconcile_one : Host → Holder → ℕ → String → Option HolderEntry → Pass → Pass
reconcile_one host holder now id none p =
    on_manager (reconcile_indeterminate host now id)
      (if is_live_id p.manager id then on_manager (forget id) (end_stream id vanished p) else p)
reconcile_one host holder now id (some entry) p =
    if entry.alive
    then if is_live_id p.manager id
      then p
      else on_manager (adopt_session host holder now id (get_session p.manager.db id)) p
    else if is_live_id p.manager id
    then end_stream id (stream_exited entry.exit_code entry.exit_signal) p
    else on_manager (record_exit now id entry) p

unfoldable pub reconcile_live_ids : Host → Holder → ℕ → List String → List HolderEntry → Pass → Pass
reconcile_live_ids host holder now [] entries p = p
reconcile_live_ids host holder now (id ∷ ids) entries p =
    reconcile_live_ids host holder now ids entries
      (reconcile_one host holder now id (lookup id (by_id entries [])) p)

unfoldable pub reconcile_from_holder : Host → Holder → ℕ → List HolderEntry → Pass → Pass
reconcile_from_holder host holder now entries p =
    reconcile_live_ids host holder now (live_session_ids p.manager.db) entries p

unfoldable reconcile_after_reconnect : Host → Holder → ℕ → Pass → Pass
reconcile_after_reconnect host holder now p = elim (holder.list) [
  | none ↦ p
  | some entries ↦ reconcile_from_holder host holder now entries p
]

abbrev all_indeterminate : Host → ℕ → List String → Manager → Manager
all_indeterminate host now [] m = m
all_indeterminate host now (id ∷ ids) m =
    all_indeterminate host now ids (reconcile_indeterminate host now id m)

-- How many sessions have the agent and its conversation.
abbrev bound_to : Session → Session → Bool
bound_to s other = str_eq other.agent_plugin_id s.agent_plugin_id && elim (s.agent_session_id) [
  | none ↦ false
  | some native ↦ elim (other.agent_session_id) [ none ↦ false | some held ↦ str_eq held native ]
]

abbrev count_bound : Session → List Session → ℕ
count_bound s [] = 0
count_bound s (other ∷ others) = (if bound_to s other then 1 else 0) + count_bound s others

-- The plugins' proven replacements are an argument, `none` where there is no plugin.
abbrev repair_each : (Session → Option String) → List Session → List Session → Db → Db
repair_each replacement all [] db = db
repair_each replacement all (s ∷ ss) db = elim (s.agent_session_id) [
  | none ↦ repair_each replacement all ss db
  | some previous ↦
      if ltb (count_bound s all) 2
      then repair_each replacement all ss db
      else elim (replacement s) [
        | none ↦ repair_each replacement all ss db
        | some native ↦
            repair_each replacement all ss (replace_agent_session_id db s.id previous native).1
      ]
]

unfoldable repair_duplicate_native_ids : (Session → Option String) → Manager → Manager
repair_duplicate_native_ids replacement m =
    let sessions = list_sessions m.db in
    record m { db = repair_each replacement sessions sessions m.db }

unfoldable startup_reconcile : Host → Holder → (Session → Option String) → ℕ → Pass → Pass
startup_reconcile host holder replacement now p =
    let q = on_manager (repair_duplicate_native_ids replacement) p in
    if not holder.keeps
    then on_manager (λ m. record m { db = (reconcile_orphans_on_startup m.db now).1 }) q
    else elim (holder.list) [
      | none ↦ on_manager (all_indeterminate host now (live_session_ids q.manager.db)) q
      | some entries ↦ reconcile_from_holder host holder now entries q
    ]
