-- ===== src/Daemon/Lifecycle/Stopping.antt =====
-- crates/daemon/src/session_manager/mod.rs and monitor.rs: a stop, and the exit that follows it.
use agent_workspace.Prelude.{
  ℕ, String, ◌≡◌, ap, ◌∙◌, ◌⊎◌, Bool, true, false, Option, none, some, arith, eq_iff, lookup-remove,
  map_option, err,
}
use agent_workspace.Daemon.Domain.{Session, stopped, is_terminal, is_busy, quiet}
use agent_workspace.Daemon.Store.{Db}
use agent_workspace.Daemon.Store.Sessions.{get_session, update_status, insert_summary}
use agent_workspace.Daemon.Store.Badges.{
  badge, status_of, exit_code_of, badge-update_status, badge-set_attention, status_of-update_status,
  status_of-set_attention, exit_code_of-update_status, exit_code_of-set_attention,
}
use agent_workspace.Daemon.Monitor.{Plugin}
use agent_workspace.Daemon.Manager.{Manager, session_busy, is_live_id}
use agent_workspace.Daemon.Lifecycle.{
  BackendStatus, Ending, Host, ending_of, respect_user, without_badge, by_user, write_ending,
  finalize, on_exit, stop_session, record_stopped,
}

stop_session-busy :
    (stops : Bool) (now : ℕ) (id : String) (m : Manager) (s : Session)
    → get_session m.db id ≡ some s
    → is_terminal s.status ≡ false
    → is_busy s.attention_state ≡ true
    → stop_session stops now id false m ≡ (err session_busy, m)
unfolding stop_session
stop_session-busy stops now id m s e t b = ground (arith, e)

-- What the store holds of the session after its ending is written.
module _ (id : String) (now : ℕ) (e : Ending) (db : Db) where
  status_of-write_ending :
      status_of (write_ending id now e db) id ≡ map_option (λ old. e.status) (status_of db id)
  status_of-write_ending =
      status_of-set_attention (update_status db id e.status e.exit_code now) id e.attention e.reason
        now
      ∙ status_of-update_status db id e.status e.exit_code now

  exit_code_of-write_ending :
      exit_code_of (write_ending id now e db) id
      ≡ map_option (λ old. e.exit_code) (exit_code_of db id)
  exit_code_of-write_ending =
      exit_code_of-set_attention (update_status db id e.status e.exit_code now) id e.attention
        e.reason now
      ∙ exit_code_of-update_status db id e.status e.exit_code now

  badge-write_ending :
      badge (write_ending id now e db) id ≡ map_option (λ old. e.attention) (badge db id)
  badge-write_ending =
      badge-set_attention (update_status db id e.status e.exit_code now) id e.attention e.reason now
      ∙ ap (map_option (λ old. e.attention)) (badge-update_status db id e.status e.exit_code now)

-- A stop that goes through leaves the session's row `stopped`.
stop_session-live :
    (stops : Bool) (now : ℕ) (id : String) (force : Bool) (m : Manager) (s : Session)
    → get_session m.db id ≡ some s
    → is_live_id m id ≡ true
    → (force ≡ true) ⊎ (is_busy s.attention_state ≡ false)
    → (stop_session stops now id force m).1 ≡ record_stopped id now m
unfolding stop_session
stop_session-live stops now id force m s e l f = ground (arith, e)

status_of-record_stopped :
    (id : String) (now : ℕ) (m : Manager) (s : Session)
    → get_session m.db id ≡ some s
    → status_of (record_stopped id now m).db id ≡ some stopped
unfolding status_of
status_of-record_stopped id now m s e =
    status_of-update_status m.db id stopped none now
    ∙ ap (λ o. map_option (λ old. stopped) (map_option (λ x. x.status) o)) e

respect_user-stopped :
    (plugin : Option Plugin) (db : Db) (id : String) (e : Ending)
    → status_of db id ≡ some stopped
    → without_badge plugin (respect_user (get_session db id) e) ≡ by_user stopped
unfolding status_of respect_user
respect_user-stopped plugin db id e h = ground arith

-- The row as the ending leaves it.
abbrev Left : Manager → String → Ending → Manager → Type 0
Left before id final end =
    (status_of end.db id ≡ map_option (λ old. final.status) (status_of before.db id))
    × (exit_code_of end.db id ≡ map_option (λ old. final.exit_code) (exit_code_of before.db id))
    × (badge end.db id ≡ map_option (λ old. final.attention) (badge before.db id))
    × (is_live_id end id ≡ false)

Left-finalize :
    (host : Host) (id : String) (plugin : Option Plugin) (started_at last_seq now : ℕ)
    → (m : Manager) (e : Ending)
    → Left m id
        (without_badge plugin (respect_user (get_session m.db id) e))
        (finalize host id plugin started_at last_seq now m e)
unfolding status_of exit_code_of badge insert_summary get_session
Left-finalize host id plugin started_at last_seq now m e =
    let final = without_badge plugin (respect_user (get_session m.db id) e) in
    (
      status_of-write_ending id now final m.db,
      exit_code_of-write_ending id now final m.db,
      badge-write_ending id now final m.db,
      ground (arith, lookup-remove id id m.live, eq_iff id id),
    )

on_exit-ended :
    (host : Host) (id : String) (plugin : Option Plugin) (started_at last_seq now : ℕ)
    → (status : BackendStatus) (m : Manager) (e : Ending) → ending_of host status ≡ some e
    → on_exit host id plugin started_at last_seq now status m
      ≡ finalize host id plugin started_at last_seq now m e
unfolding on_exit
on_exit-ended host id plugin started_at last_seq now status m e h = ground (arith, h)

exit_code_of-held :
    (id : String) (now : ℕ) (m : Manager) (s : Session)
    → get_session m.db id ≡ some s
    → exit_code_of (record_stopped id now m).db id ≡ some none
unfolding exit_code_of
exit_code_of-held id now m s e =
    exit_code_of-update_status m.db id stopped none now
    ∙ ap (λ o. map_option (λ old. none) (map_option (λ x. x.exit_code) o)) e

badge-held :
    (id : String) (now : ℕ) (m : Manager) (s : Session)
    → get_session m.db id ≡ some s
    → badge (record_stopped id now m).db id ≡ some s.attention_state
unfolding badge
badge-held id now m s e =
    badge-update_status m.db id stopped none now ∙ ap (map_option (λ x. x.attention_state)) e

-- For a session that is on record and live, stopped by force or while it is not busy: however its
-- backend then ends, and whether or not the backend took the stop, the record is `stopped`, with no
-- exit code and no attention, and the session is live no more.
pub on_exit-stop_session :
    (host : Host) (id : String) (plugin : Option Plugin) (started_at last_seq stop_at now : ℕ)
    → (status : BackendStatus) (e : Ending) (stops force : Bool) (m : Manager) (s : Session)
    → get_session m.db id ≡ some s
    → is_live_id m id ≡ true
    → (force ≡ true) ⊎ (is_busy s.attention_state ≡ false)
    → ending_of host status ≡ some e
    → let stopping = (stop_session stops stop_at id force m).1 in
      let end = on_exit host id plugin started_at last_seq now status stopping in
      (status_of end.db id ≡ some stopped)
      × (exit_code_of end.db id ≡ some none)
      × (badge end.db id ≡ some quiet)
      × (is_live_id end id ≡ false)
on_exit-stop_session host id plugin started_at last_seq stop_at now status e stops force m s g l f
      h =
    let sm = record_stopped id stop_at m in
    let st = status_of-record_stopped id stop_at m s g in
    let k = respect_user-stopped plugin sm.db id e st in
    let left = Left-finalize host id plugin started_at last_seq now sm e in
    rw
      (
        stop_session-live stops stop_at id force m s g l f,
        on_exit-ended host id plugin started_at last_seq now status sm e h,
      )
      (
        left.0 ∙ (λ i. map_option (λ old. (k i).status) (st i)),
        left.1 ∙ (λ i. map_option (λ old. (k i).exit_code) (exit_code_of-held id stop_at m s g i)),
        left.2 ∙ (λ i. map_option (λ old. (k i).attention) (badge-held id stop_at m s g i)),
        left.3,
      )
