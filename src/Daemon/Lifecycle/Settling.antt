-- ===== src/Daemon/Lifecycle/Settling.antt =====
-- crates/daemon/src/session_manager/mod.rs: after a pass, each session that the store has as live
-- is held by the manager.
use agent_workspace.Prelude.{
  ℕ, String, ◌≡◌, refl, ◌∙◌, inl, inr, Bool, true, false, not, ◌||◌, Option, none, some, arith,
  str_eq, eq_iff, Bool-cases, lookup, lookup-insert, lookup-remove, map_option,
}
use agent_workspace.Daemon.Domain.{
  Session, SessionStatus, starting, running, exited, failed, indeterminate, likely_blocked,
}
use agent_workspace.Daemon.Store.{Db}
use agent_workspace.Daemon.Store.Sessions.{get_session, update_status}
use agent_workspace.Daemon.Store.Badges.{
  status_of, status_of-update_status, status_of-set_attention, get_session-update_status,
  get_session-set_attention,
}
use agent_workspace.Daemon.Manager.{Manager, is_live_id}
use agent_workspace.Daemon.Lifecycle.{Host}
use agent_workspace.Daemon.Lifecycle.Reconcile.{
  HolderEntry, Holder, Pass, advise, reconcile_indeterminate, take_over, adopt_with, adopt_session,
  record_exit, forget, reconcile_one,
}

abbrev shows_live : Option SessionStatus → Bool
shows_live none = false
shows_live (some starting) = true
shows_live (some running) = true
shows_live (some _) = false

-- The manager holds the session, or the store does not have it as live.
unfoldable pub is_settled : String → Manager → Bool
is_settled id m = is_live_id m id || not (shows_live (status_of m.db id))

status_of-advise :
    (shell : Bool) (now : ℕ) (id : String) (db : Db)
    → status_of (advise shell now id db) id ≡ status_of db id
status_of-advise true now id db = refl
status_of-advise false now id db = status_of-set_attention db id likely_blocked _ now

status_of-reconcile_indeterminate :
    (host : Host) (now : ℕ) (id : String) (m : Manager)
    → status_of (reconcile_indeterminate host now id m).db id
      ≡ map_option (λ old. indeterminate) (status_of m.db id)
unfolding reconcile_indeterminate
status_of-reconcile_indeterminate host now id m =
    status_of-advise _ now id (update_status m.db id indeterminate none now)
    ∙ status_of-update_status m.db id indeterminate none now

is_settled-reconcile_indeterminate :
    (host : Host) (now : ℕ) (id : String) (m : Manager)
    → is_settled id (reconcile_indeterminate host now id m) ≡ true
unfolding is_settled
is_settled-reconcile_indeterminate host now id m =
    ground (arith, status_of-reconcile_indeterminate host now id m)

is_settled-take_over :
    (id : String) (handle now : ℕ) (m : Manager) → is_settled id (take_over id handle now m) ≡ true
unfolding is_settled
is_settled-take_over id handle now m =
    ground (arith, lookup-insert id id handle m.live, eq_iff id id)

is_settled-record_exit :
    (now : ℕ) (id : String) (entry : HolderEntry) (m : Manager)
    → is_settled id (record_exit now id entry m) ≡ true
unfolding is_settled
is_settled-record_exit now id entry m = ground (
  arith,
  status_of-update_status m.db id exited (some entry.exit_code) now,
  status_of-update_status m.db id failed none now,
)

is_settled-adopt_with :
    (host : Host) (now : ℕ) (id : String) (answer : Option ℕ) (m : Manager)
    → is_settled id (adopt_with host now id answer m) ≡ true
is_settled-adopt_with host now id none m = is_settled-reconcile_indeterminate host now id m
is_settled-adopt_with host now id (some handle) m = is_settled-take_over id handle now m

is_settled-adopt_session :
    (host : Host) (holder : Holder) (now : ℕ) (id : String) (o : Option Session) (m : Manager)
    → get_session m.db id ≡ o
    → is_settled id (adopt_session host holder now id o m) ≡ true
unfolding is_settled status_of
is_settled-adopt_session host holder now id none m e = ground (arith, e)
is_settled-adopt_session host holder now id (some s) m e =
    is_settled-adopt_with host now id (holder.adopt id s.rows s.cols) m

is_settled_held : (id : String) (m : Manager) → is_live_id m id ≡ true → is_settled id m ≡ true
unfolding is_settled
is_settled_held id m l = ground (arith, l)

-- The id that the pass is at.
pub is_settled-reconcile_one :
    (host : Host) (holder : Holder) (now : ℕ) (id : String) (o : Option HolderEntry) (p : Pass)
    → is_settled id (reconcile_one host holder now id o p).manager ≡ true
is_settled-reconcile_one host holder now id none p =
    is_settled-reconcile_indeterminate host now id _
is_settled-reconcile_one host holder now id (some entry) p = ground (
  arith,
  is_settled_held id p.manager,
  is_settled-adopt_session host holder now id (get_session p.manager.db id) p.manager refl,
  is_settled-record_exit now id entry p.manager,
)

-- Any other id.
module _ (id other : String) (apart : str_eq id other ≡ false) where
  is_settled_same :
      (m n : Manager)
      → lookup other n.live ≡ lookup other m.live
      → get_session n.db other ≡ get_session m.db other
      → is_settled other n ≡ is_settled other m
  unfolding is_settled status_of
  is_settled_same m n l g = ground (arith, l, g)

  other-advise :
      (shell : Bool) (now : ℕ) (db : Db)
      → get_session (advise shell now id db) other ≡ get_session db other
  other-advise true now db = refl
  other-advise false now db = get_session-set_attention db id other apart likely_blocked _ now

  other-reconcile_indeterminate :
      (host : Host) (now : ℕ) (m : Manager)
      → is_settled other (reconcile_indeterminate host now id m) ≡ is_settled other m
  unfolding reconcile_indeterminate
  other-reconcile_indeterminate host now m = is_settled_same m _ refl (
      other-advise _ now (update_status m.db id indeterminate none now)
      ∙ get_session-update_status m.db id other apart indeterminate none now)

  other-adopt_with :
      (host : Host) (now : ℕ) (answer : Option ℕ) (m : Manager)
      → is_settled other (adopt_with host now id answer m) ≡ is_settled other m
  other-adopt_with host now none m = other-reconcile_indeterminate host now m
  other-adopt_with host now (some handle) m =
      is_settled_same m _ (ground (arith, lookup-insert id other handle m.live, apart))
        (get_session-update_status m.db id other apart running none now)

  other-adopt_session :
      (host : Host) (holder : Holder) (now : ℕ) (o : Option Session) (m : Manager)
      → is_settled other (adopt_session host holder now id o m) ≡ is_settled other m
  other-adopt_session host holder now none m = refl
  other-adopt_session host holder now (some s) m =
      other-adopt_with host now (holder.adopt id s.rows s.cols) m

  other-record_exit :
      (now : ℕ) (entry : HolderEntry) (m : Manager)
      → is_settled other (record_exit now id entry m) ≡ is_settled other m
  other-record_exit now entry m = is_settled_same m _ refl (
      ground (
        arith,
        get_session-update_status m.db id other apart exited (some entry.exit_code) now,
        get_session-update_status m.db id other apart failed none now,
      ))

  other-forget : (m : Manager) → is_settled other (forget id m) ≡ is_settled other m
  other-forget m = is_settled_same m _ (ground (arith, lookup-remove id other m.live, apart)) refl

  other-reconcile_one :
      (host : Host) (holder : Holder) (now : ℕ) (o : Option HolderEntry) (p : Pass)
      → is_settled other (reconcile_one host holder now id o p).manager ≡ is_settled other p.manager
  other-reconcile_one host holder now none p =
      other-reconcile_indeterminate host now _ ∙ ground (arith, other-forget p.manager)
  other-reconcile_one host holder now (some entry) p = ground (
    arith,
    other-adopt_session host holder now (get_session p.manager.db id) p.manager,
    other-record_exit now entry p.manager,
  )

-- What is settled stays so.
pub is_settled_kept :
    (host : Host) (holder : Holder) (now : ℕ) (id other : String) (o : Option HolderEntry)
    → (p : Pass) → is_settled other p.manager ≡ true
    → is_settled other (reconcile_one host holder now id o p).manager ≡ true
is_settled_kept host holder now id other o p s = elim (Bool-cases (str_eq id other)) [
  | inl e ↦ rw (← (eq_iff id other).0 e) (is_settled-reconcile_one host holder now id o p)
  | inr e ↦ other-reconcile_one id other e host holder now o p ∙ s
]
