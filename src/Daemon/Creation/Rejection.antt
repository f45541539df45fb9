-- ===== src/Daemon/Creation/Rejection.antt =====
-- crates/daemon/src/session_manager/mod.rs: a request that is rejected, and one that succeeds.
use agent_workspace.Prelude.{
  ℕ, String, ◌≡◌, refl, ap, ◌∙◌, Bool, true, false, Option, none, some, arith, eq_iff,
  if◌then◌else◌, lookup-insert, is_some, Result, ok, err, ok_or,
}
use agent_workspace.Daemon.Domain.{Session, WorkspaceInstance, running}
use agent_workspace.Daemon.Store.Sessions.{get_session}
use agent_workspace.Daemon.Store.Badges.{status_of, status_of-update_status}
use agent_workspace.Daemon.Manager.{
  Manager, Fault, session_vanished, store_failed, unknown_plugin, is_live_id,
}
use agent_workspace.Daemon.Worktrees.{GitOps, World}
use agent_workspace.Daemon.Worktrees.Branches.{BranchOps}
use agent_workspace.Daemon.Creation.{Site, WorktreeOps, Located, resolve_workspace}
use agent_workspace.Daemon.Creation.Launching.{Launch, CreateRequest, Launcher, precheck, prepare}
use agent_workspace.Daemon.Creation.Sessions.{
  started, spawn_in, create_with, create_in_instance, or_rollback, create_located, create_checked,
  create_session,
}

-- The session that is answered runs, and is the one on record.
abbrev Running : String → Session → Manager → Type 0
Running id s m = (s.status ≡ running) × (get_session m.db id ≡ some s) × (is_live_id m id ≡ true)

status-started :
    (now : ℕ) (id : String) (handle : ℕ) (m : Manager) (s : Session)
    → get_session (started now id handle m).db id ≡ some s
    → s.status ≡ running
unfolding status_of
status-started now id handle m s e =
    ground (arith, e, status_of-update_status m.db id running none now)

Running-started :
    (now : ℕ) (id : String) (handle : ℕ) (m : Manager) (s : Session)
    → get_session (started now id handle m).db id ≡ some s
    → Running id s (started now id handle m)
Running-started now id handle m s e = (
  status-started now id handle m s e,
  e,
  ground (arith, lookup-insert id id handle m.live, eq_iff id id),
)

Running-spawned :
    (now : ℕ) (id : String) (handle : ℕ) (m : Manager) (s : Session) (o : Option Session)
    → get_session (started now id handle m).db id ≡ o
    → ok_or session_vanished o ≡ ok s
    → Running id s (started now id handle m)
Running-spawned now id handle m s none g e = ground (arith, e)
Running-spawned now id handle m s (some found) g e =
    let same : found ≡ s = ground (arith, e) in Running-started now id handle m s (g ∙ ap some same)

Running-spawn_in :
    (l : Launcher) (now : ℕ) (id : String) (o : Option ℕ) (m : Manager) (s : Session)
    → (spawn_in l now id o m).0 ≡ ok s
    → Running id s (spawn_in l now id o m).1
Running-spawn_in l now id none m s e = ground (arith, e)
Running-spawn_in l now id (some handle) m s e =
    Running-spawned now id handle m s (get_session (started now id handle m).db id) refl e

either_way :
    (b : Bool) (id : String) (s : Session) (r : Result {0, 0} Fault Session × Manager)
    → (fault : Fault) (m : Manager) → (r.0 ≡ ok s → Running id s r.1)
    → (if b then r else (err fault, m)).0 ≡ ok s
    → Running id s (if b then r else (err fault, m)).1
either_way true id s r fault m h e = h e
either_way false id s r fault m h e = ground (arith, e)

Running-create_with :
    (l : Launcher) (site : Site) (req : CreateRequest) (id : String) (located : Located)
    → (r : Result {0, 0} Fault Launch) (m : Manager) (s : Session)
    → (create_with l site req id located r m).0 ≡ ok s
    → Running id s (create_with l site req id located r m).1
Running-create_with l site req id located (err fault) m s e = ground (arith, e)
Running-create_with l site req id located (ok launch) m s e =
    either_way _ id s _ store_failed _ (Running-spawn_in l site.now id (l.handle launch) _ s) e

module _ {G : Type 0} (ops : GitOps G) (branches : BranchOps G) (trees : WorktreeOps G) where
  Running-or_rollback :
      (site : Site) (instance : Option WorkspaceInstance) (g : G) (id : String) (s : Session)
      → (r : Result {0, 0} Fault Session × Manager) → (r.0 ≡ ok s → Running id s r.1)
      → (or_rollback ops branches trees site instance g r).0 ≡ ok s
      → Running id s (or_rollback ops branches trees site instance g r).1.manager
  Running-or_rollback site instance g id s (ok t, m) h e = h e
  Running-or_rollback site instance g id s (err fault, m) h e = ground (arith, e)

  Running-create_located :
      (l : Launcher) (site : Site) (req : CreateRequest) (id : String) (checked : Option Launch)
      → (w : World G) (r : Result {0, 0} Fault Located × G) (s : Session)
      → (create_located ops branches trees l site req id checked w r).0 ≡ ok s
      → Running id s (create_located ops branches trees l site req id checked w r).1.manager
  unfolding create_in_instance
  Running-create_located l site req id checked w (err fault, g) s e = ground (arith, e)
  Running-create_located l site req id checked w (ok located, g) s e =
      Running-or_rollback site located.1 g id s
        (create_in_instance l site req id checked located w.manager)
        (Running-create_with l site req id located (prepare l site req checked located.0 located.1)
          w.manager s)
        e

  Running-create_checked :
      (l : Launcher) (site : Site) (req : CreateRequest) (id : String) (w : World G)
      → (r : Result {0, 0} Fault (Option Launch)) (s : Session)
      → (create_checked ops branches trees l site req id w r).0 ≡ ok s
      → Running id s (create_checked ops branches trees l site req id w r).1.manager
  Running-create_checked l site req id w (err fault) s e = ground (arith, e)
  Running-create_checked l site req id w (ok checked) s e =
      Running-create_located l site req id checked w
        (resolve_workspace branches trees site w.manager.db id req.place w.git) s e

  -- Where a creation succeeds, the session that is answered is running, it is the one on record,
  -- and it is live.
  pub create_session-ok :
      (l : Launcher) (site : Site) (req : CreateRequest) (id : String) (w : World G) (s : Session)
      → (create_session ops branches trees l site req id w).0 ≡ ok s
      → let end = (create_session ops branches trees l site req id w).1.manager in
        (s.status ≡ running) × (get_session end.db id ≡ some s) × (is_live_id end id ≡ true)
  unfolding create_session
  create_session-ok l site req id w s e =
      elim (is_some l.plugin)
          as (λ b.
            (if b
                then create_checked ops branches trees l site req id w (precheck l req)
                else (err unknown_plugin, w)).0
              ≡ ok s
            → Running id s
                (if b
                  then create_checked ops branches trees l site req id w (precheck l req)
                  else (err unknown_plugin, w)).1.manager) [
                    | true ↦ Running-create_checked l site req id w (precheck l req) s
                    | false ↦ (λ h. ground (arith, h))
                  ]
        e

  pub create_session-rejected :
      (l : Launcher) (site : Site) (req : CreateRequest) (id : String) (w : World G)
      → (launch : Launch) → req.fork ≡ none
      → l.build_launch ≡ ok launch
      → launch.requires_approval ≡ true
      → req.approve_custom ≡ false
      → (create_session ops branches trees l site req id w).1 ≡ w
  unfolding create_session
  create_session-rejected l site req id w launch f b r a = ground (arith, f, b, r, a)
