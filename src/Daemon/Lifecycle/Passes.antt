-- ===== src/Daemon/Lifecycle/Passes.antt =====
-- crates/daemon/src/session_manager/mod.rs: whole passes over the sessions that the store has as
-- live.
use agent_workspace.Prelude.{ℕ, String, ◌≡◌, true, List, [], ◌∷◌, lookup, All}
use agent_workspace.Daemon.Store.Sessions.{live_session_ids}
use agent_workspace.Daemon.Lifecycle.{Host}
use agent_workspace.Daemon.Lifecycle.Reconcile.{
  HolderEntry, Holder, Pass, by_id, reconcile_one, reconcile_live_ids, reconcile_from_holder,
}
use agent_workspace.Daemon.Lifecycle.Settling.{
  is_settled, is_settled_kept, is_settled-reconcile_one,
}

module _ (host : Host) (holder : Holder) (now : ℕ) (entries : List HolderEntry) where
  is_settled_after :
      (ids : List String) (other : String) (p : Pass)
      → is_settled other p.manager ≡ true
      → is_settled other (reconcile_live_ids host holder now ids entries p).manager ≡ true
  unfolding reconcile_live_ids
  is_settled_after [] other p s = s
  is_settled_after (id ∷ ids) other p s =
      let o = lookup id (by_id entries []) in
      is_settled_after ids other (reconcile_one host holder now id o p)
        (is_settled_kept host holder now id other o p s)

  is_settled-reconcile_live_ids :
      (ids : List String) (p : Pass)
      → All
          (λ id. is_settled id (reconcile_live_ids host holder now ids entries p).manager ≡ true)
          ids
  unfolding reconcile_live_ids
  is_settled-reconcile_live_ids [] p = tt
  is_settled-reconcile_live_ids (id ∷ ids) p =
      let o = lookup id (by_id entries []) in
      let q = reconcile_one host holder now id o p in
      (
        is_settled_after ids id q (is_settled-reconcile_one host holder now id o p),
        is_settled-reconcile_live_ids ids q,
      )

  -- After a pass, whatever the holder lists and whatever it lets be adopted, each session that the
  -- store had as live when the pass began is held by the manager, or the store no longer has it as
  -- live.
  pub is_settled-reconcile_from_holder :
      (p : Pass)
      → All
          (λ id. is_settled id (reconcile_from_holder host holder now entries p).manager ≡ true)
          (live_session_ids p.manager.db)
  unfolding reconcile_from_holder
  is_settled-reconcile_from_holder p =
      is_settled-reconcile_live_ids (live_session_ids p.manager.db) p
