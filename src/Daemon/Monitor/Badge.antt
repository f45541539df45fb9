-- ===== src/Daemon/Monitor/Badge.antt =====
-- crates/daemon/src/session_manager/monitor.rs: the badge on record and the monitor's own state.
use agent_workspace.Prelude.{
  ℕ, String, ◌≡◌, refl, sym, ap, ◌∙◌, ◌⊎◌, inl, inr, Bool, true, false, ◌&&◌, Option, none, some,
  List, [], ◌∷◌, arith, ◌==◌, if◌then◌else◌, ==_iff, is_some,
}
use agent_workspace.Daemon.Domain.{
  AttentionState, quiet, activity, idle, likely_blocked, approval_needed, error, aborted,
  needs_user, same_attention, attention_ordinal,
}
use agent_workspace.Daemon.Store.Badges.{
  badge, badge-update_activity, badge-set_attention, badge-clear_attention_for_view,
}
use agent_workspace.Daemon.Monitor.{
  Plugin, Moment, Monitor, Verdict, Event, chunk, silence, typed, viewed, untracked, take_in,
  verdict_on, open_block, spend, must_write, settle, settled_at_idle, judge, record_activity,
  on_output, on_chunk, settle_idle, on_idle, acknowledge, step, run,
}
use agent_workspace.Daemon.Monitor.Blocks.{on_output-tracked}

-- The badge on record is the monitor's state, or has been cleared.
unfoldable pub Agrees : String → Monitor → Type 0
Agrees id m = (badge m.db id ≡ some m.watch.last_attn) ⊎ (badge m.db id ≡ some quiet)

abbrev of_ordinal : ℕ → AttentionState
of_ordinal n =
    if n == 0
    then quiet
    else if n == 1
    then activity
    else if n == 2
    then idle
    else if n == 3
    then likely_blocked
    else if n == 4
    then approval_needed
    else if n == 5
    then error
    else aborted

of_ordinal-attention_ordinal : (a : AttentionState) → of_ordinal (attention_ordinal a) ≡ a
of_ordinal-attention_ordinal quiet = refl
of_ordinal-attention_ordinal activity = refl
of_ordinal-attention_ordinal idle = refl
of_ordinal-attention_ordinal likely_blocked = refl
of_ordinal-attention_ordinal approval_needed = refl
of_ordinal-attention_ordinal error = refl
of_ordinal-attention_ordinal aborted = refl

same_attention_lem : (a b : AttentionState) → same_attention a b ≡ true → a ≡ b
same_attention_lem a b h =
    sym (of_ordinal-attention_ordinal a)
    ∙ ap of_ordinal ((==_iff (attention_ordinal a) (attention_ordinal b)).0 h)
    ∙ of_ordinal-attention_ordinal b

Agrees-judge :
    (id : String) (at : Moment) (v : Verdict) (m : Monitor)
    → Agrees id m
    → Agrees id (judge id at v m)
unfolding Agrees judge must_write
Agrees-judge id at v m a = ground (
  arith,
  badge-update_activity m.db id at.last_seq at.now (settle v.0 m.watch.last_attn) v.1,
  same_attention_lem (settle v.0 m.watch.last_attn) m.watch.last_attn,
)

Agrees-record_activity :
    (id : String) (at : Moment) (m : Monitor) → Agrees id m → Agrees id (record_activity id at m)
unfolding Agrees record_activity
Agrees-record_activity id at m a =
    ground (arith, badge-update_activity m.db id at.last_seq at.now quiet none)

alike :
    (id : String) (m n : Monitor)
    → n.db ≡ m.db
    → n.watch.last_attn ≡ m.watch.last_attn
    → Agrees id m
    → Agrees id n
unfolding Agrees
alike id m n e f a = ground (arith, ap (λ d. badge d id) e, f)

-- After a block was opened, every verdict is written.
Agrees-judge_opened :
    (id : String) (at : Moment) (v : Verdict) (m : Monitor)
    → m.watch.last_attn ≡ quiet
    → is_some (badge m.db id) ≡ true
    → Agrees id (judge id at v m)
unfolding Agrees judge must_write
Agrees-judge_opened id at v m q known =
    ground (arith, badge-update_activity m.db id at.last_seq at.now v.0 v.1)

known : (id : String) (m : Monitor) → Agrees id m → is_some (badge m.db id) ≡ true
unfolding Agrees
known id m a = ground arith

-- The monitor agrees, or has just opened a block.
abbrev IsReady : String → Monitor → Type 0
IsReady id m = Agrees id m ⊎ ((m.watch.last_attn ≡ quiet) × (is_some (badge m.db id) ≡ true))

IsReady-open_block : (id : String) (m : Monitor) → Agrees id m → IsReady id (open_block m)
IsReady-open_block id m a =
    elim (m.sig.reset && needs_user m.watch.last_attn)
      as (λ b.
        IsReady id (if b then record m { watch = record (m.watch) { last_attn = quiet } } else m)) [
          | true ↦ inr (refl, known id m a)
          | false ↦ inl a
        ]

Agrees-on_output :
    (id : String) (plugin : Option Plugin) (at : Moment) (bytes : List ℕ) (m : Monitor)
    → untracked plugin ≡ false
    → IsReady id m
    → Agrees id (on_output id plugin at bytes m)
Agrees-on_output id plugin at bytes m t (inl a) = rw (on_output-tracked id plugin at bytes m t) (
    Agrees-judge id at (verdict_on plugin at bytes m) (take_in plugin at bytes m)
      (alike id m (take_in plugin at bytes m) refl refl a))
Agrees-on_output id plugin at bytes m t (inr q) =
    rw (on_output-tracked id plugin at bytes m t)
      (Agrees-judge_opened id at (verdict_on plugin at bytes m) (take_in plugin at bytes m) q.0 q.1)

Agrees-spend : (id : String) (armed : Bool) (m : Monitor) → Agrees id m → Agrees id (spend armed m)
unfolding Agrees
Agrees-spend id armed m a = ground arith

Agrees-settle_idle :
    (id : String) (at : Moment) (stopped : Option String) (m : Monitor)
    → Agrees id m
    → Agrees id (settle_idle id at stopped m)
unfolding Agrees settle_idle
Agrees-settle_idle id at stopped m a =
    let v = settled_at_idle stopped in ground (arith, badge-set_attention m.db id v.0 v.1 at.now)

Agrees-on_idle :
    (id : String) (plugin : Option Plugin) (at : Moment) (m : Monitor)
    → Agrees id m
    → Agrees id (on_idle id plugin at m)
unfolding on_idle
Agrees-on_idle id none at m a =
    elim (same_attention m.watch.last_attn activity)
      as (λ b. Agrees id (if b then settle_idle id at none m else m)) [
        | true ↦ Agrees-settle_idle id at none m a
        | false ↦ a
      ]
Agrees-on_idle id (some p) at m a =
    let settled = settle_idle id at (p.idle_error at.screen) m in
    elim (same_attention m.watch.last_attn activity)
      as (λ b. Agrees id (if b then (if p.idle_busy at.screen then m else settled) else m)) [
        | true ↦ elim (p.idle_busy at.screen) as (λ b. Agrees id (if b then m else settled)) [
          | true ↦ a
          | false ↦ Agrees-settle_idle id at (p.idle_error at.screen) m a
        ]
        | false ↦ a
      ]

Agrees-step :
    (id : String) (plugin : Option Plugin) (m : Monitor) (e : Event)
    → untracked plugin ≡ false
    → Agrees id m
    → Agrees id (step id plugin m e)
unfolding Agrees step on_chunk acknowledge
Agrees-step id plugin m (chunk at bytes) t a =
    Agrees-spend id m.sig.reset (on_output id plugin at bytes (open_block m))
      (Agrees-on_output id plugin at bytes (open_block m) t (IsReady-open_block id m a))
Agrees-step id plugin m (silence at) t a = Agrees-on_idle id plugin at m a
Agrees-step id plugin m (typed now bytes) t a = a
Agrees-step id plugin m (viewed now) t a =
    ground (arith, badge-clear_attention_for_view m.db id now)

-- For an agent with a badge: if the badge on record is the monitor's own state, or has been
-- cleared, then it is so after any sequence of output, silence, input and views, whatever the
-- plugin answers.
pub Agrees-run :
    (id : String) (plugin : Option Plugin) (m : Monitor) (es : List Event)
    → untracked plugin ≡ false
    → Agrees id m
    → Agrees id (run id plugin m es)
unfolding run
Agrees-run id plugin m [] t a = a
Agrees-run id plugin m (e ∷ es) t a =
    Agrees-run id plugin (step id plugin m e) es t (Agrees-step id plugin m e t a)
