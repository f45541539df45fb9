-- ===== src/Daemon/Store/Clock.antt =====
-- crates/daemon/src/db.rs: the time since when a session is in its state.
use agent_workspace.Prelude.{
  ℕ, String, ◌≡◌, refl, ap, ◌∙◌, Option, none, some, List, [], ◌∷◌, arith, str_eq, eq_iff,
  if◌then◌else◌, map_option, ℤ,
}
use agent_workspace.Daemon.Domain.{SessionStatus, AttentionState, quiet}
use agent_workspace.Daemon.Store.{Row, Db}
use agent_workspace.Daemon.Store.Query.{first, first-update}
use agent_workspace.Daemon.Store.Sessions.{
  kind_of, has_id, on_row, restate, get_session, update_status, update_activity, set_attention,
  clear_attention_for_view, set_size,
}

-- The writes to a session's row that its life makes.
pub data Write : Type 0 where
  status_write : SessionStatus → Option ℤ → ℕ → Write
  activity_write : ℕ → ℕ → AttentionState → Option String → Write
  attention_write : AttentionState → Option String → ℕ → Write
  view_write : ℕ → Write
  size_write : ℕ → ℕ → ℕ → Write

unfoldable pub write : String → Db → Write → Db
write id db (status_write s code at) = update_status db id s code at
write id db (activity_write seq at a reason) = update_activity db id seq at a reason
write id db (attention_write a reason at) = set_attention db id a reason at
write id db (view_write at) = clear_attention_for_view db id at
write id db (size_write rows cols at) = set_size db id rows cols at

-- The newest write is the first of the list.
unfoldable pub after_writes : String → Db → List Write → Db
after_writes id db [] = db
after_writes id db (w ∷ older) = write id (after_writes id db older) w

-- The status and the badge that the row shows after the writes.
unfoldable pub shown_status : SessionStatus → List Write → SessionStatus
shown_status s [] = s
shown_status s (status_write s' code at ∷ older) = s'
shown_status s (_ ∷ older) = shown_status s older

unfoldable pub shown_badge : AttentionState → List Write → AttentionState
shown_badge a [] = a
shown_badge a (activity_write seq at a' reason ∷ older) = a'
shown_badge a (attention_write a' reason at ∷ older) = a'
shown_badge a (view_write at ∷ older) = quiet
shown_badge a (_ ∷ older) = shown_badge a older

-- The pairs that the writes record, a view and a size none, the newest first.
unfoldable pub recorded : Row → List Write → List (String × ℕ)
recorded r [] = []
recorded r (status_write s code at ∷ older) =
    (kind_of s (shown_badge r.session.attention_state older), at) ∷ recorded r older
recorded r (activity_write seq at a reason ∷ older) =
    (kind_of (shown_status r.session.status older) a, at) ∷ recorded r older
recorded r (attention_write a reason at ∷ older) =
    (kind_of (shown_status r.session.status older) a, at) ∷ recorded r older
recorded r (view_write at ∷ older) = recorded r older
recorded r (size_write rows cols at ∷ older) = recorded r older

-- The oldest time in the newest run of one pair, the row's own pair and time at the end.
unfoldable pub run_began : Row → ℕ → String → List (String × ℕ) → ℕ
run_began r at kind [] = if str_eq r.state_kind kind then r.session.state_since else at
run_began r at kind ((k, t) ∷ older) =
    let rest = run_began r t kind older in if str_eq k kind then rest else at

unfoldable pub newest_run : Row → List (String × ℕ) → ℕ
newest_run r [] = r.session.state_since
newest_run r ((k, t) ∷ older) = run_began r t k older

abbrev newest_kind : Row → List (String × ℕ) → String
newest_kind r [] = r.state_kind
newest_kind r ((k, t) ∷ older) = k

-- The row agrees with the record of its writes.
abbrev Agrees : Row → List Write → Row → Type 0
Agrees r ws now =
    (now.session.status ≡ shown_status r.session.status ws)
    × (now.session.attention_state ≡ shown_badge r.session.attention_state ws)
    × (now.state_kind ≡ newest_kind r (recorded r ws))
    × (now.session.state_since ≡ newest_run r (recorded r ws))

newest_run-cons :
    (r : Row) (k : String) (t : ℕ) (log : List (String × ℕ))
    → (if str_eq (newest_kind r log) k then newest_run r log else t) ≡ newest_run r ((k, t) ∷ log)
unfolding newest_run run_began
newest_run-cons r k t [] = refl
newest_run-cons r k t ((k', t') ∷ log) = ground (arith, eq_iff k' k)

-- What a write does to the row.
unfoldable step : Write → Row → Row
step (status_write s code at) r =
    restate at
      (record r { session = record (r.session) { status = s; exit_code = code; updated_at = at } })
step (activity_write seq at a reason) r = restate at (record r {
  session = record (r.session) {
    last_event_seq = seq;
    last_activity_at = at;
    updated_at = at;
    attention_state = a;
    attention_reason = reason;
  };
})
step (attention_write a reason at) r = restate at (record r {
  session = record (r.session) { attention_state = a; attention_reason = reason; updated_at = at };
})
step (view_write at) r = record r {
  session = record (r.session) {
    attention_state = quiet;
    attention_reason = none;
    updated_at = at;
  };
}
step (size_write rows cols at) r = record r {
  session = record (r.session) { rows = rows; cols = cols; updated_at = at };
}

write-on_row : (id : String) (db : Db) (w : Write) → write id db w ≡ on_row id (step w) db
unfolding write step update_status update_activity set_attention clear_attention_for_view set_size
write-on_row id db (status_write s code at) = refl
write-on_row id db (activity_write seq at a reason) = refl
write-on_row id db (attention_write a reason at) = refl
write-on_row id db (view_write at) = refl
write-on_row id db (size_write rows cols at) = refl

id-step : (w : Write) (r : Row) → (step w r).session.id ≡ r.session.id
unfolding step restate
id-step (status_write s code at) r = refl
id-step (activity_write seq at a reason) r = refl
id-step (attention_write a reason at) r = refl
id-step (view_write at) r = refl
id-step (size_write rows cols at) r = refl

Agrees-step :
    (r : Row) (ws : List Write) (now : Row) (w : Write)
    → Agrees r ws now
    → Agrees r (w ∷ ws) (step w now)
unfolding step restate shown_status shown_badge recorded
Agrees-step r ws now (status_write s code at) a = (
  refl,
  a.1,
  ap (kind_of s) a.1,
  (λ i. if str_eq (a.2 i) (kind_of s (a.1 i)) then a.3 i else at)
      ∙ newest_run-cons r (kind_of s (shown_badge r.session.attention_state ws)) at (recorded r ws),
)
Agrees-step r ws now (activity_write seq at b reason) a = (
  a.0,
  refl,
  ap (λ s. kind_of s b) a.0,
  (λ i. if str_eq (a.2 i) (kind_of (a.0 i) b) then a.3 i else at)
      ∙ newest_run-cons r (kind_of (shown_status r.session.status ws) b) at (recorded r ws),
)
Agrees-step r ws now (attention_write b reason at) a = (
  a.0,
  refl,
  ap (λ s. kind_of s b) a.0,
  (λ i. if str_eq (a.2 i) (kind_of (a.0 i) b) then a.3 i else at)
      ∙ newest_run-cons r (kind_of (shown_status r.session.status ws) b) at (recorded r ws),
)
Agrees-step r ws now (view_write at) a = (a.0, refl, a.2, a.3)
Agrees-step r ws now (size_write rows cols at) a = a

-- The row after the writes.
unfoldable stepped : Row → List Write → Row
stepped r [] = r
stepped r (w ∷ older) = step w (stepped r older)

Agrees-stepped : (r : Row) (ws : List Write) → Agrees r ws (stepped r ws)
unfolding stepped shown_status shown_badge recorded newest_run
Agrees-stepped r [] = (refl, refl, refl, refl)
Agrees-stepped r (w ∷ older) = Agrees-step r older (stepped r older) w (Agrees-stepped r older)

first-after_writes :
    (id : String) (db : Db) (ws : List Write)
    → first (has_id id) (after_writes id db ws).sessions
      ≡ map_option (λ r. stepped r ws) (first (has_id id) db.sessions)
unfolding after_writes stepped
first-after_writes id db [] = ground arith
first-after_writes id db (w ∷ older) =
    ap (λ d. first (has_id id) d.sessions) (write-on_row id (after_writes id db older) w)
    ∙ first-update (has_id id) (step w) (after_writes id db older).sessions
        (λ r. ap (λ i. str_eq i id) (id-step w r))
    ∙ ap (map_option (step w)) (first-after_writes id db older)
    ∙ ground arith

-- For a session that is on record: after any sequence of writes of its status, activity, attention,
-- view and size, `state_since` is the oldest time of the newest run of one pair of status and
-- badge, among the pairs that the writes other than views and sizes record, with the row's own pair
-- before them.
pub state_since-after_writes :
    (id : String) (db : Db) (ws : List Write) (r : Row)
    → first (has_id id) db.sessions ≡ some r
    → map_option (λ s. s.state_since) (get_session (after_writes id db ws) id)
      ≡ some (newest_run r (recorded r ws))
unfolding get_session
state_since-after_writes id db ws r e =
    ap (λ o. map_option (λ s. s.state_since) (map_option (λ x. x.session) o))
      (first-after_writes id db ws ∙ ap (map_option (λ x. stepped x ws)) e)
    ∙ ap some (Agrees-stepped r ws).3
