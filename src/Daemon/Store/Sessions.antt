-- ===== src/Daemon/Store/Sessions.antt =====
-- crates/daemon/src/db.rs: the table of sessions, their titles and their summaries.
use agent_workspace.Prelude.{
  ℕ, String, Bool, true, false, not, ◌&&◌, Option, none, some, List, [], ◌∷◌, ◌++◌, str_eq, ltb,
  if◌then◌else◌, unwrap_or, length, lookup, insert, remove, map, map_option, ℤ, join_text,
}
use agent_workspace.Daemon.Domain.{
  Session, SessionSummary, SessionStatus, AttentionState, starting, running, aborted, failed, quiet,
  status_as_str, attention_as_str,
}
use agent_workspace.Daemon.Store.{Row, Db}
use agent_workspace.Daemon.Store.Query.{select, exists, first, update, order_by, top}

-- `status || '/' || attention_state`
unfoldable pub kind_of : SessionStatus → AttentionState → String
kind_of status attention =
    join_text (join_text (status_as_str status) "/") (attention_as_str attention)

abbrev pub has_id : String → Row → Bool
has_id id r = str_eq r.session.id id

abbrev pub on_row : String → (Row → Row) → Db → Db
on_row id f db = record db { sessions = update (has_id id) f db.sessions }

-- The row's states as they are now, first written at this time if `state_kind` has others.
unfoldable pub restate : ℕ → Row → Row
restate at r =
    let kind = kind_of r.session.status r.session.attention_state in
    record r {
      session = record (r.session) {
        state_since = if str_eq r.state_kind kind then r.session.state_since else at;
      };
      state_kind = kind;
    }

-- A session's id is the primary key.
unfoldable pub insert_session : Db → Session → Option Db
insert_session db s =
    if exists (has_id s.id) db.sessions
    then none
    else some (record db {
      sessions =
          db.sessions
          ++ record {
            session = s;
            state_kind = kind_of s.status s.attention_state;
            backend_cursor = 0;
          }
            ∷ [];
    })

abbrev pub same_id : Option String → String → Bool
same_id none native = false
same_id (some held) native = str_eq held native

abbrev pub is_none : Option String → Bool
is_none none = true
is_none (some held) = false

abbrev pub claims : String → String → String → Row → Bool
claims id plugin native other =
    not (has_id id other)
    && (str_eq other.session.agent_plugin_id plugin
        && same_id other.session.agent_session_id native)

-- Another session of the same agent has the conversation.
abbrev pub is_claimed : String → String → String → List Row → Bool
is_claimed id plugin native rows = exists (claims id plugin native) rows

abbrev pub may_bind : String → String → (Option String → Bool) → List Row → Row → Bool
may_bind id native held rows r =
    has_id id r
    && (held r.session.agent_session_id
        && not (is_claimed id r.session.agent_plugin_id native rows))

abbrev pub bind_native : String → Row → Row
bind_native native r = record r { session = record (r.session) { agent_session_id = some native } }

unfoldable pub set_agent_session_id : Db → String → String → Bool × Db
set_agent_session_id db id native = (
  exists (may_bind id native is_none db.sessions) db.sessions,
  record db {
    sessions = update (may_bind id native is_none db.sessions) (bind_native native) db.sessions;
  },
)

unfoldable pub replace_agent_session_id : Db → String → String → String → Bool × Db
replace_agent_session_id db id previous replacement =
    let matched = may_bind id replacement (λ held. same_id held previous) db.sessions in
    let changed = exists matched db.sessions in
    (
      changed,
      record db {
        sessions = update matched (bind_native replacement) db.sessions;
        titles = if changed then remove id db.titles else db.titles;
      },
    )

unfoldable set_session_title : Db → String → String → Db
set_session_title db id title = record db { titles = insert id title db.titles }

unfoldable get_session_title : Db → String → Option String
get_session_title db id = lookup id db.titles

unfoldable pub list_sessions : Db → List Session
list_sessions db =
    order_by (λ a b. ltb b.created_at a.created_at) (map (λ r. r.session) db.sessions)

unfoldable pub get_session : Db → String → Option Session
get_session db id = map_option (λ r. r.session) (first (has_id id) db.sessions)

unfoldable pub update_status : Db → String → SessionStatus → Option ℤ → ℕ → Db
update_status db id status exit_code at =
    on_row id
      (λ r. restate at (record r {
        session = record (r.session) { status = status; exit_code = exit_code; updated_at = at };
      }))
      db

unfoldable pub update_activity : Db → String → ℕ → ℕ → AttentionState → Option String → Db
update_activity db id last_seq at attention reason =
    on_row id
      (λ r. restate at (record r {
        session = record (r.session) {
          last_event_seq = last_seq;
          last_activity_at = at;
          updated_at = at;
          attention_state = attention;
          attention_reason = reason;
        };
      }))
      db

unfoldable pub set_attention : Db → String → AttentionState → Option String → ℕ → Db
set_attention db id attention reason at =
    on_row id
      (λ r. restate at (record r {
        session = record (r.session) {
          attention_state = attention;
          attention_reason = reason;
          updated_at = at;
        };
      }))
      db

unfoldable pub clear_attention_for_view : Db → String → ℕ → Db
clear_attention_for_view db id at =
    on_row id
      (λ r. record r {
        session = record (r.session) {
          attention_state = quiet;
          attention_reason = none;
          updated_at = at;
        };
      })
      db

unfoldable pub set_size : Db → String → ℕ → ℕ → ℕ → Db
set_size db id rows cols at =
    on_row id
      (λ r. record r { session = record (r.session) { rows = rows; cols = cols; updated_at = at } })
      db

unfoldable pub insert_summary : Db → SessionSummary → Db
insert_summary db s = record db { summaries = db.summaries ++ s ∷ [] }

unfoldable get_summary : Db → String → Option SessionSummary
get_summary db id =
    top (λ a b. ltb b.ended_at a.ended_at) (select (λ s. str_eq s.session_id id) db.summaries)

-- `status IN ('starting', 'running')`
abbrev is_live : Session → Bool
is_live s = elim (s.status) [ starting ↦ true | running ↦ true | _ ↦ false ]

unfoldable pub live_session_ids : Db → List String
live_session_ids db =
    map (λ s. s.id)
      (order_by (λ a b. ltb a.created_at b.created_at)
        (select is_live (map (λ r. r.session) db.sessions)))

unfoldable get_backend_cursor : Db → String → ℕ
get_backend_cursor db id =
    unwrap_or 0 (map_option (λ r. r.backend_cursor) (first (has_id id) db.sessions))

-- The states change, and `state_since` and `state_kind` do not.
unfoldable pub reconcile_orphans_on_startup : Db → ℕ → ℕ × Db
reconcile_orphans_on_startup db at = (
  length (select (λ r. is_live r.session) db.sessions),
  record db {
    sessions =
        update (λ r. is_live r.session)
          (λ r. record r {
            session = record (r.session) {
              status = failed;
              updated_at = at;
              attention_state = aborted;
              attention_reason = some "daemon restarted; backend not recovered";
            };
          })
          db.sessions;
  },
)
