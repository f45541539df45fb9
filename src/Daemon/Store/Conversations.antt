-- ===== src/Daemon/Store/Conversations.antt =====
-- crates/daemon/src/db.rs: no two sessions of one agent have the same conversation.
use agent_workspace.Prelude.{
  String, ◌≡◌, Bool, false, not, ◌&&◌, Option, none, some, List, [], ◌∷◌, arith, str_eq, eq_iff,
  if◌then◌else◌, unwrap_or, All,
}
use agent_workspace.Daemon.Store.{Row, Db}
use agent_workspace.Daemon.Store.Query.{update}
use agent_workspace.Daemon.Store.Sessions.{
  same_id, is_none, claims, is_claimed, may_bind, bind_native, set_agent_session_id,
  replace_agent_session_id,
}

abbrev holds : Row → String → Bool
holds r native = same_id r.session.agent_session_id native

-- Two sessions of one agent with one conversation.
abbrev clashes : Row → Row → Bool
clashes r other =
    not (str_eq other.session.id r.session.id)
    && (str_eq other.session.agent_plugin_id r.session.agent_plugin_id
        && elim (r.session.agent_session_id) [ none ↦ false | some native ↦ holds other native ])

unfoldable pub IsExclusive : List Row → Type 0
IsExclusive [] = Unit
IsExclusive (r ∷ rs) = All (λ other. clashes r other ≡ false) rs × IsExclusive rs

-- Rows that come into a test only if the whole table has them.
abbrev bound : String → String → (Option String → Bool) → List Row → Row → Row
bound id native held table r = if may_bind id native held table r then bind_native native r else r

abbrev unclaimed : String → String → List Row → Row → Bool
unclaimed id native table r = not (is_claimed id r.session.agent_plugin_id native table)

clashes-bound :
    (id native : String) (held : Option String → Bool) (table : List Row) (r other : Row)
    → clashes r other ≡ false
    → (unclaimed id native table r && claims id r.session.agent_plugin_id native other) ≡ false
    → (unclaimed id native table other && claims id other.session.agent_plugin_id native r) ≡ false
    → clashes (bound id native held table r) (bound id native held table other) ≡ false
clashes-bound id native held table r other c h k = ground (
  arith,
  eq_iff other.session.id r.session.id,
  eq_iff r.session.id id,
  eq_iff other.session.id id,
  eq_iff other.session.agent_plugin_id r.session.agent_plugin_id,
  eq_iff r.session.agent_plugin_id other.session.agent_plugin_id,
  eq_iff native (unwrap_or "" r.session.agent_session_id),
  eq_iff (unwrap_or "" r.session.agent_session_id) native,
  eq_iff (unwrap_or "" other.session.agent_session_id) native,
)

-- The table has every row of the list, as far as the test of a claim sees.
abbrev Within : String → String → List Row → List Row → Type 0
Within id native table rs =
    (plugin : String)
    → (not (is_claimed id plugin native table) && is_claimed id plugin native rs) ≡ false

Within-tail :
    (id native : String) (table : List Row) (r : Row) (rs : List Row)
    → Within id native table (r ∷ rs)
    → Within id native table rs
Within-tail id native table r rs w plugin = ground (arith, w plugin)

All-bound :
    (id native : String) (held : Option String → Bool) (table : List Row) (r : Row) (rs : List Row)
    → All (λ other. clashes r other ≡ false) rs
    → Within id native table (r ∷ rs)
    → All
        (λ other. clashes (bound id native held table r) other ≡ false)
        (update (may_bind id native held table) (bind_native native) rs)
All-bound id native held table r [] a w = tt
All-bound id native held table r (other ∷ rs) a w = (
  clashes-bound id native held table r other a.0 (ground (arith, w r.session.agent_plugin_id))
      (ground (arith, w other.session.agent_plugin_id)),
  All-bound id native held table r rs a.1 (λ plugin. ground (arith, w plugin)),
)

IsExclusive-bound :
    (id native : String) (held : Option String → Bool) (table rs : List Row)
    → Within id native table rs
    → IsExclusive rs
    → IsExclusive (update (may_bind id native held table) (bind_native native) rs)
unfolding IsExclusive
IsExclusive-bound id native held table [] w e = tt
IsExclusive-bound id native held table (r ∷ rs) w e = (
  All-bound id native held table r rs e.0 w,
  IsExclusive-bound id native held table rs (Within-tail id native table r rs w) e.1,
)

reflexive : (id native : String) (table : List Row) → Within id native table table
reflexive id native table plugin = ground arith

IsExclusive-set_agent_session_id :
    (db : Db) (id native : String)
    → IsExclusive db.sessions
    → IsExclusive (set_agent_session_id db id native).1.sessions
unfolding set_agent_session_id
IsExclusive-set_agent_session_id db id native e =
    IsExclusive-bound id native is_none db.sessions db.sessions (reflexive id native db.sessions) e

IsExclusive-replace_agent_session_id :
    (db : Db) (id previous replacement : String)
    → IsExclusive db.sessions
    → IsExclusive (replace_agent_session_id db id previous replacement).1.sessions
unfolding replace_agent_session_id
IsExclusive-replace_agent_session_id db id previous replacement e =
    IsExclusive-bound id replacement (λ held. same_id held previous) db.sessions db.sessions
      (reflexive id replacement db.sessions) e

-- The captures and the repairs of the conversations' ids.
pub data Binding : Type 0 where
  capture : String → String → Binding
  repair : String → String → String → Binding

unfoldable pub bind : Db → Binding → Db
bind db (capture id native) = (set_agent_session_id db id native).1
bind db (repair id previous replacement) = (replace_agent_session_id db id previous replacement).1

unfoldable pub bind_all : Db → List Binding → Db
bind_all db [] = db
bind_all db (b ∷ bs) = bind_all (bind db b) bs

IsExclusive-bind :
    (db : Db) (b : Binding) → IsExclusive db.sessions → IsExclusive (bind db b).sessions
unfolding bind
IsExclusive-bind db (capture id native) e = IsExclusive-set_agent_session_id db id native e
IsExclusive-bind db (repair id previous replacement) e =
    IsExclusive-replace_agent_session_id db id previous replacement e

-- If no two sessions of one agent have the same conversation, then none have after any sequence of
-- captures and repairs of the conversations' ids.
pub IsExclusive-bind_all :
    (db : Db) (bs : List Binding) → IsExclusive db.sessions → IsExclusive (bind_all db bs).sessions
unfolding bind_all
IsExclusive-bind_all db [] e = e
IsExclusive-bind_all db (b ∷ bs) e = IsExclusive-bind_all (bind db b) bs (IsExclusive-bind db b e)
