-- ===== src/Daemon/Store/Badges.antt =====
-- crates/daemon/src/db.rs: what each write does to the badge and the status of a session.
use agent_workspace.Prelude.{
  ℕ, String, ◌≡◌, refl, ap, ◌∙◌, false, Option, arith, str_eq, eq_iff, map_option, ℤ,
}
use agent_workspace.Daemon.Domain.{SessionStatus, AttentionState, quiet}
use agent_workspace.Daemon.Store.{Row, Db}
use agent_workspace.Daemon.Store.Query.{first, first-update, first-update_other}
use agent_workspace.Daemon.Store.Sessions.{
  has_id, on_row, restate, get_session, update_status, update_activity, set_attention,
  clear_attention_for_view,
}

unfoldable pub badge : Db → String → Option AttentionState
badge db id = map_option (λ s. s.attention_state) (get_session db id)

unfoldable pub status_of : Db → String → Option SessionStatus
status_of db id = map_option (λ s. s.status) (get_session db id)

get_session-on_row :
    (db : Db) (id : String) (f : Row → Row)
    → ((r : Row) → (f r).session.id ≡ r.session.id)
    → get_session (on_row id f db) id
      ≡ map_option (λ r. (f r).session) (first (has_id id) db.sessions)
unfolding get_session
get_session-on_row db id f same =
    ap (map_option (λ r. r.session))
      (first-update (has_id id) f db.sessions (λ r. ap (λ i. str_eq i id) (same r)))
    ∙ ground arith

module _ (db : Db) (id : String) where
  pub badge-update_activity :
      (seq at : ℕ) (a : AttentionState) (reason : Option String)
      → badge (update_activity db id seq at a reason) id ≡ map_option (λ old. a) (badge db id)
  unfolding badge update_activity get_session restate
  badge-update_activity seq at a reason =
      ap (map_option (λ s. s.attention_state)) (get_session-on_row db id _ (λ r. refl))
      ∙ ground arith

  pub badge-set_attention :
      (a : AttentionState) (reason : Option String) (at : ℕ)
      → badge (set_attention db id a reason at) id ≡ map_option (λ old. a) (badge db id)
  unfolding badge set_attention get_session restate
  badge-set_attention a reason at =
      ap (map_option (λ s. s.attention_state)) (get_session-on_row db id _ (λ r. refl))
      ∙ ground arith

  pub badge-clear_attention_for_view :
      (at : ℕ)
      → badge (clear_attention_for_view db id at) id ≡ map_option (λ old. quiet) (badge db id)
  unfolding badge clear_attention_for_view get_session
  badge-clear_attention_for_view at =
      ap (map_option (λ s. s.attention_state)) (get_session-on_row db id _ (λ r. refl))
      ∙ ground arith

  pub badge-update_status :
      (s : SessionStatus) (code : Option ℤ) (at : ℕ)
      → badge (update_status db id s code at) id ≡ badge db id
  unfolding badge update_status get_session restate
  badge-update_status s code at =
      ap (map_option (λ s. s.attention_state)) (get_session-on_row db id _ (λ r. refl))
      ∙ ground arith

  pub status_of-update_status :
      (s : SessionStatus) (code : Option ℤ) (at : ℕ)
      → status_of (update_status db id s code at) id ≡ map_option (λ old. s) (status_of db id)
  unfolding status_of update_status get_session restate
  status_of-update_status s code at =
      ap (map_option (λ s. s.status)) (get_session-on_row db id _ (λ r. refl)) ∙ ground arith

  pub status_of-set_attention :
      (a : AttentionState) (reason : Option String) (at : ℕ)
      → status_of (set_attention db id a reason at) id ≡ status_of db id
  unfolding status_of set_attention get_session restate
  status_of-set_attention a reason at =
      ap (map_option (λ s. s.status)) (get_session-on_row db id _ (λ r. refl)) ∙ ground arith

unfoldable pub exit_code_of : Db → String → Option (Option ℤ)
exit_code_of db id = map_option (λ s. s.exit_code) (get_session db id)

module _ (db : Db) (id : String) where
  pub exit_code_of-update_status :
      (s : SessionStatus) (code : Option ℤ) (at : ℕ)
      → exit_code_of (update_status db id s code at) id
        ≡ map_option (λ old. code) (exit_code_of db id)
  unfolding exit_code_of update_status get_session restate
  exit_code_of-update_status s code at =
      ap (map_option (λ s. s.exit_code)) (get_session-on_row db id _ (λ r. refl)) ∙ ground arith

  pub exit_code_of-set_attention :
      (a : AttentionState) (reason : Option String) (at : ℕ)
      → exit_code_of (set_attention db id a reason at) id ≡ exit_code_of db id
  unfolding exit_code_of set_attention get_session restate
  exit_code_of-set_attention a reason at =
      ap (map_option (λ s. s.exit_code)) (get_session-on_row db id _ (λ r. refl)) ∙ ground arith

-- The other sessions' rows are not touched.
module _ (db : Db) (id other : String) (apart : str_eq id other ≡ false) where
  get_session-other :
      (f : Row → Row)
      → ((r : Row) → (f r).session.id ≡ r.session.id)
      → get_session (on_row id f db) other ≡ get_session db other
  unfolding get_session
  get_session-other f same = ap (map_option (λ r. r.session)) (
      first-update_other (has_id other) (has_id id) f db.sessions
        (λ r. ap (λ i. str_eq i other) (same r))
        (λ r.
          ground
            (arith, apart, eq_iff r.session.id other, eq_iff r.session.id id, eq_iff id other)))

  pub get_session-update_status :
      (s : SessionStatus) (code : Option ℤ) (at : ℕ)
      → get_session (update_status db id s code at) other ≡ get_session db other
  unfolding update_status restate
  get_session-update_status s code at = get_session-other _ (λ r. refl)

  pub get_session-set_attention :
      (a : AttentionState) (reason : Option String) (at : ℕ)
      → get_session (set_attention db id a reason at) other ≡ get_session db other
  unfolding set_attention restate
  get_session-set_attention a reason at = get_session-other _ (λ r. refl)
