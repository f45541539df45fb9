-- ===== src/Daemon/Domain/Names.antt =====
-- domain.rs: the names under which the states are stored.
use agent_workspace.Prelude.{◌≡◌, refl}
use agent_workspace.Daemon.Domain.{
  SessionStatus, starting, running, exited, failed, stopped, archived, indeterminate, status_as_str,
  status_from_str, AttentionState, quiet, activity, idle, likely_blocked, approval_needed, error,
  aborted, attention_as_str, attention_from_str,
}

status_from_str-status_as_str : (s : SessionStatus) → status_from_str (status_as_str s) ≡ s
unfolding status_as_str status_from_str
status_from_str-status_as_str starting = refl
status_from_str-status_as_str running = refl
status_from_str-status_as_str exited = refl
status_from_str-status_as_str failed = refl
status_from_str-status_as_str stopped = refl
status_from_str-status_as_str archived = refl
status_from_str-status_as_str indeterminate = refl

attention_from_str-attention_as_str :
    (a : AttentionState) → attention_from_str (attention_as_str a) ≡ a
unfolding attention_as_str attention_from_str
attention_from_str-attention_as_str quiet = refl
attention_from_str-attention_as_str activity = refl
attention_from_str-attention_as_str idle = refl
attention_from_str-attention_as_str likely_blocked = refl
attention_from_str-attention_as_str approval_needed = refl
attention_from_str-attention_as_str error = refl
attention_from_str-attention_as_str aborted = refl
