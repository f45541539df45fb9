-- ===== src/Asmux/Session/Spawn.antt =====
-- crates/asmux/src/session.rs: starting a session's child. The operating system's answers and the
-- process's own environment are arguments.
use agent_workspace.Prelude.{
  ℕ, ◌-◌, ◌%◌, ◌^◌, String, Bool, true, false, ◌||◌, Option, none, some, List, [], ◌∷◌, str_eq, ltb,
  if◌then◌else◌, Assoc, insert, remove, Result, ok, err, ◌>>=◌, ℤ, pos, negsuc, join_text,
  starts_with,
}
use agent_workspace.Asmux.Ring
use agent_workspace.Asmux.Session.{running, Session}

pub record SpawnSpec : Type 0 where
  pub session_id : String
  pub command : String
  pub args : List String
  pub cwd : String
  pub env : List (String × String)
  pub cols : ℕ
  pub rows : ℕ
  pub ring_capacity : ℕ
  pub metadata : List (String × String)
  pub fingerprint : ℕ
  pub created_at_unix_ms : ℕ

abbrev pub exact_keys : List String
exact_keys =
    "CLAUDECODE" ∷ "CLAUDE_EFFORT" ∷ "AI_AGENT" ∷ "ASM_ENROLLMENT_TOKEN" ∷ "ASM_RELAY_KEY"
    ∷ "ASM_RELAY_KEYS" ∷ "ASM_UI_DAEMON_TOKEN" ∷ []

abbrev pub key_prefixes : List String
key_prefixes = "CLAUDE_CODE_" ∷ "CODEX_SANDBOX" ∷ []

abbrev pub is_listed : String → List String → Bool
is_listed k [] = false
is_listed k (e ∷ es) = str_eq e k || is_listed k es

abbrev pub has_prefix : String → List String → Bool
has_prefix k [] = false
has_prefix k (p ∷ ps) = starts_with k p || has_prefix k ps

unfoldable pub is_enclosing_key : String → Bool
is_enclosing_key k = is_listed k exact_keys || has_prefix k key_prefixes

-- `vars` are the keys of the process's environment, `none` where one is no text; `env` is what the
-- command builder starts from.
unfoldable pub scrub_inherited_agent_env : List (Option String) → Assoc String → Assoc String
scrub_inherited_agent_env [] env = env
scrub_inherited_agent_env (none ∷ vars) env = scrub_inherited_agent_env vars env
scrub_inherited_agent_env (some k ∷ vars) env =
    scrub_inherited_agent_env vars (if is_enclosing_key k then remove k env else env)

unfoldable pub set_env : List (String × String) → Assoc String → Assoc String
set_env [] env = env
set_env ((k, v) ∷ vars) env = set_env vars (insert k v env)

abbrev pub has_term : List (String × String) → Bool
has_term [] = false
has_term ((k, v) ∷ vars) = str_eq k "TERM" || has_term vars

-- The environment of the child.
unfoldable pub child_env : List (Option String) → Assoc String → SpawnSpec → Assoc String
child_env vars inherited spec =
    let env = set_env spec.env (scrub_inherited_agent_env vars inherited) in
    if has_term spec.env then env else insert "TERM" "xterm-256color" env

-- What the operating system answers to the steps of `spawn`: an error's text, or nothing.
pub record SpawnAnswers : Type 0 where
  pub openpty_error : Option String
  pub spawn_error : Option String
  pub child_pid : Option ℕ
  pub reader_error : Option String
  pub writer_error : Option String
  pub waiter_error : Option String
  pub reader_thread_error : Option String
  pub writer_thread_error : Option String

abbrev pub check_step : Option String → String → Result String (Unit {0})
check_step none label = ok tt
check_step (some e) label = err (join_text label e)

infixl 5 ◌>>◌
abbrev ◌>>◌ {ℓ} : {B : Type ℓ} → Result String (Unit {0}) → Result String B → Result String B
m >> k = m >>= λ _. k

abbrev pub i32_pid : Option ℕ → ℤ
i32_pid none = negsuc 0
i32_pid (some p) =
    if ltb (p % 2 ^ 32) (2 ^ 31) then pos (p % 2 ^ 32) else negsuc (2 ^ 32 - p % 2 ^ 32 - 1)

abbrev pub started_session : SpawnSpec → ℤ → Session
started_session spec pid = record {
  id = spec.session_id;
  command = spec.command;
  fingerprint = spec.fingerprint;
  created_at_unix_ms = spec.created_at_unix_ms;
  pid = pid;
  geom = (spec.cols, spec.rows);
  ring = Ring.new spec.ring_capacity;
  status = running;
  metadata = spec.metadata;
  data_signal = false;
  dropped_events = 0;
  dropped_bytes = 0;
  holds_master = true;
  holds_killer = true;
  holds_input_tx = true;
  input_queued = 0;
  pending = [];
  writing = none;
  has_writer = true;
  attacher = none;
}

unfoldable pub spawn : SpawnAnswers → SpawnSpec → Result String Session
spawn os spec = do
  check_step os.openpty_error "openpty: "
  check_step os.spawn_error (join_text "spawn `" (join_text spec.command "`: "))
  check_step os.reader_error "clone reader: "
  check_step os.writer_error "take writer: "
  check_step os.waiter_error "waiter thread: "
  check_step os.reader_thread_error "reader thread: "
  check_step os.writer_thread_error "writer thread: "
  ok (started_session spec (i32_pid os.child_pid))
