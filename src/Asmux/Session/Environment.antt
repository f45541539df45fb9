-- ===== src/Asmux/Session/Environment.antt =====
-- crates/asmux/src/session.rs: the environment that a child starts with, key by key.
use agent_workspace.Prelude.{
  String, ◌≡◌, refl, Bool, false, ◌&&◌, ◌||◌, Option, none, some, List, [], ◌∷◌, arith, str_eq,
  eq_iff, if◌then◌else◌, Assoc, lookup, insert, remove, lookup-insert, lookup-remove, is_some,
}
use agent_workspace.Asmux.Session.Spawn.{
  SpawnSpec, is_enclosing_key, scrub_inherited_agent_env, set_env, has_term, child_env,
}

-- The value that the last entry for the key gives.
unfoldable pub last_value : String → List (String × String) → Option String
last_value k [] = none
last_value k ((j, v) ∷ vars) = elim (last_value k vars) [
  | none ↦ if str_eq j k then some v else none
  | some w ↦ some w
]

-- The key is one of the process's own variables.
unfoldable pub is_process_key : String → List (Option String) → Bool
is_process_key k [] = false
is_process_key k (none ∷ vars) = is_process_key k vars
is_process_key k (some j ∷ vars) = str_eq j k || is_process_key k vars

lookup-set_env :
    (k : String) (vars : List (String × String)) (env : Assoc String)
    → lookup k (set_env vars env)
      ≡ (elim (last_value k vars) [ none ↦ lookup k env | some v ↦ some v ])
unfolding set_env last_value
lookup-set_env k [] env = refl
lookup-set_env k ((j, v) ∷ vars) env =
    ground (arith, lookup-set_env k vars (insert j v env), lookup-insert j k v env)

lookup-scrub :
    (k : String) (vars : List (Option String)) (env : Assoc String)
    → lookup k (scrub_inherited_agent_env vars env)
      ≡ (if is_enclosing_key k && is_process_key k vars then none else lookup k env)
unfolding scrub_inherited_agent_env is_process_key
lookup-scrub k [] env = ground arith
lookup-scrub k (none ∷ vars) env = lookup-scrub k vars env
lookup-scrub k (some j ∷ vars) env = ground (
  arith,
  lookup-scrub k vars (remove j env),
  lookup-scrub k vars env,
  lookup-remove j k env,
  eq_iff j k,
)

has_term_lem : (vars : List (String × String)) → has_term vars ≡ is_some (last_value "TERM" vars)
unfolding last_value
has_term_lem [] = refl
has_term_lem ((j, v) ∷ vars) = ground (arith, has_term_lem vars)

-- A key of the launch keeps the value that its last entry gives; `TERM` has one in any case; a
-- variable of the process that marks an enclosing agent is gone; every other key is inherited.
pub lookup-child_env :
    (k : String) (vars : List (Option String)) (inherited : Assoc String) (spec : SpawnSpec)
    → lookup k (child_env vars inherited spec) ≡ (elim (last_value k spec.env) [
      | some v ↦ some v
      | none ↦
          if str_eq "TERM" k
          then some "xterm-256color"
          else if is_enclosing_key k && is_process_key k vars
          then none
          else lookup k inherited
    ])
unfolding child_env
lookup-child_env k vars inherited spec = ground (
  arith,
  has_term_lem spec.env,
  lookup-set_env k spec.env (scrub_inherited_agent_env vars inherited),
  lookup-scrub k vars inherited,
  lookup-insert "TERM" k "xterm-256color"
      (set_env spec.env (scrub_inherited_agent_env vars inherited)),
  eq_iff "TERM" k,
)
