-- ===== src/Daemon/Auth.antt =====
-- crates/daemon/src/auth.rs: who may use the daemon's API. A request comes with the token of its
-- `Bearer` header, if it has such a header, and with that of its query.
pub mod Access
mod Tests
use agent_workspace.Prelude.{
  ℕ, String, Bool, true, false, not, ◌&&◌, ◌||◌, Option, none, some, str_eq, if◌then◌else◌,
  unwrap_or, starts_with,
}
use agent_workspace.Daemon.Store.{Db}
use agent_workspace.Daemon.Store.Devices.{device_by_token, touch_device}

pub data ListenerKind : Type 0 where
  primary tunnel : ListenerKind

-- `is_loopback` and `listener` are `none` where the request has no such extension.
pub record Request : Type 0 where
  pub is_options : Bool
  pub listener : Option ListenerKind
  pub is_loopback : Option Bool
  pub path : String
  pub bearer : Option String
  pub access_token : Option String

-- What `require_auth` answers: whether the request goes on, and the trust that it is stamped with.
pub record Admission : Type 0 where
  pub admitted : Bool
  pub trust : Option Bool
  pub db : Db

unfoldable pub is_public : String → Bool
is_public path =
    not (starts_with path "/api")
    || (str_eq path "/api/auth/status" || str_eq path "/api/auth/enroll")

abbrev pub extract_token : Request → Option String
extract_token req = elim (req.bearer) [ some token ↦ some token | none ↦ req.access_token ]

abbrev is_tunnel : Option ListenerKind → Bool
is_tunnel (some tunnel) = true
is_tunnel _ = false

-- A loopback peer, and not on the relay's listener.
abbrev pub is_trusted : Request → Bool
is_trusted req = unwrap_or false req.is_loopback && not (is_tunnel req.listener)

abbrev admit_token : ℕ → Db → Bool → Option String → Admission
admit_token now db trusted none = record { admitted = false; trust = some trusted; db = db }
admit_token now db trusted (some token) = elim (device_by_token db token) [
  | none ↦ record { admitted = false; trust = some trusted; db = db }
  | some d ↦ record { admitted = true; trust = some trusted; db = touch_device db d.id now }
]

unfoldable pub require_auth : ℕ → Db → Request → Admission
require_auth now db req =
    if req.is_options
    then record { admitted = true; trust = none; db = db }
    else if is_public req.path || is_trusted req
    then record { admitted = true; trust = some (is_trusted req); db = db }
    else admit_token now db (is_trusted req) (extract_token req)
