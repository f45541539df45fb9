-- ===== src/Daemon/Auth/Access.antt =====
-- crates/daemon/src/auth.rs: what a request over the relay needs, and what a revoked device loses.
use agent_workspace.Prelude.{
  ℕ, String, ◌≡◌, refl, Bool, true, false, not, ◌&&◌, ◌||◌, Option, none, some, List, [], ◌∷◌,
  arith, str_eq, is_some, All,
}
use agent_workspace.Daemon.Domain.{Device}
use agent_workspace.Daemon.Store.{Db}
use agent_workspace.Daemon.Store.Query.{exists, first, update}
use agent_workspace.Daemon.Store.Devices.{device_by_token, revoke_device}
use agent_workspace.Daemon.Auth.{
  tunnel, Request, is_public, extract_token, is_trusted, require_auth,
}

-- One of the enrolled devices has the token that the request presents, and has not been revoked.
abbrev pub holds_token : List Device → Option String → Bool
holds_token ds none = false
holds_token ds (some token) = exists (λ d. not d.revoked && str_eq d.token token) ds

is_some-first :
    (token : String) (ds : List Device)
    → is_some (first (λ d. str_eq d.token token && not d.revoked) ds) ≡ holds_token ds (some token)
is_some-first token [] = refl
is_some-first token (d ∷ ds) = ground (arith, is_some-first token ds)

is_some-device_by_token :
    (db : Db) (token : String)
    → is_some (device_by_token db token) ≡ holds_token db.devices (some token)
unfolding device_by_token
is_some-device_by_token db token = is_some-first token db.devices

-- A request over the relay's listener, that is not OPTIONS and whose path is not public, goes on
-- exactly when one of the enrolled devices has the token that it presents and has not been revoked,
-- also from a loopback address; it is stamped as not trusted.
pub require_auth-tunnel :
    (now : ℕ) (db : Db) (req : Request)
    → req.is_options ≡ false
    → req.listener ≡ some tunnel
    → is_public req.path ≡ false
    → ((require_auth now db req).admitted ≡ holds_token db.devices (extract_token req))
      × ((require_auth now db req).trust ≡ some false)
unfolding require_auth
require_auth-tunnel now db req o l p = by_token (extract_token req) refl
  where
    by_token :
        (presented : Option String)
        → extract_token req ≡ presented
        → ((require_auth now db req).admitted ≡ holds_token db.devices (extract_token req))
          × ((require_auth now db req).trust ≡ some false)
    by_token none e = ground (arith, l)
    by_token (some token) e = ground (arith, l, is_some-device_by_token db token)

-- Every device with the token is this one.
abbrev IsSole : String → String → List Device → Type 0
IsSole token id = All (λ d. (not (str_eq d.token token) || str_eq d.id id) ≡ true)

revoked-none :
    (token id : String) (ds : List Device)
    → IsSole token id ds
    → first
        (λ d. str_eq d.token token && not d.revoked)
        (update (λ d. str_eq d.id id) (λ d. record d { revoked = true }) ds)
      ≡ none
revoked-none token id [] s = refl
revoked-none token id (d ∷ ds) s = ground (arith, s.0, revoked-none token id ds s.1)

-- Once a device is revoked, a request that is not OPTIONS, not trusted and not for a public path,
-- with a token that no other device has, is refused.
pub require_auth-revoke_device :
    (now : ℕ) (db : Db) (req : Request) (token id : String)
    → req.is_options ≡ false
    → is_trusted req ≡ false
    → is_public req.path ≡ false
    → extract_token req ≡ some token
    → All (λ d. (not (str_eq d.token token) || str_eq d.id id) ≡ true) db.devices
    → (require_auth now (revoke_device db id).1 req).admitted ≡ false
unfolding require_auth revoke_device device_by_token
require_auth-revoke_device now db req token id o t p e s =
    ground (arith, e, revoked-none token id db.devices s)
