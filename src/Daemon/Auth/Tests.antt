-- ===== src/Daemon/Auth/Tests.antt =====
-- crates/daemon/src/auth.rs: instances of the theorems on who may use the API.
use agent_workspace.Prelude.{◌≡◌, refl, true, false, none, some, []}
use agent_workspace.Daemon.Store.Devices.{device_by_token, revoke_device}
use agent_workspace.Daemon.Auth.{Request, tunnel, is_public, require_auth}
use agent_workspace.Daemon.Auth.Access.{require_auth-tunnel, require_auth-revoke_device}
use agent_workspace.Daemon.Samples.{database}

abbrev request : Request
request = record {
  is_options = false;
  listener = some tunnel;
  is_loopback = some true;
  path = "/api/sessions";
  bearer = some "secret";
  access_token = none;
}

require_auth-tunnel_example :
    ((require_auth 9 (database [] []) request).admitted ≡ true)
    × ((require_auth 9 (database [] []) request).trust ≡ some false)
unfolding is_public
require_auth-tunnel_example = require_auth-tunnel 9 (database [] []) request refl refl refl

-- The device's token opens the API.
opened : (require_auth 9 (database [] []) request).admitted ≡ true
unfolding require_auth is_public device_by_token
opened = refl

require_auth-revoke_device_example :
    (require_auth 9 (revoke_device (database [] []) "d").1 request).admitted ≡ false
unfolding is_public
require_auth-revoke_device_example =
    require_auth-revoke_device 9 (database [] []) request "secret" "d" refl refl refl refl
      (refl, tt)
