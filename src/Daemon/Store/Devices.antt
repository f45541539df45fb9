-- ===== src/Daemon/Store/Devices.antt =====
-- crates/daemon/src/db.rs: the server's identity and the enrolled devices.
use agent_workspace.Prelude.{
  ℕ, String, Bool, true, not, ◌&&◌, ◌||◌, Option, none, some, List, [], ◌∷◌, ◌++◌, str_eq, ltb,
  if◌then◌else◌, unwrap_or, map_option,
}
use agent_workspace.Daemon.Domain.{Device}
use agent_workspace.Daemon.Store.{Db}
use agent_workspace.Daemon.Store.Query.{exists, first, update, order_by}

-- `INSERT OR IGNORE`: an identity that stands is kept. It is a server id and a token.
unfoldable get_or_create_identity : Db → String → String → (String × String) × Db
get_or_create_identity db server_id token =
    let held = unwrap_or (server_id, token) db.identity in
    (held, record db { identity = some held })

abbrev reconfigured : Option String → Option (String × String) → Option (String × String)
reconfigured (some token) (some held) = some (held.0, token)
reconfigured configured held = held

-- The token in effect, if there is an identity.
unfoldable apply_enrollment_token : Db → Option String → Option String × Db
apply_enrollment_token db configured =
    let identity = reconfigured configured db.identity in
    (map_option (λ held. held.1) identity, record db { identity = identity })

-- A device's id is the primary key, and its token is unique.
unfoldable insert_device : Db → Device → Option Db
insert_device db d =
    if exists (λ held. str_eq held.id d.id || str_eq held.token d.token) db.devices
    then none
    else some (record db { devices = db.devices ++ d ∷ [] })

abbrev admits : String → Device → Bool
admits token d = str_eq d.token token && not d.revoked

unfoldable pub device_by_token : Db → String → Option Device
device_by_token db token = first (admits token) db.devices

unfoldable list_devices : Db → List Device
list_devices db = order_by (λ a b. ltb b.created_at a.created_at) db.devices

abbrev is_device : String → Device → Bool
is_device id d = str_eq d.id id

unfoldable pub revoke_device : Db → String → Bool × Db
revoke_device db id = (
  exists (is_device id) db.devices,
  record db { devices = update (is_device id) (λ d. record d { revoked = true }) db.devices },
)

unfoldable pub touch_device : Db → String → ℕ → Db
touch_device db id now = record db {
  devices = update (is_device id) (λ d. record d { last_seen_at = now }) db.devices;
}
