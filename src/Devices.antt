-- ===== src/Devices.antt =====
-- `DeviceRepository` of app/repositories/device.py and `DeviceService` of
-- app/services/notifications/service.py. The instants that `utc_now()` returns are arguments.
-- `push_token` is unique in the table, so a query by token has at most one row.
pub mod Tokens
mod Tests
use help_me_bid_backend.Base.{
  ℕ, suc, ◌==◌, ◌&&◌, String, Bool, true, false, Option, none, some, List, [], ◌∷◌, find, filter,
  update, str_eq, if◌then◌else◌,
}
use help_me_bid_backend.Models.{Device}
use help_me_bid_backend.Store.{Store, text_or}

abbrev pub has_token : String → Device → Bool
has_token token d = str_eq d.push_token token

unfoldable pub list_active_for_user : ℕ → Store → List Device
list_active_for_user user_id s = filter (λ d. d.user_id == user_id && d.is_active) s.devices

unfoldable pub list_for_user : ℕ → Store → List Device
list_for_user user_id s = filter (λ d. d.user_id == user_id) s.devices

unfoldable pub get_for_user : ℕ → ℕ → Store → Option Device
get_for_user device_id user_id s = find (λ d. d.id == device_id && d.user_id == user_id) s.devices

-- `given or current`
abbrev or_else : Option String → Option String → Option String
or_else none current = current
or_else (some String.[]) current = current
or_else (some (String.◌∷◌ c t)) current = some (String.◌∷◌ c t)

pub record Registration : Type 0 where
  pub user_id : ℕ
  pub device_type : String
  pub push_token : String
  pub device_name : Option String
  pub app_version : Option String

abbrev refreshed : Registration → ℕ → Device → Device
refreshed r now d = record d {
  user_id = r.user_id;
  device_type = r.device_type;
  device_name = or_else r.device_name d.device_name;
  app_version = or_else r.app_version d.app_version;
  is_active = true;
  invalidated_at = none;
  last_seen_at = some now;
}

abbrev new_device : ℕ → Registration → ℕ → Device
new_device id r now = record {
  id = id;
  user_id = r.user_id;
  device_type = r.device_type;
  push_token = r.push_token;
  device_name = r.device_name;
  app_version = r.app_version;
  is_active = true;
  last_seen_at = some now;
  invalidated_at = none;
}

-- A known token moves to the registering user; the device comes back with the new table.
unfoldable pub register : Registration → (now : ℕ) → Store → Device × Store
register r now s = elim (find (has_token r.push_token) s.devices) [
  | some existing ↦ (
    refreshed r now existing,
    record s { devices = update (has_token r.push_token) (refreshed r now) s.devices },
  )
  | none ↦ (
    new_device s.next_id r now,
    record s { devices = new_device s.next_id r now ∷ s.devices; next_id = suc s.next_id },
  )
]

unfoldable pub deactivate : Device → Store → Store
deactivate device s = record s {
  devices = update (λ d. d.id == device.id) (λ d. record d { is_active = false }) s.devices;
}

-- `none` is `DeviceNotFoundError`.
unfoldable pub deregister : (device_id user_id : ℕ) → Store → Option Store
deregister device_id user_id s = elim (get_for_user device_id user_id s) [
  | none ↦ none
  | some device ↦ some (deactivate device s)
]

-- Nothing happens, and the clock is not read, if no device has the token.
unfoldable pub invalidate_token : String → (now : ℕ) → Store → Store
invalidate_token token now s = record s {
  devices =
      update (has_token token) (λ d. record d { is_active = false; invalidated_at = some now })
        s.devices;
}
