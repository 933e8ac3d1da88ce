-- ===== src/Devices/Tests.antt =====
-- A token that moves from one user to another (app/repositories/device.py).
use help_me_bid_backend.Base.{ℕ, ◌≡◌, ◌≢◌, refl, true, String, none, some, [], ◌∷◌, map}
use help_me_bid_backend.Models.{Device}
use help_me_bid_backend.Store.{Store}
use help_me_bid_backend.Devices.{Registration, register}
use help_me_bid_backend.Devices.Tokens.{owners, register_moves}

abbrev phone : Device
phone = record {
  id = 3;
  user_id = 1;
  device_type = "ANDROID";
  push_token = "t1";
  device_name = none;
  app_version = none;
  is_active = true;
  last_seen_at = none;
  invalidated_at = none;
}

abbrev tablet : Device
tablet = record phone { id = 4; push_token = "t2" }

abbrev tables : Store
tables = record {
  users = [];
  preferences = [];
  devices = phone ∷ tablet ∷ [];
  ipos = [];
  deliveries = [];
  next_id = 100;
}

abbrev second_user : Registration
second_user = record {
  user_id = 2;
  device_type = "IOS";
  push_token = "t1";
  device_name = some "";
  app_version = some "2";
}

moved :
    map {B = ℕ × String} (λ d. (d.user_id, d.device_type)) (register second_user 9 tables).1.devices
    ≡ (2, "IOS") ∷ (1, "ANDROID") ∷ []
unfolding register
moved = refl

register_moves_example :
    (owners "t1" (register second_user 9 tables).1.devices ≡ 2 ∷ [])
    × ((t : String)
        → t ≢ "t1"
        → owners t (register second_user 9 tables).1.devices ≡ owners t tables.devices)
register_moves_example = register_moves second_user 9 tables (refl, (refl, tt))
