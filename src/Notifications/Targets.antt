-- ===== src/Notifications/Targets.antt =====
-- `_primary_channel` and `_targets_for` of app/services/notifications/engine.py.
pub mod Reach
use help_me_bid_backend.Base.{
  ℕ, suc, ◌+◌, ◌==◌, not, ◌&&◌, String, Bool, true, false, Option, none, some, List, [], ◌∷◌,
  length, map, find, is_some, if◌then◌else◌,
}
use help_me_bid_backend.Base.Int.{ℤ, pos, eqb_ℤ, ltb_ℤ}
use help_me_bid_backend.Dates.{Zone, today_in_app_timezone, period_index}
use help_me_bid_backend.Models.{
  Ipo, User, Device, NotificationPreference, close_date, gmp_percentage,
}
use help_me_bid_backend.Store.{Store, text_or}
use help_me_bid_backend.Devices
use help_me_bid_backend.Devices.{has_token}
use help_me_bid_backend.Ipos.Closing.{list_closing_on}
use help_me_bid_backend.Notifications.Rules.{rule_matches_ipo, within_notification_window}
use help_me_bid_backend.Notifications.Ledger.{Claim, claim, mark_sent, mark_failed, mark_skipped}
use help_me_bid_backend.Notifications.Providers.{
  DeviceType, android, ios, web, NotificationChannel, push, webpush, log, device_type, channel,
  channel_value, NotificationMessage, DeviceTarget, SendResult,
}
use help_me_bid_backend.Notifications.Preferences.{list_active_with_users, mark_evaluated}
use help_me_bid_backend.Notifications.Engine.Messages.{Texts, build_message}

abbrev primary_channel_of : Option NotificationChannel → NotificationChannel → NotificationChannel
primary_channel_of none rest = rest
primary_channel_of (some c) rest = c

-- `_primary_channel`
unfoldable pub primary_channel : List String → NotificationChannel
primary_channel [] = push
primary_channel (raw ∷ raws) = primary_channel_of (channel raw) (primary_channel raws)

abbrev pub is_wanted : NotificationChannel → DeviceType → Bool
is_wanted log t = true
is_wanted webpush web = true
is_wanted webpush t = false
is_wanted push web = false
is_wanted push t = true

-- The body of the loop in `_targets_for`; a device of an unknown type is passed over.
abbrev target_of : NotificationChannel → Device → Option DeviceTarget
target_of c d = elim (device_type d.device_type) [
  | none ↦ none
  | some t ↦
      if is_wanted c t
      then some (record { device_id = d.id; device_type = t; push_token = d.push_token })
      else none
]

abbrev add_target : Option DeviceTarget → List DeviceTarget → List DeviceTarget
add_target none targets = targets
add_target (some t) targets = t ∷ targets

abbrev targets_from : NotificationChannel → List Device → List DeviceTarget
targets_from c [] = []
targets_from c (d ∷ ds) = add_target (target_of c d) (targets_from c ds)

-- `_targets_for`
unfoldable pub targets_for : ℕ → NotificationChannel → Store → List DeviceTarget
targets_for user_id c s = targets_from c (Devices.list_active_for_user user_id s)
