-- ===== src/Notifications/Rules.antt =====
-- `rule_matches_ipo` and `within_notification_window` of app/services/notifications/engine.py.
pub mod Eligible
use help_me_bid_backend.Base.{
  ℕ, String, Bool, true, false, not, ◌&&◌, ◌||◌, Option, none, some, List, [], ◌∷◌, contains, leb,
  ltb, ◌==◌, if◌then◌else◌, is_some,
}
use help_me_bid_backend.Base.Int.{ℤ, ltb_ℤ}
use help_me_bid_backend.Dates.{Zone, current_hour_in_app_timezone}
use help_me_bid_backend.Models.{
  Ipo, NotificationPreference, close_date, gmp_percentage, ipo_type, exchange, subscription_times,
}

-- `ipo.close_date is None or ipo.close_date != today`
abbrev other_day : Option ℕ → ℕ → Bool
other_day none today = true
other_day (some d) today = not (d == today)

-- `wanted and value not in wanted`: neither null nor an empty list restricts.
abbrev excludes : Option (List String) → Option String → Bool
excludes none value = false
excludes (some []) value = false
excludes (some (w ∷ ws)) none = true
excludes (some (w ∷ ws)) (some s) = not (contains s (w ∷ ws))

-- `bound is not None and value > bound`
abbrev above : ℤ → Option ℤ → Bool
above value none = false
above value (some bound) = ltb_ℤ bound value

-- The last test: a missing figure fails a rule that sets a minimum.
abbrev under_subscribed : Option ℤ → Option ℤ → Bool
under_subscribed none times = false
under_subscribed (some least) none = true
under_subscribed (some least) (some times) = ltb_ℤ times least

abbrev narrows : NotificationPreference → Ipo → Bool
narrows preference ipo =
    if excludes preference.ipo_types (ipo.columns ipo_type)
    then false
    else if excludes preference.exchanges (ipo.columns exchange)
    then false
    else not (under_subscribed preference.min_subscription_times (ipo.columns subscription_times))

unfoldable pub rule_matches_ipo : NotificationPreference → Ipo → ℕ → Bool
rule_matches_ipo preference ipo today =
    if preference.only_on_close_date && other_day (ipo.columns close_date) today
    then false
    else elim (ipo.columns gmp_percentage) [
      | none ↦ false
      | some percentage ↦
          if ltb_ℤ percentage preference.min_gmp_percentage
          then false
          else if above percentage preference.max_gmp_percentage
          then false
          else narrows preference ipo
    ]

-- `settings.notification_window_start_hour` and `..._end_hour` are arguments.
unfoldable pub within_notification_window : Zone → (start_hour end_hour now : ℕ) → Bool
within_notification_window zone start_hour end_hour now =
    leb start_hour (current_hour_in_app_timezone zone now)
    && ltb (current_hour_in_app_timezone zone now) end_hour
