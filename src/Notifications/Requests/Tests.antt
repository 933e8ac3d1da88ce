-- ===== src/Notifications/Requests/Tests.antt =====
-- A request with a channel twice, and one with an upper bound below the lower one.
use help_me_bid_backend.Base.{◌≡◌, refl, true, none, some, [], ◌∷◌}
use help_me_bid_backend.Models.{units}
use help_me_bid_backend.Store.{truncate}
use help_me_bid_backend.Notifications.Preferences.{PreferenceValues}
use help_me_bid_backend.Notifications.Requests.{fields_pass, check_bounds, accept}
use help_me_bid_backend.Notifications.Requests.Accepted.{IsAccepted, accept-IsAccepted}

abbrev asked : PreferenceValues
asked = record {
  label = some "High";
  is_enabled = true;
  min_gmp_percentage = units 15;
  max_gmp_percentage = some (units 40);
  interval_minutes = 180;
  only_on_close_date = true;
  ipo_types = some ("SME" ∷ "MAINBOARD" ∷ "SME" ∷ []);
  exchanges = none;
  min_subscription_times = none;
  channels = "PUSH" ∷ "PUSH" ∷ [];
}

abbrev stored : PreferenceValues
stored = record asked { ipo_types = some ("SME" ∷ "MAINBOARD" ∷ []); channels = "PUSH" ∷ [] }

accepted : accept asked ≡ some stored
unfolding accept check_bounds fields_pass truncate
accepted = refl

upside_down : accept (record asked { max_gmp_percentage = some (units 10) }) ≡ none
unfolding accept check_bounds fields_pass truncate
upside_down = refl

too_often : accept (record asked { interval_minutes = 14 }) ≡ none
unfolding accept fields_pass truncate
too_often = refl

accept-IsAccepted_example : IsAccepted asked stored
accept-IsAccepted_example = accept-IsAccepted asked stored accepted
