-- ===== src/Dates/Tests.antt =====
-- Runs of app/utils/dates.py on concrete input.
use help_me_bid_backend.Base.{◌≡◌, refl, some, none}
use help_me_bid_backend.Dates.{period_index}

third_hour : period_index 10_800_000_000 180 ≡ some 1
unfolding period_index
third_hour = refl

no_interval : period_index 10_800_000_000 0 ≡ none
unfolding period_index
no_interval = refl
