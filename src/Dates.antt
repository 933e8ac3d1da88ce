-- ===== src/Dates.antt =====
-- app/utils/dates.py. An instant is a number of microseconds since the Unix epoch (the program
-- runs after 1970), a date the number of days since 1970-01-01. The time zone database is not
-- part of the program: `Zone` takes an instant to the wall clock of `settings.timezone`, in
-- microseconds since 1970-01-01T00:00 of that clock.
pub mod Periods
mod Tests
use help_me_bid_backend.Base.{ℕ, ◌*◌, ◌/◌, ◌%◌, Option, none, some, ltb, if◌then◌else◌}

abbrev pub second : ℕ
second = 1_000_000

abbrev pub hour : ℕ
hour = 3_600_000_000

abbrev pub day : ℕ
day = 86_400_000_000

abbrev pub Zone : Type 0
Zone = ℕ → ℕ

-- `to_app_timezone(now).date()`
unfoldable pub today_in_app_timezone : Zone → ℕ → ℕ
today_in_app_timezone to_app_timezone now = to_app_timezone now / day

unfoldable pub current_hour_in_app_timezone : Zone → ℕ → ℕ
current_hour_in_app_timezone to_app_timezone now = to_app_timezone now % day / hour

-- `none` is the `ValueError`.
unfoldable pub period_index : ℕ → ℕ → Option ℕ
period_index now interval_minutes =
    if ltb interval_minutes 1 then none else some (now / second / (interval_minutes * 60))
