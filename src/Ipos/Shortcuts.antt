-- ===== src/Ipos/Shortcuts.antt =====
-- `resolve_date_shortcut` of app/schemas/ipo.py. Day 0 of the calendar is Thursday 1970-01-01, and
-- dates lie after its first week, so that no subtraction goes below day 0.
pub mod Weeks
mod Tests
use help_me_bid_backend.Base.{ℕ, ◌+◌, ◌-◌, ◌%◌}

-- `DateShortcut`
pub data DateShortcut : Type 0 where
  this_day tomorrow yesterday this_week next_week : DateShortcut

-- `today.weekday()`: Monday is 0.
abbrev pub weekday : ℕ → ℕ
weekday date = (date + 3) % 7

unfoldable pub resolve_date_shortcut : DateShortcut → (today : ℕ) → ℕ × ℕ
resolve_date_shortcut this_day today = (today, today)
resolve_date_shortcut tomorrow today = (today + 1, today + 1)
resolve_date_shortcut yesterday today = (today - 1, today - 1)
resolve_date_shortcut this_week today = (today - weekday today, today - weekday today + 6)
resolve_date_shortcut next_week today = (today - weekday today + 7, today - weekday today + 7 + 6)
