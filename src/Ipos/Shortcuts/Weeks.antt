-- ===== src/Ipos/Shortcuts/Weeks.antt =====
-- The ranges of the date shortcuts (app/schemas/ipo.py) in the calendar.
use help_me_bid_backend.Base.{ℕ, ◌+◌, ◌-◌, ◌≤◌, ◌≡◌, refl, arith}
use help_me_bid_backend.Ipos.Shortcuts.{this_week, next_week, weekday, resolve_date_shortcut}

abbrev pub InRange : ℕ × ℕ → ℕ → Type 0
InRange r date = (r.0 ≤ date) × (date ≤ r.1)

-- On any day from the second week of 1970 on, the range of this week runs from a Monday to the
-- Sunday six days later and has today in it, and the range of next week is the seven days that
-- follow that Sunday.
resolve_date_shortcut_lem :
    (today : ℕ)
    → 7 ≤ today
    → let (monday, sunday) = resolve_date_shortcut this_week today in
      (weekday monday ≡ 0)
      × (weekday sunday ≡ 6)
      × InRange (monday, sunday) today
      × (sunday ≡ monday + 6)
      × (resolve_date_shortcut next_week today ≡ (sunday + 1, sunday + 7))
unfolding resolve_date_shortcut
resolve_date_shortcut_lem today h =
    let monday = today - weekday today in
    let starts : monday + 7 ≡ monday + 6 + 1 = omega arith in
    let ends : monday + 7 + 6 ≡ monday + 6 + 7 = omega arith in
    (omega arith, omega arith, (omega arith, omega arith), refl, λ i. (starts i, ends i))
