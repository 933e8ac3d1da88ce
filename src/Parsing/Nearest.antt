-- ===== src/Parsing/Nearest.antt =====
-- The year that `_infer_year` of app/utils/parsing.py chooses.
use help_me_bid_backend.Base.{
  ℕ, ◌+◌, ◌-◌, ◌≤◌, ◌≡◌, refl, arith, false, String, Option, none, some, ◌⊎◌, inl, inr, ◌∙◌,
}
use help_me_bid_backend.Parsing.{
  CalendarDate, calendar_date, common_days, days_in_month, days_before_year, day_of_year, distance,
  safe_date, nearer, infer_year, DatePatterns, month_number, month_names, parse_date, by_month,
  by_numbers,
}

-- A year has 365 or 366 days.
year_before :
    (y : ℕ)
    → 2 ≤ y
    → (days_before_year (y - 1) + 365 ≤ days_before_year y)
      × (days_before_year y ≤ days_before_year (y - 1) + 366)
unfolding days_before_year
year_before y h = (omega arith, omega arith)

year_after :
    (y : ℕ)
    → 1 ≤ y
    → (days_before_year y + 365 ≤ days_before_year (y + 1))
      × (days_before_year (y + 1) ≤ days_before_year y + 366)
unfolding days_before_year
year_after y h = (omega arith, omega arith)

-- The conditions of `dt.date` on a month and a day.
record IsDay (y m d : ℕ) : Type 0 where
  first : 1 ≤ m
  last : m ≤ 12
  low : 1 ≤ d
  high : d ≤ days_in_month y m

day_of_year_range :
    (y m d : ℕ)
    → IsDay y m d
    → (1 ≤ day_of_year (calendar_date y m d)) × (day_of_year (calendar_date y m d) ≤ 366)
unfolding day_of_year
day_of_year_range y m d h =
    let first = h.first in
    let last = h.last in let low = h.low in let high = h.high in (ground arith, ground arith)

-- The same day of two years is at most one day off.
same_day : (y z m d : ℕ) → day_of_year (calendar_date y m d) ≤ day_of_year (calendar_date z m d) + 1
unfolding day_of_year
same_day y z m d = ground arith

every_year : (m d : ℕ) → 1 ≤ m → m ≤ 12 → 1 ≤ d → d ≤ common_days m → (y : ℕ) → IsDay y m d
every_year m d first last low common y = record {
  first = first;
  last = last;
  low = low;
  high = ground arith;
}

safe_date-some :
    (y m d : ℕ) → 1 ≤ y → y ≤ 9999 → IsDay y m d → safe_date y m d ≡ some (calendar_date y m d)
unfolding safe_date
safe_date-some y m d h k i =
    let first = i.first in let last = i.last in let low = i.low in let high = i.high in ground arith

-- What `dt.date` accepted has such a month and such a day.
date-IsDay : (y m d : ℕ) (x : CalendarDate) → safe_date y m d ≡ some x → IsDay y m d
unfolding safe_date
date-IsDay y m d x h = record {
  first = ground (arith, h);
  last = ground (arith, h);
  low = ground (arith, h);
  high = ground (arith, h);
}

-- Of the same day in three years in a row, the nearest to a day of the middle one.
three_years :
    (y m d rm rd : ℕ)
    → 2 ≤ y
    → ((z : ℕ) → IsDay z m d)
    → IsDay y rm rd
    → let reference = calendar_date y rm rd in
      let best = nearer reference (calendar_date (y - 1) m d) (calendar_date y m d) in
      distance (nearer reference best (calendar_date (y + 1) m d)) reference ≤ 183
three_years y m d rm rd h i r =
    let (b1, b2) = year_before y h in
    let (a1, a2) = year_after y (omega arith) in
    let (p1, p2) = day_of_year_range (y - 1) m d (i (y - 1)) in
    let (q1, q2) = day_of_year_range y m d (i y) in
    let (s1, s2) = day_of_year_range (y + 1) m d (i (y + 1)) in
    let (r1, r2) = day_of_year_range y rm rd r in
    let x1 = same_day y (y - 1) m d in let x2 = same_day (y + 1) y m d in ground arith

chosen-has :
    (y z w m d : ℕ) (reference : CalendarDate)
    → let best = nearer reference (calendar_date y m d) (calendar_date z m d) in
      let last = nearer reference best (calendar_date w m d) in (last.month ≡ m) × (last.day ≡ d)
chosen-has y z w m d reference = (ground arith, ground arith)

infer_year_near :
    (month day : ℕ) (reference : CalendarDate)
    → 1 ≤ month
    → month ≤ 12
    → 1 ≤ day
    → day ≤ common_days month
    → 2 ≤ reference.year
    → reference.year ≤ 9998
    → safe_date reference.year reference.month reference.day ≡ some reference
    → (x : CalendarDate) × (infer_year month day reference ≡ some x)
      × (x.month ≡ month)
      × (x.day ≡ day)
      × (distance x reference ≤ 183)
unfolding infer_year
infer_year_near month day reference first last low common early late valid =
    let y = reference.year in
    let i = every_year month day first last low common in
    let best = nearer reference (calendar_date (y - 1) month day) (calendar_date y month day) in
    let (same_month, same_day) = chosen-has (y - 1) y (y + 1) month day reference in
    (
      nearer reference best (calendar_date (y + 1) month day),
      rw
          (
            safe_date-some (y - 1) month day (omega arith) (omega arith) (i (y - 1)),
            safe_date-some y month day (omega arith) (omega arith) (i y),
            safe_date-some (y + 1) month day (omega arith) (omega arith) (i (y + 1)),
          )
          refl,
      same_month,
      same_day,
      three_years y month day reference.month reference.day early i
          (date-IsDay y reference.month reference.day reference valid),
    )

-- The first pattern with the name of a month finds nothing, or a word that names none.
abbrev pub FindsNoMonth : DatePatterns → Option (ℕ × String × Option ℕ) → Type 0
FindsNoMonth p none = Unit
FindsNoMonth p (some (day, word, year)) = month_number month_names (p.texts.lower word) ≡ none

-- What the two patterns with the name of a month find in a text: the day before the name or, where
-- that finds no month, after it.
abbrev pub Finds : DatePatterns → String → ℕ × String × Option ℕ → Type 0
Finds p text found =
    (p.named text ≡ some found) ⊎ FindsNoMonth p (p.named text) × (p.named_first text ≡ some found)

by_month_skips :
    (p : DatePatterns) (reference : CalendarDate) (found : Option (ℕ × String × Option ℕ))
    (later : Option CalendarDate)
    → FindsNoMonth p found
    → by_month p reference found later ≡ later
by_month_skips p reference none later h = refl
by_month_skips p reference (some (day, word, year)) later h = rw (h, by_month) refl

by_month_found :
    (p : DatePatterns) (reference : CalendarDate) (text word : String) (day month : ℕ)
    (later : Option CalendarDate)
    → Finds p text (day, word, none)
    → month_number month_names (p.texts.lower word) ≡ some month
    → by_month p reference (p.named text) (by_month p reference (p.named_first text) later)
      ≡ infer_year month day reference
by_month_found p reference text word day month later (inl named) known =
    rw named (rw (known, by_month) refl)
by_month_found p reference text word day month later (inr (unnamed, first)) known =
    by_month_skips p reference (p.named text) (by_month p reference (p.named_first text) later)
      unnamed
    ∙ rw first (rw (known, by_month) refl)

-- A text that has no date in ISO form, and in which a day and the name of a month are found and no
-- year, the day before the name (or, where that finds no month, after it): where every year has
-- that day, and the reference date is in a year from 2 to 9998, the text is read as a date with that
-- month and that day, at most 183 days from the reference.
pub parse_date_near :
    (p : DatePatterns) (reference : CalendarDate) (value word : String) (day month : ℕ)
    → p.texts.is_null_token (p.texts.strip_html value) ≡ false
    → p.iso (p.texts.strip_html value) ≡ none
    → Finds p (p.texts.strip_html value) (day, word, none)
    → month_number month_names (p.texts.lower word) ≡ some month
    → 1 ≤ month
    → month ≤ 12
    → 1 ≤ day
    → day ≤ common_days month
    → 2 ≤ reference.year
    → reference.year ≤ 9998
    → safe_date reference.year reference.month reference.day ≡ some reference
    → (x : CalendarDate) × (parse_date p reference value ≡ some x)
      × (x.month ≡ month)
      × (x.day ≡ day)
      × (distance x reference ≤ 183)
unfolding parse_date
parse_date_near p reference value word day month given no_iso finds known first last low common
      early late valid =
    let text = p.texts.strip_html value in
    let (x, chosen, m, d, near) =
      infer_year_near month day reference first last low common early late valid in
    let read =
      by_month_found p reference text word day month (by_numbers p reference (p.numeric text)) finds
        known in
    (x, rw (given, no_iso) (read ∙ chosen), m, d, near)
