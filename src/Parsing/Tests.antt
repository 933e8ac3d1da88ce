-- ===== src/Parsing/Tests.antt =====
-- "1-Jan" and "Jan 1", read in late December, and a leap day with no leap year near.
use help_me_bid_backend.Base.{inr, ◌≡◌, ◌≤◌, refl, arith, false, none, some, str_eq, if◌then◌else◌}
use help_me_bid_backend.Scraper.Columns.Words.{Texts}
use help_me_bid_backend.Parsing.{
  CalendarDate, calendar_date, days_before_year, day_of_year, distance, safe_date, infer_year,
  DatePatterns, parse_date,
}
use help_me_bid_backend.Parsing.Nearest.{parse_date_near}

abbrev plain : Texts
plain = record {
  strip_html = λ s. s;
  lower = λ s. if str_eq s "Jan" then "jan" else s;
  is_null_token = λ s. str_eq s "";
  looks_like = λ shape s. false;
}

abbrev patterns : DatePatterns
patterns = record {
  texts = plain;
  iso = λ s. none;
  named = λ s. if str_eq s "1-Jan" then some (1, "Jan", none) else none;
  named_first = λ s. if str_eq s "Jan 1" then some (1, "Jan", none) else none;
  numeric = λ s. if str_eq s "03/09/26" then some (3, 9, 26) else none;
}

abbrev december : CalendarDate
december = calendar_date 2026 12 28

numeric_date : parse_date patterns december "03/09/26" ≡ some (calendar_date 2026 9 3)
unfolding parse_date safe_date
numeric_date = refl

no_leap_day : infer_year 2 29 december ≡ none
unfolding infer_year safe_date
no_leap_day = refl

new_year : parse_date patterns december "1-Jan" ≡ some (calendar_date 2027 1 1)
unfolding parse_date infer_year safe_date days_before_year day_of_year
new_year = refl

month_first : parse_date patterns december "Jan 1" ≡ some (calendar_date 2027 1 1)
unfolding parse_date infer_year safe_date days_before_year day_of_year
month_first = refl

parse_date_near_example :
    (x : CalendarDate) × (parse_date patterns december "Jan 1" ≡ some x)
    × (x.month ≡ 1)
    × (x.day ≡ 1)
    × (distance x december ≤ 183)
unfolding safe_date
parse_date_near_example =
    parse_date_near patterns december "Jan 1" "Jan" 1 1 refl refl (inr (tt, refl)) refl
      (omega arith) (omega arith) (omega arith) (omega arith) (omega arith) (omega arith) refl
