-- ===== src/Parsing.antt =====
-- The dates of app/utils/parsing.py. A date is its year, month and day; what the patterns find in
-- a text, and `strip_html` and `is_null_token`, are arguments.
pub mod Nearest
mod Tests
use help_me_bid_backend.Scraper.Columns.Words.{Texts}
use help_me_bid_backend.Base.{
  ℕ, ◌+◌, ◌-◌, ◌*◌, ◌/◌, ◌%◌, ◌==◌, ◌&&◌, ◌||◌, not, leb, ltb, String, Bool, true, false, Option,
  none, some, List, [], ◌∷◌, ◌++◌, str_eq, if◌then◌else◌,
}

pub record CalendarDate : Type 0 where
  pub year : ℕ
  pub month : ℕ
  pub day : ℕ

abbrev pub calendar_date : ℕ → ℕ → ℕ → CalendarDate
calendar_date y m d = record { year = y; month = m; day = d }

abbrev pub is_leap : ℕ → Bool
is_leap y = y % 4 == 0 && (not (y % 100 == 0) || y % 400 == 0)

-- The days of a month in a year that is not a leap year, and those of the months before it.
abbrev pub common_days : ℕ → ℕ
common_days m = if m == 2 then 28 else if m == 4 || m == 6 || m == 9 || m == 11 then 30 else 31

abbrev pub common_days_before : ℕ → ℕ
common_days_before m =
    if leb m 1
    then 0
    else if m == 2
    then 31
    else if m == 3
    then 59
    else if m == 4
    then 90
    else if m == 5
    then 120
    else if m == 6
    then 151
    else if m == 7
    then 181
    else if m == 8
    then 212
    else if m == 9
    then 243
    else if m == 10
    then 273
    else if m == 11
    then 304
    else 334

abbrev pub days_in_month : ℕ → ℕ → ℕ
days_in_month y m = if m == 2 && is_leap y then 29 else common_days m

unfoldable pub days_before_year : ℕ → ℕ
days_before_year y = let p = y - 1 in p * 365 + p / 4 - p / 100 + p / 400

unfoldable pub day_of_year : CalendarDate → ℕ
day_of_year t =
    common_days_before t.month + (if ltb 2 t.month && is_leap t.year then 1 else 0) + t.day

-- `date.toordinal`
abbrev pub ordinal : CalendarDate → ℕ
ordinal t = days_before_year t.year + day_of_year t

-- `abs((d - reference).days)`
abbrev pub distance : CalendarDate → CalendarDate → ℕ
distance d reference = (ordinal d - ordinal reference) + (ordinal reference - ordinal d)

-- The tests of `dt.date`.
abbrev pub is_date : ℕ → ℕ → ℕ → Bool
is_date y m d = leb 1 y && leb y 9999 && leb 1 m && leb m 12 && leb 1 d && leb d (days_in_month y m)

unfoldable pub safe_date : ℕ → ℕ → ℕ → Option CalendarDate
safe_date y m d = if is_date y m d then some (calendar_date y m d) else none

abbrev pub expand_year : ℕ → ℕ
expand_year y = if ltb y 100 then 2000 + y else y

-- `min(candidates, key=...)`, which keeps the first of the nearest.
abbrev pub nearer : CalendarDate → CalendarDate → CalendarDate → CalendarDate
nearer reference best d = if ltb (distance d reference) (distance best reference) then d else best

abbrev pub nearest : CalendarDate → CalendarDate → List CalendarDate → CalendarDate
nearest reference best [] = best
nearest reference best (d ∷ ds) = nearest reference (nearer reference best d) ds

abbrev pub found : Option CalendarDate → List CalendarDate
found none = []
found (some d) = d ∷ []

abbrev pub choose : CalendarDate → List CalendarDate → Option CalendarDate
choose reference [] = none
choose reference (d ∷ ds) = some (nearest reference d ds)

unfoldable pub infer_year : ℕ → ℕ → CalendarDate → Option CalendarDate
infer_year month day reference = choose reference (
    found (safe_date (reference.year - 1) month day)
    ++ found (safe_date reference.year month day)
    ++ found (safe_date (reference.year + 1) month day))

abbrev pub month_names : List (String × ℕ)
month_names =
    ("jan", 1)
    ∷ ("january", 1)
    ∷ ("feb", 2)
    ∷ ("february", 2)
    ∷ ("mar", 3)
    ∷ ("march", 3)
    ∷ ("apr", 4)
    ∷ ("april", 4)
    ∷ ("may", 5)
    ∷ ("jun", 6)
    ∷ ("june", 6)
    ∷ ("jul", 7)
    ∷ ("july", 7)
    ∷ ("aug", 8)
    ∷ ("august", 8)
    ∷ ("sep", 9)
    ∷ ("sept", 9)
    ∷ ("september", 9)
    ∷ ("oct", 10)
    ∷ ("october", 10)
    ∷ ("nov", 11)
    ∷ ("november", 11)
    ∷ ("dec", 12)
    ∷ ("december", 12)
    ∷ []

abbrev pub month_number : List (String × ℕ) → String → Option ℕ
month_number [] word = none
month_number ((name, n) ∷ rest) word = if str_eq name word then some n else month_number rest word

-- What the four patterns find: year, month and day; day, word and year; the same with the word
-- first; day, month and year.
pub record DatePatterns : Type 0 where
  pub texts : Texts
  pub iso : String → Option (ℕ × ℕ × ℕ)
  pub named : String → Option (ℕ × String × Option ℕ)
  pub named_first : String → Option (ℕ × String × Option ℕ)
  pub numeric : String → Option (ℕ × ℕ × ℕ)

-- A day of a month, with its year or without.
abbrev pub day_in : CalendarDate → ℕ → ℕ → Option ℕ → Option CalendarDate
day_in reference month day (some year) = safe_date (expand_year year) month day
day_in reference month day none = infer_year month day reference

module _ (p : DatePatterns) (reference : CalendarDate) where
  abbrev pub by_numbers : Option (ℕ × ℕ × ℕ) → Option CalendarDate
  by_numbers none = none
  by_numbers (some (day, month, year)) = safe_date (expand_year year) month day

  -- A word that names no month leaves the text to the later patterns.
  abbrev pub by_month : Option (ℕ × String × Option ℕ) → Option CalendarDate → Option CalendarDate
  by_month none later = later
  by_month (some (day, word, year)) later = elim (month_number month_names (p.texts.lower word)) [
    | none ↦ later
    | some month ↦ day_in reference month day year
  ]

  abbrev pub by_iso : Option (ℕ × ℕ × ℕ) → Option CalendarDate → Option CalendarDate
  by_iso none later = later
  by_iso (some (year, month, day)) later = safe_date year month day

  unfoldable pub parse_date : String → Option CalendarDate
  parse_date value =
      let text = p.texts.strip_html value in
      if p.texts.is_null_token text
      then none
      else by_iso (p.iso text)
          (by_month (p.named text) (by_month (p.named_first text) (by_numbers (p.numeric text))))
