-- ===== src/Scraper/Normalizer/Cells.antt =====
-- What the normalizer of app/services/scraper/normalizer.py takes from outside, and how it reads a
-- cell. What regular expressions and the decimal library read in a text is an argument; a decimal
-- is a whole number of millionths.
use help_me_bid_backend.Base.{ℕ, String, Bool, Option, none, some, List, str_eq, if◌then◌else◌}
use help_me_bid_backend.Base.Int.{ℤ}
use help_me_bid_backend.Scraper.Stages.{ExtractedRecord}
use help_me_bid_backend.Scraper.Columns.{cell}
use help_me_bid_backend.Scraper.Columns.Words.{Texts}

-- The readers of app/utils/parsing.py and of the patterns of the normalizer: the text of the first
-- link and its target, the texts of the badges, the number at the end of a URL, what comes before
-- the range of a premium, that range, and `str.upper`, `str.isdigit` and `str.count`.
pub record Readers : Type 0 where
  pub texts : Texts
  pub parse_decimal : String → Option ℤ
  pub parse_int : String → Option ℤ
  pub parse_percentage : String → Option ℤ
  pub parse_multiplier : String → Option ℤ
  pub parse_amount_in_crore : String → Option ℤ
  pub parse_date : String → (reference : ℕ) → Option ℕ
  pub decimal_of : String → Option ℤ
  pub price_range : String → Option (String × String)
  pub anchor_text : String → Option String
  pub first_link_href : String → Option String
  pub extract_badges : String → List String
  pub trailing_number : String → Option String
  pub before_range : String → String
  pub gmp_range : String → Option (String × String)
  pub upper : String → String
  pub is_digits : String → Bool
  pub count : (text glyph : String) → ℕ

abbrev pub or_else {ℓ} : {A : Type ℓ} → Option A → Option A → Option A
or_else (some a) later = some a
or_else none later = later

abbrev pub and_then {ℓ κ} : {A : Type ℓ} {B : Type κ} → Option A → (A → Option B) → Option B
and_then none f = none
and_then (some a) f = f a

-- `text[:n] or None`, where an empty text is None.
abbrev pub non_empty : String → Option String
non_empty s = if str_eq s "" then none else some s

module _ (q : Readers) where
  abbrev pub get : String → ExtractedRecord → Option String
  get name r = cell name r.fields

  abbrev pub is_blank : String → Bool
  is_blank v = q.texts.is_null_token v

  -- The cell, unless it is None or one of the spellings of nothing.
  abbrev pub given : Option String → Option String
  given none = none
  given (some v) = if is_blank v then none else some v
