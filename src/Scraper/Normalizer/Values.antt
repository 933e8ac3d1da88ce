-- ===== src/Scraper/Normalizer/Values.antt =====
-- The figures and labels of an issue (app/services/scraper/normalizer.py, and `parse_price_band` of
-- app/utils/parsing.py).
use help_me_bid_backend.Base.{
  ℕ, ◌==◌, ◌&&◌, ◌||◌, leb, ltb, String, Bool, true, false, Option, none, some, List, [], ◌∷◌, ◌++◌,
  any, contains, str_eq, if◌then◌else◌,
}
use help_me_bid_backend.Base.Int.{ℤ, pos, ◌+ℤ◌, leb_ℤ, ltb_ℤ}
use help_me_bid_backend.Store.{truncate, split_on}
use help_me_bid_backend.Scraper.Stages.{ExtractedRecord}
use help_me_bid_backend.Scraper.Columns.{cell}
use help_me_bid_backend.Scraper.Columns.Words.{is_in}
use help_me_bid_backend.Scraper.Normalizer.Cells.{
  Readers, or_else, and_then, non_empty, get, given, is_blank,
}

pub data IpoType : Type 0 where
  mainboard sme unknown_type : IpoType

pub data Exchange : Type 0 where
  nse bse nse_sme bse_sme nse_bse unknown_exchange : Exchange

abbrev pub type_value : IpoType → String
type_value mainboard = "MAINBOARD"
type_value sme = "SME"
type_value unknown_type = "UNKNOWN"

abbrev pub exchange_value : Exchange → String
exchange_value nse = "NSE"
exchange_value bse = "BSE"
exchange_value nse_sme = "NSE_SME"
exchange_value bse_sme = "BSE_SME"
exchange_value nse_bse = "NSE_BSE"
exchange_value unknown_exchange = "UNKNOWN"

abbrev type_keywords : List (String × IpoType)
type_keywords =
    ("sme", sme) ∷ ("mainboard", mainboard) ∷ ("main board", mainboard) ∷ ("ipo", mainboard) ∷ []

abbrev exchange_keywords : List (String × Exchange)
exchange_keywords =
    ("nse sme", nse_sme)
    ∷ ("nse emerge", nse_sme)
    ∷ ("emerge", nse_sme)
    ∷ ("bse sme", bse_sme)
    ∷ ("bse startup", bse_sme)
    ∷ ("nse bse", nse_bse)
    ∷ ("bse nse", nse_bse)
    ∷ ("nse", nse)
    ∷ ("bse", bse)
    ∷ []

abbrev by_keyword {ℓ} : {A : Type ℓ} → List (String × A) → String → Option A
by_keyword [] text = none
by_keyword ((keyword, a) ∷ rest) text = if is_in keyword text then some a else by_keyword rest text

-- `_estimated_listing_price`
abbrev pub sum : Option ℤ → Option ℤ → Option ℤ
sum (some a) (some b) = some (a +ℤ b)
sum _ _ = none

module _ (q : Readers) where
  -- `parse_price_band`
  abbrev pub ordered_band : Option ℤ → Option ℤ → Option ℤ × Option ℤ
  ordered_band (some low) (some high) =
      if leb_ℤ low high then (some low, some high) else (some high, some low)
  ordered_band _ _ = (none, none)

  abbrev pub band_of : Option (String × String) → String → Option ℤ × Option ℤ
  band_of (some (low, high)) text = ordered_band (q.decimal_of low) (q.decimal_of high)
  band_of none text = (q.parse_decimal text, q.parse_decimal text)

  unfoldable pub parse_price_band : String → Option ℤ × Option ℤ
  parse_price_band value =
      let text = q.texts.strip_html value in
      if is_blank q text then (none, none) else band_of (q.price_range text) text

  abbrev pub price_band : Option String → Option ℤ × Option ℤ
  price_band none = (none, none)
  price_band (some v) = parse_price_band v

  abbrev pub premium_of : String → Option ℤ
  premium_of text =
      if str_eq text "" || is_blank q text then none else q.parse_decimal (q.before_range text)

  -- The percentage column goes before what the premium's cell says.
  abbrev pub percentage_of : Option String → String → Option ℤ
  percentage_of column text =
      or_else (and_then column q.parse_percentage)
        (if str_eq text "" then none else q.parse_percentage text)

  abbrev pub range_of : String → Option ℤ × Option ℤ
  range_of text = elim (q.gmp_range text) [
    | none ↦ (none, none)
    | some (low, high) ↦ (q.parse_decimal low, q.parse_decimal high)
  ]

  abbrev pub text_of : Option String → String
  text_of none = ""
  text_of (some v) = q.texts.strip_html v

  pub record Gmp : Type 0 where
    pub gmp : Option ℤ
    pub percentage : Option ℤ
    pub range : Option ℤ × Option ℤ

  unfoldable pub extract_gmp : ExtractedRecord → Gmp
  extract_gmp r =
      let text = text_of (get q "gmp" r) in
      record {
        gmp = premium_of text;
        percentage = percentage_of (get q "gmp_percentage" r) text;
        range = range_of text;
      }

  abbrev pub badges_in : Option String → List String
  badges_in none = []
  badges_in (some v) = q.extract_badges v

  unfoldable pub all_badges : ExtractedRecord → List String
  all_badges r =
      badges_in (get q "name" r)
      ++ badges_in (cell "name" r.unmapped)
      ++ badges_in (get q "exchange" r)

  abbrev pub present : Option String → List String
  present none = []
  present (some v) = v ∷ []

  abbrev pub first_keyword {ℓ} : {A : Type ℓ} → List (String × A) → List String → Option A
  first_keyword keywords [] = none
  first_keyword keywords (v ∷ vs) =
      or_else (by_keyword keywords (q.texts.lower (q.texts.strip_html v)))
        (first_keyword keywords vs)

  abbrev pub or_value {ℓ} : {A : Type ℓ} → A → Option A → A
  or_value default none = default
  or_value default (some a) = a

  unfoldable pub extract_ipo_type : ExtractedRecord → IpoType
  unfolding all_badges
  extract_ipo_type r = or_value unknown_type (
      first_keyword type_keywords
        (present (get q "ipo_type" r) ++ present (cell "ipo category" r.unmapped) ++ all_badges r))

  -- The board decides where no platform is named.
  abbrev pub by_board : IpoType → Exchange
  by_board mainboard = nse_bse
  by_board sme = unknown_exchange
  by_board unknown_type = unknown_exchange

  unfoldable pub extract_exchange : ExtractedRecord → IpoType → Exchange
  unfolding all_badges
  extract_exchange r t = or_value (by_board t) (
      first_keyword exchange_keywords
        (all_badges r ++ present (get q "exchange" r) ++ present (get q "ipo_type" r)))

  unfoldable pub extract_status : ExtractedRecord → Option String
  extract_status r =
      and_then (given q (get q "source_status" r))
        (λ raw. non_empty (truncate 20 (q.upper (q.texts.strip_html raw))))

  abbrev pub at_most_five : ℕ → ℕ
  at_most_five n = if leb n 5 then n else 5

  abbrev pub glyph_rating : String → List String → Option ℤ → Option ℤ
  glyph_rating text [] number = number
  glyph_rating text (g ∷ gs) number =
      if q.count text g == 0
      then glyph_rating text gs number
      else some (pos (at_most_five (q.count text g)))

  abbrev pub number_rating : Option ℤ → Option ℤ
  number_rating (some (pos n)) = if ltb 0 n && leb n 10 then some (pos (at_most_five n)) else none
  number_rating _ = none

  unfoldable pub extract_rating : Option String → Option ℤ
  extract_rating v = and_then (given q v) (λ raw.
      let text = q.texts.strip_html raw in
      glyph_rating text ("🔥" ∷ "⭐" ∷ "★" ∷ []) (number_rating (q.parse_int text)))

  abbrev pub shows : String → List String → Bool
  shows text glyphs = any (λ g. is_in g text) glyphs

  abbrev pub anchor_of : String → Option Bool
  anchor_of text =
      let lowered = q.texts.lower text in
      if shows text ("✅" ∷ "✔" ∷ [])
      then some true
      else if shows text ("❌" ∷ "✖" ∷ "✘" ∷ [])
      then some false
      else if contains lowered ("yes" ∷ "y" ∷ "true" ∷ [])
      then some true
      else if contains lowered ("no" ∷ "n" ∷ "false" ∷ [])
      then some false
      else none

  unfoldable pub extract_anchor : Option String → Option Bool
  extract_anchor v = and_then (given q v) (λ raw. anchor_of (q.texts.strip_html raw))

  abbrev pub last_part : List String → Option String
  last_part [] = none
  last_part (p ∷ ps) =
      or_else (last_part ps) (if str_eq p "" || q.is_digits p then none else some (truncate 255 p))

  unfoldable pub extract_slug : Option String → Option String
  extract_slug url =
      and_then url (λ u. let (part, parts) = split_on 47 u in last_part (part ∷ parts))

  abbrev pub keep_positive : Option ℤ → Option ℤ
  keep_positive none = none
  keep_positive (some n) = if ltb_ℤ (pos 0) n then some n else none

  unfoldable pub positive_int : Option String → Option ℤ
  positive_int v = keep_positive (and_then v q.parse_int)

  unfoldable pub clean_text : Option String → Option String
  clean_text v = and_then (given q v) (λ raw. non_empty (truncate 64 (q.texts.strip_html raw)))

  unfoldable pub build_raw_data : List (String × String) → List (String × String)
  build_raw_data [] = []
  build_raw_data ((key, value) ∷ rest) =
      let text = q.texts.strip_html value in
      let later = build_raw_data rest in
      if str_eq text "" || is_blank q text then later else (key, truncate 500 text) ∷ later

  abbrev pub date : ℕ → Option String → Option ℕ
  date reference none = none
  date reference (some v) = q.parse_date v reference
