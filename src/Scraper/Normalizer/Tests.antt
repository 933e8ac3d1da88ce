-- ===== src/Scraper/Normalizer/Tests.antt =====
-- One row of the source, with a band that is written upside down, and a row without a name.
use help_me_bid_backend.Base.{
  ◌||◌, ◌&&◌, ◌≡◌, refl, none, some, [], ◌∷◌, false, str_eq, if◌then◌else◌,
}
use help_me_bid_backend.Base.Int.{pos, ◌+ℤ◌}
use help_me_bid_backend.Scraper.Records.{NormalizedIpo}
use help_me_bid_backend.Scraper.Stages.{ExtractedRecord}
use help_me_bid_backend.Scraper.Columns.Words.{Texts, words_of, is_in, split_words}
use help_me_bid_backend.Scraper.Normalizer.Cells.{Readers}
use help_me_bid_backend.Scraper.Normalizer.{normalize}
use help_me_bid_backend.Store.{truncate}
use help_me_bid_backend.Scraper.Normalizer.Identity.{
  extract_name, extract_detail_url, extract_source_id,
}
use help_me_bid_backend.Scraper.Normalizer.Values.{
  parse_price_band, extract_gmp, all_badges, extract_ipo_type, extract_exchange, extract_status,
  extract_rating, extract_anchor, extract_slug, positive_int, clean_text, build_raw_data,
}
use help_me_bid_backend.Scraper.Normalizer.Bounds.{IsNormal, normalize-IsNormal}

abbrev plain : Texts
plain = record {
  strip_html = λ s. s;
  lower = λ s. s;
  is_null_token = λ s. str_eq s "" || str_eq s "--";
  looks_like = λ shape s. false;
}

-- Readers that know the texts of the row below.
abbrev readers : Readers
readers = record {
  texts = plain;
  parse_decimal = λ s. if str_eq s "20 " then some (pos 20) else none;
  parse_int = λ s. if str_eq s "150" then some (pos 150) else none;
  parse_percentage = λ s. none;
  parse_multiplier = λ s. none;
  parse_amount_in_crore = λ s. none;
  parse_date = λ s reference. some reference;
  decimal_of = λ s. if str_eq s "110" then some (pos 110) else some (pos 100);
  price_range = λ s. if str_eq s "110-100" then some ("110", "100") else none;
  anchor_text = λ s. none;
  first_link_href = λ s. none;
  extract_badges = λ s. [];
  trailing_number = λ s. none;
  before_range = λ s. "20 ";
  gmp_range = λ s. none;
  upper = λ s. s;
  is_digits = λ s. false;
  count = λ text glyph. if str_eq text "🔥🔥" && str_eq glyph "🔥" then 2 else 0;
}

abbrev row : ExtractedRecord
row = record {
  fields =
      ("name", "acme ltd")
      ∷ ("price", "110-100")
      ∷ ("gmp", "20 (18%)")
      ∷ ("lot_size", "150")
      ∷ ("rating", "🔥🔥")
      ∷ ("ipo_type", "sme")
      ∷ [];
  unmapped = ("colour", "red") ∷ ("remark", "--") ∷ [];
}

abbrev nameless : ExtractedRecord
nameless = record { fields = ("name", "--") ∷ ("price", "110-100") ∷ []; unmapped = [] }

abbrev acme_row : NormalizedIpo
acme_row = record {
  source_ipo_id = "name:acme-ltd";
  name = "acme ltd";
  ipo_type = "SME";
  exchange = "UNKNOWN";
  source_status = none;
  symbol = none;
  slug = none;
  detail_url = none;
  open_date = none;
  close_date = none;
  allotment_date = none;
  listing_date = none;
  price_min = some (pos 100);
  price_max = some (pos 110);
  lot_size = some (pos 150);
  issue_size_crore = none;
  gmp = some (pos 20);
  gmp_percentage = none;
  gmp_low = none;
  gmp_high = none;
  estimated_listing_price = some (pos 130);
  subscription_times = none;
  rating = some (pos 2);
  pe_ratio = none;
  has_anchor_investors = none;
  source_updated_text = none;
  raw_data = ("colour", "red") ∷ [];
}

read : Unit {0}
unfolding truncate split_words words_of is_in extract_name extract_detail_url extract_source_id
    parse_price_band extract_gmp all_badges extract_ipo_type extract_exchange extract_status
    extract_rating extract_anchor extract_slug positive_int clean_text build_raw_data normalize
read = tt

first_row : normalize readers 19_999 "" row ≡ some acme_row
unfolding read ◌+ℤ◌
first_row = refl

no_name : normalize readers 19_999 "" nameless ≡ none
unfolding read
no_name = refl

normalize-IsNormal_example : IsNormal acme_row
normalize-IsNormal_example = normalize-IsNormal readers 19_999 "" row acme_row first_row
