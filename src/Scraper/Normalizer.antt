-- ===== src/Scraper/Normalizer.antt =====
-- `normalize` of `IPONormalizer` (app/services/scraper/normalizer.py): `Cells` has what it takes
-- from outside, `Identity` the name and the identity, `Values` the figures and labels.
mod Tests
pub mod Cells
pub mod Identity
pub mod Values
pub mod Bounds
use help_me_bid_backend.Base.{
  ℕ, zero, suc, ◌==◌, ◌&&◌, ◌||◌, not, leb, ltb, String, Bool, true, false, Option, none, some,
  List, [], ◌∷◌, ◌++◌, any, contains, filter, str_eq, if◌then◌else◌,
}
use help_me_bid_backend.Base.Int.{ℤ}
use help_me_bid_backend.Scraper.Records.{NormalizedIpo}
use help_me_bid_backend.Scraper.Stages.{ExtractedRecord}
use help_me_bid_backend.Scraper.Normalizer.Cells.{Readers, and_then, get}
use help_me_bid_backend.Scraper.Normalizer.Identity.{
  extract_name, extract_detail_url, extract_source_id,
}
use help_me_bid_backend.Scraper.Normalizer.Values.{
  type_value, exchange_value, price_band, extract_gmp, extract_ipo_type, extract_exchange,
  extract_status, extract_slug, date, positive_int, sum, extract_rating, extract_anchor, clean_text,
  build_raw_data,
}

module _ (q : Readers) where
  -- The record, once its identity is known. The estimate is the cap price and the premium.
  abbrev pub normalized : ℕ → ExtractedRecord → String → Option String → String → NormalizedIpo
  normalized reference r name detail_url source_id =
      let band = price_band q (get q "price" r) in
      let premium = extract_gmp q r in
      let t = extract_ipo_type q r in
      record {
        source_ipo_id = source_id;
        name = name;
        ipo_type = type_value t;
        exchange = exchange_value (extract_exchange q r t);
        source_status = extract_status q r;
        symbol = none;
        slug = extract_slug q detail_url;
        detail_url = detail_url;
        open_date = date q reference (get q "open_date" r);
        close_date = date q reference (get q "close_date" r);
        allotment_date = date q reference (get q "allotment_date" r);
        listing_date = date q reference (get q "listing_date" r);
        price_min = band.0;
        price_max = band.1;
        lot_size = positive_int q (get q "lot_size" r);
        issue_size_crore = and_then (get q "issue_size" r) q.parse_amount_in_crore;
        gmp = premium.gmp;
        gmp_percentage = premium.percentage;
        gmp_low = premium.range.0;
        gmp_high = premium.range.1;
        estimated_listing_price = sum band.1 premium.gmp;
        subscription_times = and_then (get q "subscription" r) q.parse_multiplier;
        rating = extract_rating q (get q "rating" r);
        pe_ratio = and_then (get q "pe_ratio" r) q.parse_decimal;
        has_anchor_investors = extract_anchor q (get q "anchor" r);
        source_updated_text = clean_text q (get q "updated_on" r);
        raw_data = build_raw_data q r.unmapped;
      }

  abbrev pub identified :
      ℕ → ExtractedRecord → String → Option String → Option String → Option NormalizedIpo
  identified reference r name detail_url none = none
  identified reference r name detail_url (some source_id) =
      some (normalized reference r name detail_url source_id)

  abbrev pub named : ℕ → String → ExtractedRecord → Option String → Option NormalizedIpo
  named reference base_url r none = none
  named reference base_url r (some name) =
      let url = extract_detail_url q base_url r in
      identified reference r name url (extract_source_id q r url name)

  -- `normalize`
  unfoldable pub normalize :
      (reference : ℕ) → (base_url : String) → ExtractedRecord → Option NormalizedIpo
  unfolding extract_name extract_detail_url extract_source_id
  normalize reference base_url r = named reference base_url r (extract_name q r)
