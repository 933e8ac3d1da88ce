-- ===== src/Scraper/Samples.antt =====
-- A record for the tests of the scraper: an issue with an inverted price band and a far listing date.
use help_me_bid_backend.Base.{none, some, []}
use help_me_bid_backend.Base.Int.{pos}
use help_me_bid_backend.Models.{units}
use help_me_bid_backend.Scraper.Records.{NormalizedIpo}

abbrev pub acme : NormalizedIpo
acme = record {
  source_ipo_id = "1";
  name = "Acme";
  ipo_type = "SME";
  exchange = "NSE_SME";
  source_status = none;
  symbol = none;
  slug = none;
  detail_url = none;
  open_date = some 19_999;
  close_date = some 20_001;
  allotment_date = none;
  listing_date = some 25_000;
  price_min = some (units 120);
  price_max = some (units 100);
  lot_size = some (pos 50);
  issue_size_crore = none;
  gmp = some (units 20);
  gmp_percentage = some (units 20);
  gmp_low = none;
  gmp_high = none;
  estimated_listing_price = none;
  subscription_times = some (units 3);
  rating = some (pos 4);
  pe_ratio = none;
  has_anchor_investors = none;
  source_updated_text = none;
  raw_data = [];
}
