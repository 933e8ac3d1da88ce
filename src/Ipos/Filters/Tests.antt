-- ===== src/Ipos/Filters/Tests.antt =====
-- One request of `GET /ipos` on one row.
use help_me_bid_backend.Base.{◌≡◌, ◌↔◌, refl, true, false, none, some, [], ◌∷◌, length}
use help_me_bid_backend.Base.Int.{pos}
use help_me_bid_backend.Models.{Ipo, units}
use help_me_bid_backend.Scraper.Records.{as_column_values}
use help_me_bid_backend.Ipos.Status.{closing_today, ipo_status_expression}
use help_me_bid_backend.Ipos.Filters.{
  DateFilter, RangeFilter, IpoFilterParams, passes, apply_filters,
}
use help_me_bid_backend.Ipos.Filters.Meaning.{IsAsked, passes_iff}

abbrev row : Ipo
row = record {
  id = 5;
  source = "investorgain";
  source_ipo_id = "1";
  symbol = none;
  slug = none;
  detail_url = none;
  columns = as_column_values (record {
    source_ipo_id = "1";
    name = "Acme";
    ipo_type = "SME";
    exchange = "NSE_SME";
    source_status = none;
    symbol = none;
    slug = none;
    detail_url = none;
    open_date = some 19_999;
    close_date = some 20_001;
    allotment_date = none;
    listing_date = none;
    price_min = some (units 100);
    price_max = some (units 120);
    lot_size = some (pos 50);
    issue_size_crore = none;
    gmp = some (units 20);
    gmp_percentage = none;
    gmp_low = none;
    gmp_high = none;
    estimated_listing_price = none;
    subscription_times = none;
    rating = none;
    pe_ratio = none;
    has_anchor_investors = none;
    source_updated_text = none;
    raw_data = [];
  });
  raw_data = [];
  source_updated_text = none;
  first_seen_at = 1;
  last_scraped_at = some 1;
  data_changed_at = some 1;
}

abbrev any_date : DateFilter
any_date = record { resolved = none; earliest = none; latest = none }

abbrev any_value : RangeFilter
any_value = record { least = none; most = none }

-- Closing today, with a band that reaches 110.
abbrev request : IpoFilterParams
request = record {
  status = some closing_today;
  of_type = some "SME";
  on_exchange = none;
  opens = any_date;
  closes = record any_date { resolved = some (20_000, 20_005) };
  lists = any_date;
  premium = any_value;
  percentage = any_value;
  lot = any_value;
  issue_size = any_value;
  subscription = any_value;
  price = record { least = some (units 110); most = none };
}

on_the_day : length (apply_filters 20_001 request (row ∷ [])) ≡ 1
unfolding apply_filters passes ipo_status_expression
on_the_day = refl

-- The percentage of the row is unknown, so no bound on it is met.
unknown_percentage :
    passes 20_001 (record request { percentage = record any_value { least = some (pos 0) } }) row
    ≡ false
unfolding passes ipo_status_expression
unknown_percentage = refl

passes_iff_example : (passes 20_001 request row ≡ true) ↔ IsAsked 20_001 request row
passes_iff_example = passes_iff 20_001 request row
