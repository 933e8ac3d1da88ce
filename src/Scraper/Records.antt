-- ===== src/Scraper/Records.antt =====
-- `NormalizedIPO` and the reports of app/services/scraper/models.py.
use Prim.Native.Char.{code}
use help_me_bid_backend.Base.{
  ℕ, String, Bool, Option, some, List, [], ◌∷◌, if◌then◌else◌, length, ◌+◌,
}
use help_me_bid_backend.Base.Int.{ℤ}
use help_me_bid_backend.Models.{
  Values, name, ipo_type, exchange, source_status, open_date, close_date, allotment_date,
  listing_date, price_min, price_max, lot_size, issue_size_crore, gmp, gmp_percentage, gmp_low,
  gmp_high, estimated_listing_price, subscription_times, rating, pe_ratio, has_anchor_investors,
}
use help_me_bid_backend.Store.{is_space}
use mathlib.Core.List.{reverse}

pub record NormalizedIpo : Type 0 where
  pub source_ipo_id : String
  pub name : String
  pub ipo_type : String
  pub exchange : String
  pub source_status : Option String
  pub symbol : Option String
  pub slug : Option String
  pub detail_url : Option String
  pub open_date : Option ℕ
  pub close_date : Option ℕ
  pub allotment_date : Option ℕ
  pub listing_date : Option ℕ
  pub price_min : Option ℤ
  pub price_max : Option ℤ
  pub lot_size : Option ℤ
  pub issue_size_crore : Option ℤ
  pub gmp : Option ℤ
  pub gmp_percentage : Option ℤ
  pub gmp_low : Option ℤ
  pub gmp_high : Option ℤ
  pub estimated_listing_price : Option ℤ
  pub subscription_times : Option ℤ
  pub rating : Option ℤ
  pub pe_ratio : Option ℤ
  pub has_anchor_investors : Option Bool
  pub source_updated_text : Option String
  pub raw_data : List (String × String)

-- `as_column_values`, at the tracked columns.
abbrev pub as_column_values : NormalizedIpo → Values
as_column_values r name = some r.name
as_column_values r ipo_type = some r.ipo_type
as_column_values r exchange = some r.exchange
as_column_values r source_status = r.source_status
as_column_values r open_date = r.open_date
as_column_values r close_date = r.close_date
as_column_values r allotment_date = r.allotment_date
as_column_values r listing_date = r.listing_date
as_column_values r price_min = r.price_min
as_column_values r price_max = r.price_max
as_column_values r lot_size = r.lot_size
as_column_values r issue_size_crore = r.issue_size_crore
as_column_values r gmp = r.gmp
as_column_values r gmp_percentage = r.gmp_percentage
as_column_values r gmp_low = r.gmp_low
as_column_values r gmp_high = r.gmp_high
as_column_values r estimated_listing_price = r.estimated_listing_price
as_column_values r subscription_times = r.subscription_times
as_column_values r rating = r.rating
as_column_values r pe_ratio = r.pe_ratio
as_column_values r has_anchor_investors = r.has_anchor_investors

-- The messages of the issues; the numbers and dates that they quote are arguments.
pub data Message : Type 0 where
  missing_identity short_name close_before_open listing_before_close inverted_band : Message
  far_date : ℕ → Message
  out_of_range : ℤ → Message
  duplicate_identity : String → Message

pub record ValidationIssue : Type 0 where
  pub record_index : ℕ
  pub field_name : String
  pub message : Message
  pub fatal : Bool

pub record ValidationReport : Type 0 where
  pub valid : List NormalizedIpo
  pub rejected : List NormalizedIpo
  pub issues : List ValidationIssue

-- `ValidationReport.total`
abbrev pub total : ValidationReport → ℕ
total r = length r.valid + length r.rejected

abbrev codes : String → List ℕ
codes String.[] = []
codes (String.◌∷◌ c s) = code c ∷ codes s

lstrip : List ℕ → List ℕ
lstrip [] = []
lstrip (c ∷ cs) = let rest = lstrip cs in if is_space c then rest else c ∷ cs

-- `len(text.strip())`
unfoldable pub stripped_length : String → ℕ
unfolding lstrip
stripped_length s = length (lstrip (reverse (lstrip (codes s))))
