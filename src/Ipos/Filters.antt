-- ===== src/Ipos/Filters.antt =====
-- `_apply_filters` of app/repositories/ipo.py, for a request that `IPOFilterParams` of
-- app/schemas/ipo.py has accepted. A row is returned when each `where` is true of it;
-- a comparison with NULL is not. The `ILIKE` search, which is the database's, is left out.
pub mod Meaning
mod Tests
use help_me_bid_backend.Base.{
  ℕ, ◌&&◌, leb, String, Bool, true, false, Option, none, some, List, filter, str_eq, if◌then◌else◌,
}
use help_me_bid_backend.Base.Int.{ℤ, leb_ℤ}
use help_me_bid_backend.Models.{
  Ipo, ipo_type, exchange, open_date, close_date, listing_date, gmp, gmp_percentage, lot_size,
  issue_size_crore, subscription_times, price_min, price_max,
}
use help_me_bid_backend.Ipos.Status.{
  IpoStatus, upcoming, opened, closing_today, closed, listed, unknown, ipo_status_expression,
}

-- The three parameters of one date column: the resolved value, and the explicit bounds.
pub record DateFilter : Type 0 where
  pub resolved : Option (ℕ × ℕ)
  pub earliest : Option ℕ
  pub latest : Option ℕ

pub record RangeFilter : Type 0 where
  pub least : Option ℤ
  pub most : Option ℤ

pub record IpoFilterParams : Type 0 where
  pub status : Option IpoStatus
  pub of_type : Option String
  pub on_exchange : Option String
  pub opens : DateFilter
  pub closes : DateFilter
  pub lists : DateFilter
  pub premium : RangeFilter
  pub percentage : RangeFilter
  pub lot : RangeFilter
  pub issue_size : RangeFilter
  pub subscription : RangeFilter
  pub price : RangeFilter

-- A comparison of a column with a value is true only if the column is known and passes.
abbrev known {ℓ} : {A : Type ℓ} → (A → Bool) → Option A → Bool
known test none = false
known test (some a) = test a

-- `if bound is not None: statement.where(...)`
abbrev where_given {ℓ} : {A : Type ℓ} → Option A → (A → Bool) → Bool
where_given none condition = true
where_given (some a) condition = condition a

abbrev pub same_status : IpoStatus → IpoStatus → Bool
same_status upcoming upcoming = true
same_status opened opened = true
same_status closing_today closing_today = true
same_status closed closed = true
same_status listed listed = true
same_status unknown unknown = true
same_status _ _ = false

abbrev date_passes : DateFilter → Option ℕ → Bool
date_passes f column =
    where_given f.resolved (λ r. known (leb r.0) column && known (λ d. leb d r.1) column)
    && where_given f.earliest (λ low. known (leb low) column)
    && where_given f.latest (λ high. known (λ d. leb d high) column)

abbrev range_passes : RangeFilter → Option ℤ → Option ℤ → Bool
range_passes f low_column high_column =
    where_given f.least (λ low. known (leb_ℤ low) low_column)
    && where_given f.most (λ high. known (λ v. leb_ℤ v high) high_column)

unfoldable pub passes : ℕ → IpoFilterParams → Ipo → Bool
passes today f i =
    where_given f.status (λ s. same_status (ipo_status_expression today i) s)
    && where_given f.of_type (λ t. known (λ v. str_eq v t) (i.columns ipo_type))
    && where_given f.on_exchange (λ e. known (λ v. str_eq v e) (i.columns exchange))
    && date_passes f.opens (i.columns open_date)
    && date_passes f.closes (i.columns close_date)
    && date_passes f.lists (i.columns listing_date)
    && range_passes f.premium (i.columns gmp) (i.columns gmp)
    && range_passes f.percentage (i.columns gmp_percentage) (i.columns gmp_percentage)
    && range_passes f.lot (i.columns lot_size) (i.columns lot_size)
    && range_passes f.issue_size (i.columns issue_size_crore) (i.columns issue_size_crore)
    && range_passes f.subscription (i.columns subscription_times) (i.columns subscription_times)
    && range_passes f.price (i.columns price_max) (i.columns price_min)

unfoldable pub apply_filters : ℕ → IpoFilterParams → List Ipo → List Ipo
apply_filters today f rows = filter (passes today f) rows
