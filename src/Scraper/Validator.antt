-- ===== src/Scraper/Validator.antt =====
-- `IPOValidator` of app/services/scraper/validator.py. The checks of `_validate_record` write to
-- fields of their own: `cleaned` is the record after all of them, and the issues are listed in
-- the order of the checks.
pub mod Plausible
pub mod Batch
pub mod Sound
use help_me_bid_backend.Base.{
  ℕ, suc, ◌+◌, ◌&&◌, ◌||◌, not, leb, ltb, String, Bool, true, false, Option, none, some, List, [],
  ◌∷◌, ◌++◌, any, contains, str_eq, if◌then◌else◌,
}
use help_me_bid_backend.Base.Int.{ℤ, pos, negsuc, leb_ℤ, ltb_ℤ}
use help_me_bid_backend.Models.{units}
use help_me_bid_backend.Scraper.Records.{
  NormalizedIpo, Message, missing_identity, short_name, close_before_open, listing_before_close,
  inverted_band, far_date, out_of_range, duplicate_identity, ValidationIssue, ValidationReport,
  stripped_length,
}

abbrev pub max_reasonable_price : ℤ
max_reasonable_price = units 100_000

abbrev pub max_reasonable_gmp_percentage : ℤ
max_reasonable_gmp_percentage = units 1_000

-- -100, in millionths.
abbrev pub min_reasonable_gmp_percentage : ℤ
min_reasonable_gmp_percentage = negsuc 99_999_999

abbrev pub max_reasonable_issue_size_crore : ℤ
max_reasonable_issue_size_crore = units 500_000

abbrev pub max_reasonable_lot_size : ℤ
max_reasonable_lot_size = pos 1_000_000

abbrev pub max_reasonable_subscription : ℤ
max_reasonable_subscription = units 100_000

abbrev pub max_date_drift_days : ℕ
max_date_drift_days = 800

abbrev pub in_range : ℤ → ℤ → ℤ → Bool
in_range low high v = leb_ℤ low v && leb_ℤ v high

-- `abs((value - reference).days) > MAX_DATE_DRIFT_DAYS`
abbrev pub is_far : ℕ → ℕ → Bool
is_far reference date =
    ltb (reference + max_date_drift_days) date || ltb (date + max_date_drift_days) reference

abbrev keep_date : ℕ → Option ℕ → Option ℕ
keep_date reference none = none
keep_date reference (some d) = if is_far reference d then none else some d

abbrev keep : ℤ → ℤ → Option ℤ → Option ℤ
keep low high none = none
keep low high (some v) = if in_range low high v then some v else none

abbrev is_inverted : Option ℤ → Option ℤ → Bool
is_inverted (some low) (some high) = ltb_ℤ high low
is_inverted _ _ = false

abbrev pub precedes : Option ℕ → Option ℕ → Bool
precedes (some a) (some b) = ltb a b
precedes _ _ = false

abbrev price : Option ℤ → Option ℤ
price v = keep (pos 0) max_reasonable_price v

-- The record after the checks. An inverted band is swapped once both ends are in range.
unfoldable pub cleaned : ℕ → NormalizedIpo → NormalizedIpo
cleaned reference r =
    let inverted = is_inverted (price r.price_min) (price r.price_max) in
    record r {
      open_date = keep_date reference r.open_date;
      close_date = keep_date reference r.close_date;
      allotment_date = keep_date reference r.allotment_date;
      listing_date = keep_date reference r.listing_date;
      price_min = if inverted then price r.price_max else price r.price_min;
      price_max = if inverted then price r.price_min else price r.price_max;
      gmp_percentage =
          keep min_reasonable_gmp_percentage max_reasonable_gmp_percentage r.gmp_percentage;
      issue_size_crore = keep (pos 0) max_reasonable_issue_size_crore r.issue_size_crore;
      lot_size = keep (pos 1) max_reasonable_lot_size r.lot_size;
      subscription_times = keep (pos 0) max_reasonable_subscription r.subscription_times;
      rating = keep (pos 0) (pos 5) r.rating;
    }

abbrev issue : ℕ → String → Message → Bool → ValidationIssue
issue index field message fatal = record {
  record_index = index;
  field_name = field;
  message = message;
  fatal = fatal;
}

abbrev issue_if : Bool → ValidationIssue → List ValidationIssue
issue_if found i = if found then i ∷ [] else []

abbrev date_issues : ℕ → ℕ → String → Option ℕ → List ValidationIssue
date_issues index reference field none = []
date_issues index reference field (some d) =
    issue_if (is_far reference d) (issue index field (far_date d) false)

abbrev range_issues : ℕ → String → ℤ → ℤ → Option ℤ → List ValidationIssue
range_issues index field low high none = []
range_issues index field low high (some v) =
    issue_if (not (in_range low high v)) (issue index field (out_of_range v) false)

-- The fatal checks: identity, name and the order of the issue's dates.
unfoldable pub fatal_issues : ℕ → NormalizedIpo → List ValidationIssue
fatal_issues index r =
    issue_if (str_eq r.source_ipo_id "") (issue index "source_ipo_id" missing_identity true)
    ++ issue_if (ltb (stripped_length r.name) 2) (issue index "name" short_name true)
    ++ issue_if (precedes r.close_date r.open_date)
        (issue index "close_date" close_before_open true)

unfoldable pub other_issues : ℕ → ℕ → NormalizedIpo → List ValidationIssue
other_issues index reference r =
    issue_if (precedes r.listing_date r.close_date)
      (issue index "listing_date" listing_before_close false)
    ++ date_issues index reference "open_date" r.open_date
    ++ date_issues index reference "close_date" r.close_date
    ++ date_issues index reference "allotment_date" r.allotment_date
    ++ date_issues index reference "listing_date" r.listing_date
    ++ range_issues index "price_min" (pos 0) max_reasonable_price r.price_min
    ++ range_issues index "price_max" (pos 0) max_reasonable_price r.price_max
    ++ issue_if (is_inverted (price r.price_min) (price r.price_max))
        (issue index "price_min" inverted_band false)
    ++ range_issues index "gmp_percentage" min_reasonable_gmp_percentage
        max_reasonable_gmp_percentage r.gmp_percentage
    ++ range_issues index "issue_size_crore" (pos 0) max_reasonable_issue_size_crore
        r.issue_size_crore
    ++ range_issues index "lot_size" (pos 1) max_reasonable_lot_size r.lot_size
    ++ range_issues index "subscription_times" (pos 0) max_reasonable_subscription
        r.subscription_times

-- `_validate_record`: the issues, and the record as the checks leave it.
unfoldable pub validate_record : ℕ → ℕ → NormalizedIpo → List ValidationIssue × NormalizedIpo
validate_record index reference r =
    (fatal_issues index r ++ other_issues index reference r, cleaned reference r)

-- One turn of the loop of `validate`. A repeated identity is fatal too; its issue is new, so it
-- comes last.
unfoldable pub note_record :
    ℕ → ℕ → List String → NormalizedIpo → ValidationReport → ValidationReport
note_record reference index seen r report =
    let (issues, r') = validate_record index reference r in
    let repeated = contains r.source_ipo_id seen in
    let again =
      issue_if repeated (issue index "source_ipo_id" (duplicate_identity r.source_ipo_id) true) in
    let noted = report.issues ++ (issues ++ again) in
    if any (λ i. i.fatal) issues || repeated
    then record report { rejected = report.rejected ++ r' ∷ []; issues = noted }
    else record report { valid = report.valid ++ r' ∷ []; issues = noted }

-- The loop of `validate`, over the records that are left.
unfoldable pub validate_from :
    ℕ → ℕ → List String → List NormalizedIpo → ValidationReport → ValidationReport
validate_from reference index seen [] report = report
validate_from reference index seen (r ∷ rs) report =
    validate_from reference (suc index) (r.source_ipo_id ∷ seen) rs
      (note_record reference index seen r report)

unfoldable pub validate : ℕ → List NormalizedIpo → ValidationReport
unfolding validate_from
validate reference records =
    validate_from reference 0 [] records (record { valid = []; rejected = []; issues = [] })
