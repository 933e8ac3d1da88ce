-- ===== src/Scraper/Validator/Plausible.antt =====
-- What the validator (app/services/scraper/validator.py) guarantees of one record.
use help_me_bid_backend.Base.{
  ℕ, ◌+◌, ◌≤◌, ◌≡◌, refl, Bool, true, false, Option, none, some, arith, inl, inr, Bool-cases,
  if◌then◌else◌,
}
use help_me_bid_backend.Base.Int.{ℤ, pos, ◌≤ℤ◌}
use help_me_bid_backend.Scraper.Records.{NormalizedIpo}
use help_me_bid_backend.Scraper.Validator.{
  max_reasonable_price, max_reasonable_gmp_percentage, min_reasonable_gmp_percentage,
  max_reasonable_issue_size_crore, max_reasonable_lot_size, max_reasonable_subscription,
  max_date_drift_days, cleaned, keep_date, keep, is_inverted, price,
}

-- If the value is known, it lies between the bounds.
abbrev pub Between : ℤ → ℤ → Option ℤ → Type 0
Between low high none = Unit
Between low high (some v) = (low ≤ℤ v) × (v ≤ℤ high)

abbrev pub Near : ℕ → Option ℕ → Type 0
Near reference none = Unit
Near reference (some d) =
    (d ≤ reference + max_date_drift_days) × (reference ≤ d + max_date_drift_days)

-- If both are known, the first is at most the second.
abbrev pub Ordered : Option ℤ → Option ℤ → Type 0
Ordered (some low) (some high) = low ≤ℤ high
Ordered _ _ = Unit

abbrev pub DatesOrdered : Option ℕ → Option ℕ → Type 0
DatesOrdered (some first) (some last) = first ≤ last
DatesOrdered _ _ = Unit

pub record IsPlausible (reference : ℕ) (r : NormalizedIpo) : Type 0 where
  pub open_near : Near reference r.open_date
  pub close_near : Near reference r.close_date
  pub allotment_near : Near reference r.allotment_date
  pub listing_near : Near reference r.listing_date
  pub price_min_range : Between (pos 0) max_reasonable_price r.price_min
  pub price_max_range : Between (pos 0) max_reasonable_price r.price_max
  pub band : Ordered r.price_min r.price_max
  pub percentage_range :
      Between min_reasonable_gmp_percentage max_reasonable_gmp_percentage r.gmp_percentage
  pub issue_size_range : Between (pos 0) max_reasonable_issue_size_crore r.issue_size_crore
  pub lot_size_range : Between (pos 1) max_reasonable_lot_size r.lot_size
  pub subscription_range : Between (pos 0) max_reasonable_subscription r.subscription_times
  pub rating_range : Between (pos 0) (pos 5) r.rating

keep-Between : (low high : ℤ) (v : Option ℤ) → Between low high (keep low high v)
keep-Between low high none = tt
keep-Between low high (some v) = ground arith

keep_date-Near : (reference : ℕ) (d : Option ℕ) → Near reference (keep_date reference d)
keep_date-Near reference none = tt
keep_date-Near reference (some d) = ground arith

-- The band after the swap: both ends stay in range, and they are in order.
swap-Between :
    (low high : ℤ) (a b : Option ℤ) (swapped : Bool)
    → Between low high a
    → Between low high b
    → Between low high (if swapped then a else b)
swap-Between low high a b true h g = h
swap-Between low high a b false h g = g

swap-Ordered :
    (a b : Option ℤ) → Ordered (if is_inverted a b then b else a) (if is_inverted a b then a else b)
swap-Ordered none none = tt
swap-Ordered none (some b) = tt
swap-Ordered (some a) none = tt
swap-Ordered (some a) (some b) = elim (Bool-cases (is_inverted (some a) (some b))) [
  | inl inverted ↦ rw inverted (ground arith)
  | inr ordered ↦ rw ordered (ground arith)
]

-- Whatever record comes in, what the checks leave is within every plausibility bound, and its
-- price band is in order.
pub cleaned-IsPlausible :
    (reference : ℕ) (r : NormalizedIpo) → IsPlausible reference (cleaned reference r)
unfolding cleaned
cleaned-IsPlausible reference r = record {
  open_near = keep_date-Near reference r.open_date;
  close_near = keep_date-Near reference r.close_date;
  allotment_near = keep_date-Near reference r.allotment_date;
  listing_near = keep_date-Near reference r.listing_date;
  price_min_range =
      swap-Between (pos 0) max_reasonable_price (price r.price_max) (price r.price_min)
        (is_inverted (price r.price_min) (price r.price_max))
        (keep-Between (pos 0) max_reasonable_price r.price_max)
        (keep-Between (pos 0) max_reasonable_price r.price_min);
  price_max_range =
      swap-Between (pos 0) max_reasonable_price (price r.price_min) (price r.price_max)
        (is_inverted (price r.price_min) (price r.price_max))
        (keep-Between (pos 0) max_reasonable_price r.price_min)
        (keep-Between (pos 0) max_reasonable_price r.price_max);
  band = swap-Ordered (price r.price_min) (price r.price_max);
  percentage_range =
      keep-Between min_reasonable_gmp_percentage max_reasonable_gmp_percentage r.gmp_percentage;
  issue_size_range = keep-Between (pos 0) max_reasonable_issue_size_crore r.issue_size_crore;
  lot_size_range = keep-Between (pos 1) max_reasonable_lot_size r.lot_size;
  subscription_range = keep-Between (pos 0) max_reasonable_subscription r.subscription_times;
  rating_range = keep-Between (pos 0) (pos 5) r.rating;
}

-- The same record comes out again: a plausible record passes the checks as it is.
keep_of_Between : (low high : ℤ) (v : Option ℤ) → Between low high v → keep low high v ≡ v
keep_of_Between low high none h = refl
keep_of_Between low high (some v) h = ground arith

keep_date_of_Near : (reference : ℕ) (d : Option ℕ) → Near reference d → keep_date reference d ≡ d
keep_date_of_Near reference none h = refl
keep_date_of_Near reference (some d) h = ground arith

not_inverted : (a b : Option ℤ) → Ordered a b → is_inverted a b ≡ false
not_inverted none none h = refl
not_inverted none (some b) h = refl
not_inverted (some a) none h = refl
not_inverted (some a) (some b) h = ground arith

unswapped_min :
    (a b c d : Option ℤ) → a ≡ c → b ≡ d → Ordered c d → (if is_inverted a b then b else a) ≡ c
unswapped_min a b c d e f h = rw (e, f, not_inverted c d h)

unswapped_max :
    (a b c d : Option ℤ) → a ≡ c → b ≡ d → Ordered c d → (if is_inverted a b then a else b) ≡ d
unswapped_max a b c d e f h = rw (e, f, not_inverted c d h)

-- A record that is within every plausibility bound, with its price band in order, comes out of the
-- checks as it went in.
pub cleaned_of_IsPlausible :
    (reference : ℕ) (r : NormalizedIpo) → IsPlausible reference r → cleaned reference r ≡ r
unfolding cleaned
cleaned_of_IsPlausible reference r h =
    let low = keep_of_Between (pos 0) max_reasonable_price r.price_min h.price_min_range in
    let high = keep_of_Between (pos 0) max_reasonable_price r.price_max h.price_max_range in
    λ i. record r {
      open_date = keep_date_of_Near reference r.open_date h.open_near i;
      close_date = keep_date_of_Near reference r.close_date h.close_near i;
      allotment_date = keep_date_of_Near reference r.allotment_date h.allotment_near i;
      listing_date = keep_date_of_Near reference r.listing_date h.listing_near i;
      price_min =
          unswapped_min (price r.price_min) (price r.price_max) r.price_min r.price_max low high
            h.band i;
      price_max =
          unswapped_max (price r.price_min) (price r.price_max) r.price_min r.price_max low high
            h.band i;
      gmp_percentage =
          keep_of_Between min_reasonable_gmp_percentage max_reasonable_gmp_percentage
            r.gmp_percentage h.percentage_range i;
      issue_size_crore =
          keep_of_Between (pos 0) max_reasonable_issue_size_crore r.issue_size_crore
            h.issue_size_range i;
      lot_size = keep_of_Between (pos 1) max_reasonable_lot_size r.lot_size h.lot_size_range i;
      subscription_times =
          keep_of_Between (pos 0) max_reasonable_subscription r.subscription_times
            h.subscription_range i;
      rating = keep_of_Between (pos 0) (pos 5) r.rating h.rating_range i;
    }
