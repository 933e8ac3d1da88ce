-- ===== src/Ipos/Tests.antt =====
-- Runs of app/repositories/ipo.py and app/services/ipo.py on a table of one row.
use help_me_bid_backend.Base.{
  ◌≤◌, ◌≡◌, refl, true, false, none, some, [], ◌∷◌, arith, if◌then◌else◌, is_some, eq_iff,
}
use help_me_bid_backend.Base.Int.{pos}
use help_me_bid_backend.Models.{Ipo, units, issue_size_crore}
use help_me_bid_backend.Scraper.Records.{NormalizedIpo, as_column_values, stripped_length}
use help_me_bid_backend.Scraper.Validator.Sound.{IsSound}
use help_me_bid_backend.Ipos.Status.{derive_status, ipo_status_expression}
use help_me_bid_backend.Ipos.Lifecycle.{stage, derive_status-expression, derive_status-monotone}
use help_me_bid_backend.Ipos.Upsert.{
  Upsert, Batch, new_row, diff, apply_changes, upsert_record, upsert_records,
}
use help_me_bid_backend.Ipos.Flush.{start, flush, upsert_many, is_allowed, all_allowed, is_storable}
use help_me_bid_backend.Ipos.Upsert.Merge.{
  latest, moves_again, apply_changes-diff, diff-stored_columns,
}
use help_me_bid_backend.Ipos.Columns.{
  round, row_fits, snapshots_fit, stored_batch, stored_columns, text_fits,
}
use help_me_bid_backend.Store.{truncate}
use help_me_bid_backend.Ipos.Upsert.Totals.{IsTally, upsert_many-IsTally}
use help_me_bid_backend.Ipos.Upsert.Identity.{upsert_many_lem}
use help_me_bid_backend.Ipos.Upsert.New.{upsert_many_new}
use help_me_bid_backend.Base.{ℕ, List}
use help_me_bid_backend.Ipos.Pages.{take, drop, page_of, build}
use help_me_bid_backend.Ipos.Pages.Cover.{first_pages, build_covers}

abbrev acme : NormalizedIpo
acme = record {
  source_ipo_id = "1";
  name = "Acme";
  ipo_type = "SME";
  exchange = "NSE_SME";
  source_status = none;
  symbol = none;
  slug = none;
  detail_url = none;
  open_date = some 19_999;
  close_date = some 20_001;
  allotment_date = none;
  listing_date = none;
  price_min = some (units 100);
  price_max = some (units 120);
  lot_size = some (pos 50);
  issue_size_crore = none;
  gmp = some (units 20);
  gmp_percentage = none;
  gmp_low = none;
  gmp_high = none;
  estimated_listing_price = none;
  subscription_times = none;
  rating = none;
  pe_ratio = none;
  has_anchor_investors = none;
  source_updated_text = none;
  raw_data = ("gmp", "20") ∷ [];
}

-- The next scrape: the premium has moved, and the dates are blank.
abbrev later_acme : NormalizedIpo
later_acme = record acme { gmp = some (units 30); open_date = none; raw_data = [] }

-- A scrape that gives only the upper end of the band, under the stored lower end.
abbrev cheaper_acme : NormalizedIpo
cheaper_acme = record acme { price_min = none; price_max = some (units 90) }

abbrev other : NormalizedIpo
other = record acme { source_ipo_id = "2"; name = "Other" }

abbrev run : Upsert
run = record { source = "investorgain"; scrape_run_id = some 1; write_snapshots = true; now = 77 }

abbrev stored : Ipo
stored = record {
  id = 5;
  source = "investorgain";
  source_ipo_id = "1";
  symbol = none;
  slug = none;
  detail_url = none;
  columns = as_column_values acme;
  raw_data = ("gmp", "20") ∷ [];
  source_updated_text = none;
  first_seen_at = 1;
  last_scraped_at = some 1;
  data_changed_at = some 1;
}

upserting : Unit {0}
unfolding diff apply_changes upsert_record upsert_records is_allowed flush upsert_many truncate
    round row_fits snapshots_fit
upserting = tt

counts :
    (upsert_records run (later_acme ∷ other ∷ []) (start (stored ∷ []) 9)).result
    ≡ record { inserted = 1; updated = 1; unchanged = 0; snapshots = 1 }
unfolding upserting
counts = refl

again_unchanged :
    (upsert_records run (acme ∷ []) (start (stored ∷ []) 9)).result
    ≡ record { inserted = 0; updated = 0; unchanged = 1; snapshots = 0 }
unfolding upserting
again_unchanged = refl

is_stored : is_some (upsert_many run (later_acme ∷ other ∷ []) (stored ∷ []) 9) ≡ true
unfolding upserting
is_stored = refl

-- The record alone is sound, but the row it leaves is not: the whole batch is refused.
merged_band_is_refused :
    is_some (upsert_many run (cheaper_acme ∷ other ∷ []) (stored ∷ []) 9) ≡ false
unfolding upserting
merged_band_is_refused = refl

derive_status-expression_example : derive_status stored 20_001 ≡ ipo_status_expression 20_001 stored
derive_status-expression_example = derive_status-expression stored 20_001

derive_status-monotone_example :
    stage (derive_status stored 19_999) ≤ stage (derive_status stored 20_001)
derive_status-monotone_example = derive_status-monotone stored 19_999 20_001 (omega arith)

apply_changes-diff_example :
    apply_changes (diff stored.columns (as_column_values later_acme)) stored.columns
    ≡ latest (as_column_values later_acme) stored.columns
apply_changes-diff_example = apply_changes-diff stored.columns (as_column_values later_acme)

-- An issue size of 459.72 lakh is 4.5972 crore, which the column keeps as 4.60.
abbrev in_lakh : NormalizedIpo
in_lakh = record acme { issue_size_crore = some (pos 4_597_200) }

lakh_moves_again : moves_again issue_size_crore ((as_column_values in_lakh) issue_size_crore) ≡ true
unfolding upserting
lakh_moves_again = refl

diff-stored_columns_example :
    let moved = apply_changes (diff stored.columns (as_column_values in_lakh)) stored.columns in
    is_some (diff (stored_columns moved) (as_column_values in_lakh) issue_size_crore)
    ≡ moves_again issue_size_crore ((as_column_values in_lakh) issue_size_crore)
diff-stored_columns_example =
    diff-stored_columns stored.columns (as_column_values in_lakh) issue_size_crore

-- A ratio of ten digits before the point, which the validator does not look at.
pe_ratio_is_refused :
    is_some
      (upsert_many run (record other { pe_ratio = some (pos 99_999_999_999_000_000) } ∷ []) [] 9)
    ≡ false
unfolding upserting
pe_ratio_is_refused = refl

long_name_is_refused : text_fits 3 "Acme" ≡ false
unfolding upserting
long_name_is_refused = refl

abbrev after : Batch
after = stored_batch (upsert_records run (later_acme ∷ other ∷ []) (start (stored ∷ []) 9))

after_lem : upsert_many run (later_acme ∷ other ∷ []) (stored ∷ []) 9 ≡ some after
unfolding upserting
after_lem = refl

upsert_many-IsTally_example : IsTally true 1 2 after
upsert_many-IsTally_example =
    upsert_many-IsTally run (later_acme ∷ other ∷ []) (stored ∷ []) 9 after after_lem

stored_allowed : all_allowed (stored ∷ []) ≡ true
unfolding upserting
stored_allowed = refl

upsert_many_lem_example :
    let b = upsert_records run (later_acme ∷ other ∷ []) (start (stored ∷ []) 9) in
    upsert_many run (later_acme ∷ other ∷ []) (stored ∷ []) 9
    ≡ (if is_storable b then some (stored_batch b) else none)
upsert_many_lem_example =
    upsert_many_lem run (later_acme ∷ other ∷ []) (stored ∷ []) 9 ((refl, tt), (tt, tt)) refl
      (omega arith)

other_fits : (id : ℕ) → row_fits (new_row run id other) ≡ true
unfolding upserting
other_fits id = refl

other-IsSound : IsSound 20_000 other
unfolding stripped_length
other-IsSound = record {
  identity = λ e. ground (arith, (eq_iff "2" "").1 e);
  named = ground arith;
  dates = ground arith;
  plausible = record {
    open_near = ground arith;
    close_near = ground arith;
    allotment_near = tt;
    listing_near = tt;
    price_min_range = ground arith;
    price_max_range = ground arith;
    band = ground arith;
    percentage_range = tt;
    issue_size_range = tt;
    lot_size_range = ground arith;
    subscription_range = tt;
    rating_range = tt;
  };
}

upsert_many_new_example :
    upsert_many run (other ∷ []) (stored ∷ []) 9
    ≡ some (stored_batch (upsert_records run (other ∷ []) (start (stored ∷ []) 9)))
upsert_many_new_example =
    upsert_many_new run 20_000 (other ∷ []) (stored ∷ []) 9 ((other-IsSound, tt), (tt, tt))
      (other_fits, tt) (omega arith) refl stored_allowed (refl, tt)

abbrev numbers : List ℕ
numbers = 1 ∷ 2 ∷ 3 ∷ []

paging : Unit {0}
unfolding page_of take drop build
paging = tt

second_page : page_of 2 2 numbers ≡ 3 ∷ []
unfolding paging
second_page = refl

build_covers_example : first_pages 2 (build 1 2 3).total_pages numbers ≡ numbers
build_covers_example = build_covers 1 2 numbers (omega arith)
