-- ===== src/Scraper/Pipeline/Tests.antt =====
-- A scrape of one row from the JSON feed into empty tables; one whose feed is down and whose page
-- has no rows; and one whose row contradicts the row that is stored.
use help_me_bid_backend.Base.{
  ℕ, ◌≡◌, ◌↔◌, subst, refl, true, Option, none, some, List, [], ◌∷◌, length,
}
use help_me_bid_backend.Models.{units, Values, price_min, price_max}
use help_me_bid_backend.Ipos.Upsert.{new_row, upsert_record, upsert_records, diff, apply_changes}
use help_me_bid_backend.Ipos.Flush.{upsert_many, flush, is_allowed}
use help_me_bid_backend.Ipos.Columns.{round, row_fits, snapshots_fit}
use help_me_bid_backend.Store.{truncate}
use help_me_bid_backend.Scraper.Samples.{acme}
use help_me_bid_backend.Scraper.Records.{NormalizedIpo, stripped_length}
use mathlib.Core.Option.{some-injective}
use help_me_bid_backend.Scraper.Validator.{
  validate, validate_from, validate_record, note_record, cleaned, fatal_issues, other_issues,
}
use help_me_bid_backend.Scraper.Confidence.{compute_confidence}
use help_me_bid_backend.Scraper.Stages.{
  json_api, partial, ScrapeStatus, ExtractedRecord, ExtractionResult, ScrapeOutcome, ok,
  failed_outcome,
}
use help_me_bid_backend.Scraper.Client.{Source, answered, transport_error, fetch, fetch_from}
use help_me_bid_backend.Scraper.Runs.{
  Tables, start_run, complete_run, completed, store_payload, previous_field_mapping,
  last_successful_run, latest, purge_expired_payloads, purge_payloads_older_than,
}
use help_me_bid_backend.Scraper.Pipeline.{
  Env, upsert_of, on_failure, fetch_and_extract, structure_changes, detect_structure_change,
  normalize_many, process, retain_payload, Ran, returned, raised, run, run_scrape, crashed, Job,
}
use help_me_bid_backend.Scraper.Pipeline.Gate.{GatedBy, run_gated}
use help_me_bid_backend.Scraper.Pipeline.Completes.{
  BreaksTable, first_run_completes, run_scrape_crashed_iff,
}

abbrev feed : Source
feed = record {
  max_retries = 1;
  url = "feed";
  reply = λ n. answered (record { status_code = 200; text = "{}"; content_type = "json" });
  now = λ n. 5;
  hash = λ s. "0";
  str = λ n. "n";
}

abbrev row : ExtractedRecord
row = record { fields = ("name", "Acme") ∷ []; unmapped = [] }

abbrev rows : List ExtractedRecord → ExtractionResult
rows records = record {
  strategy = json_api;
  records = records;
  field_mapping = ("name", "Name") ∷ [];
  unmapped_columns = [];
  warnings = [];
  confidence = 900;
}

abbrev daily : Env
daily = record {
  min_confidence = 500;
  snapshots_enabled = true;
  retention_mode = on_failure;
  retention_days = 14;
  today = 20_000;
  started = 1;
  now = 2;
  duration_ms = 3;
  finished = 4;
  purged_at = 5;
  api = feed;
  page = feed;
  extract = λ p. ok (rows (row ∷ []));
  normalize = λ r. some acme;
  byte_size = λ s. 2;
  show = λ n. "?";
}

-- The feed is down, and the page has no rows.
abbrev outage : Env
outage = record daily {
  api = record feed { reply = λ n. transport_error };
  extract = λ p. ok (rows []);
}

abbrev nothing : Tables
nothing = record { ipos = []; snapshots = []; runs = []; payloads = []; next_id = 1 }

abbrev old_columns : Values
old_columns price_min = some (units 150)
old_columns price_max = some (units 160)
old_columns _ = none

-- A row of the same issue, whose price band lies above the new one's upper end.
abbrev stale : Tables
stale = record nothing {
  ipos =
      record {
        id = 9;
        source = "investorgain";
        source_ipo_id = "1";
        symbol = none;
        slug = none;
        detail_url = none;
        columns = old_columns;
        raw_data = [];
        source_updated_text = none;
        first_seen_at = 0;
        last_scraped_at = none;
        data_changed_at = none;
      }
      ∷ [];
  next_id = 10;
}

-- The record gives only the upper end of its band.
abbrev lower : Env
lower = record daily { normalize = λ r. some (record acme { price_min = none }) }

abbrev status_of : Ran → Option ScrapeStatus
status_of (returned o t) = some o.status
status_of raised = none

abbrev sizes : Job × Tables → ℕ × ℕ × ℕ
sizes (j, t) = (length t.ipos, length t.runs, length t.payloads)

checks : Unit {0}
unfolding fetch fetch_from upsert_many flush upsert_record upsert_records diff apply_changes
    is_allowed validate validate_from validate_record note_record cleaned fatal_issues other_issues
    compute_confidence start_run complete_run completed store_payload previous_field_mapping
    last_successful_run latest fetch_and_extract structure_changes detect_structure_change
    normalize_many process retain_payload run run_scrape stripped_length purge_expired_payloads
    purge_payloads_older_than truncate round row_fits snapshots_fit
checks = tt

-- The validator's complaints make it a partial success.
daily_is_partial : status_of (run daily nothing) ≡ some partial
unfolding checks
daily_is_partial = refl

daily_is_stored : sizes (run_scrape daily true nothing) ≡ (1, 1, 0)
unfolding checks
daily_is_stored = refl

-- The failure keeps its payload.
outage_is_logged : sizes (run_scrape outage true nothing) ≡ (0, 1, 1)
unfolding checks
outage_is_logged = refl

-- The merged band is inverted, so nothing of the run is left.
lower_crashes : sizes (run_scrape lower true stale) ≡ (1, 0, 0)
unfolding checks
lower_crashes = refl

abbrev daily_outcome : ScrapeOutcome
daily_outcome = elim (run daily nothing) [ returned o t ↦ o | raised ↦ failed_outcome ]

abbrev daily_tables : Tables
daily_tables = elim (run daily nothing) [ returned o t ↦ t | raised ↦ nothing ]

daily_returns : run daily nothing ≡ returned daily_outcome daily_tables
unfolding checks
daily_returns = refl

run_gated_example : GatedBy daily nothing daily_outcome daily_tables
run_gated_example = run_gated daily nothing daily_outcome daily_tables daily_returns

acme_fits :
    (r : ExtractedRecord) (n : NormalizedIpo)
    → daily.normalize r ≡ some n
    → (id : ℕ)
    → row_fits (new_row (upsert_of daily (start_run "feed" 1 nothing).0) id (cleaned 20_000 n))
      ≡ true
unfolding checks
acme_fits r n h id =
    subst
      (λ m.
        row_fits (new_row (upsert_of daily (start_run "feed" 1 nothing).0) id (cleaned 20_000 m))
        ≡ true)
      (some-injective acme n h) refl

first_run_completes_example :
    (o : ScrapeOutcome) × (t' : Tables) × (run daily nothing ≡ returned o t')
first_run_completes_example = first_run_completes daily nothing refl acme_fits

run_scrape_crashed_iff_example :
    ((run_scrape lower true stale).0 ≡ crashed) ↔ ((true ≡ true) × BreaksTable lower stale)
run_scrape_crashed_iff_example = run_scrape_crashed_iff lower true stale refl

lower_is_crashed : (run_scrape lower true stale).0 ≡ crashed
unfolding checks
lower_is_crashed = refl
