-- ===== src/Scraper/Pipeline.antt =====
-- `ScrapePipeline` of app/services/scraper/pipeline.py, and the job around it, `run_scrape` of
-- app/workers/scraper_worker.py with `session_scope` of app/db/session.py.
mod Tests
pub mod Gate
pub mod Kept
pub mod Completes
pub mod Scope
use Prim.Native.String.{◌++◌ as ◌^^◌}
use help_me_bid_backend.Base.{
  ℕ, suc, ◌+◌, ◌-◌, ◌==◌, ◌&&◌, ◌||◌, not, leb, ltb, String, Bool, true, false, Option, none, some,
  List, [], ◌∷◌, ◌++◌, map, length, is_some, str_eq, if◌then◌else◌,
}
use help_me_bid_backend.Models.{Ipo}
use help_me_bid_backend.Ipos.Upsert.{Upsert, Batch}
use help_me_bid_backend.Ipos.Flush.{upsert_many}
use help_me_bid_backend.Scraper.Records.{NormalizedIpo, ValidationIssue, ValidationReport}
use help_me_bid_backend.Scraper.Validator.{validate}
use help_me_bid_backend.Scraper.Confidence.{compute_confidence}
use help_me_bid_backend.Scraper.Stages.{
  RawPayload, success, partial, failed, no_strategy, ExtractedRecord, Warning, page_used,
  not_present, moved, row_issue, ExtractionResult, succeeded, ScrapeOutcome, failed_outcome,
  Exception, fetch_error, scraper_error, unexpected, Result, ok, err,
}
use help_me_bid_backend.Scraper.Client.{Source, fetch}
use help_me_bid_backend.Scraper.Runs.{
  ScrapeRun, Tables, start_run, complete_run, store_payload, previous_field_mapping,
  purge_expired_payloads,
}

pub data RetentionMode : Type 0 where
  always on_failure never : RetentionMode

-- The settings, the clock's readings, the two pages to fetch, and the stages that the pipeline is given
-- or builds: the extractor and `normalize`, which is `none` where it raises or returns None.
-- `show` is Python's rendering of a confidence. The lowest confidence is in thousandths.
pub record Env : Type 0 where
  pub min_confidence : ℕ
  pub snapshots_enabled : Bool
  pub retention_mode : RetentionMode
  pub retention_days : ℕ
  pub today : ℕ
  pub started : ℕ
  pub now : ℕ
  pub duration_ms : ℕ
  pub finished : ℕ
  pub purged_at : ℕ
  pub api : Source
  pub page : Source
  pub extract : RawPayload → Result ExtractionResult
  pub normalize : ExtractedRecord → Option NormalizedIpo
  pub byte_size : String → ℕ
  pub show : ℕ → String

-- The end of `_fetch_and_extract`, once the page is read: the attempt that understood more.
abbrev pub better :
    Option (RawPayload × ExtractionResult)
    → RawPayload
    → ExtractionResult
    → RawPayload × ExtractionResult
better none page fallback = (page, record fallback { warnings = page_used ∷ fallback.warnings })
better (some (payload, extraction)) page fallback =
    if leb fallback.confidence extraction.confidence
    then (payload, extraction)
    else (page, record fallback { warnings = page_used ∷ fallback.warnings })

abbrev pub fall_back :
    Env → Option (RawPayload × ExtractionResult) → Result (RawPayload × ExtractionResult)
fall_back e primary = elim (fetch e.page).result [
  | err x ↦ err x
  | ok page ↦ elim (e.extract page) [
    | err x ↦ err x
    | ok fallback ↦ ok (better primary page fallback)
  ]
]

abbrev pub is_usable : Env → ExtractionResult → Bool
is_usable e extraction = succeeded extraction && leb e.min_confidence extraction.confidence

abbrev pub after_extract :
    Env → RawPayload → Result ExtractionResult → Result (RawPayload × ExtractionResult)
after_extract e payload (err (fetch_error m)) = fall_back e none
after_extract e payload (err x) = err x
after_extract e payload (ok extraction) =
    if is_usable e extraction
    then ok (payload, extraction)
    else fall_back e (some (payload, extraction))

-- `_fetch_and_extract`: only a `FetchError` is caught.
unfoldable pub fetch_and_extract : Env → Result (RawPayload × ExtractionResult)
unfolding fetch
fetch_and_extract e = elim (fetch e.api).result [
  | err (fetch_error m) ↦ fall_back e none
  | err x ↦ err x
  | ok payload ↦ after_extract e payload (e.extract payload)
]

abbrev pub lookup : String → List (String × String) → Option String
lookup key [] = none
lookup key ((k, v) ∷ rest) = if str_eq key k then some v else lookup key rest

abbrev pub change : String → String → Option String → List Warning → List Warning
change field column none rest = not_present field column ∷ rest
change field column (some column') rest =
    if str_eq column' column then rest else moved field column column' ∷ rest

-- The loop of `_detect_structure_change`, over the previous mapping.
unfoldable pub structure_changes : List (String × String) → List (String × String) → List Warning
structure_changes current [] = []
structure_changes current ((field, column) ∷ previous) =
    change field column (lookup field current) (structure_changes current previous)

abbrev pub changes_since : List (String × String) → Option (List (String × String)) → List Warning
changes_since current none = []
changes_since current (some previous) = structure_changes current previous

unfoldable pub detect_structure_change : ExtractionResult → Tables → List Warning
unfolding previous_field_mapping structure_changes
detect_structure_change extraction t =
    changes_since extraction.field_mapping (previous_field_mapping t)

-- `normalize_many`
unfoldable pub normalize_many : Env → List ExtractedRecord → List NormalizedIpo
normalize_many e [] = []
normalize_many e (r ∷ rs) = elim (e.normalize r) [
  | none ↦ normalize_many e rs
  | some n ↦ n ∷ normalize_many e rs
]

abbrev pub issues_up_to : ℕ → List ValidationIssue → List Warning
issues_up_to ℕ.zero is = []
issues_up_to (suc n) [] = []
issues_up_to (suc n) (i ∷ is) = row_issue i ∷ issues_up_to n is

-- The outcome before the records are read.
abbrev pub found_outcome : RawPayload → ExtractionResult → Tables → ScrapeOutcome
found_outcome payload extraction t = record failed_outcome {
  strategy = extraction.strategy;
  records_found = length extraction.records;
  warnings = extraction.warnings ++ detect_structure_change extraction t;
  field_mapping = extraction.field_mapping;
  http_status = some payload.http_status;
}

-- The outcome with the validator's report, before the gates.
abbrev pub reported : Env → ExtractionResult → ScrapeOutcome → ScrapeOutcome
reported e extraction o =
    let normalized = normalize_many e extraction.records in
    let report = validate e.today normalized in
    record o {
      records_valid = length report.valid;
      records_invalid = length report.rejected + (length extraction.records - length normalized);
      confidence = compute_confidence extraction.confidence report 1;
      warnings = o.warnings ++ issues_up_to 50 report.issues;
    }

abbrev pub refuse : String → String → ScrapeOutcome → ScrapeOutcome
refuse code message o = record o { error_code = some code; error_message = some message }

abbrev pub low_confidence : Env → ScrapeOutcome → String
low_confidence e o =
    "Extraction confidence "
    ^^ (e.show o.confidence
        ^^ (" is below the configured minimum "
            ^^ (e.show e.min_confidence ^^ "; existing IPO data was left unchanged.")))

abbrev pub upsert_of : Env → ScrapeRun → Upsert
upsert_of e run = record {
  source = "investorgain";
  scrape_run_id = some run.id;
  write_snapshots = e.snapshots_enabled;
  now = e.now;
}

-- How a stage that writes ends; what it leaves in a session whose flush failed is lost.
pub data Written : Type 0 where
  wrote : ScrapeOutcome → Tables → Written
  flush_failed : Written

abbrev pub stored : Tables → Batch → Tables
stored t b = record t {
  ipos = b.added ++ b.rows;
  snapshots = b.snapshots ++ t.snapshots;
  next_id = b.next_id;
}

abbrev pub persisted : ScrapeOutcome → Batch → ScrapeOutcome
persisted o b = record o {
  persistence = b.result;
  status = elim o.warnings [
    | [] ↦ if o.records_invalid == 0 then success else partial
    | _ ∷ _ ↦ partial
  ];
}

abbrev pub persist : Env → ScrapeRun → List NormalizedIpo → ScrapeOutcome → Tables → Written
persist e run valid o t = elim (upsert_many (upsert_of e run) valid t.ipos t.next_id) [
  | none ↦ flush_failed
  | some b ↦ wrote (persisted o b) (stored t b)
]

-- The gates, once the records are validated.
abbrev pub pass_gates : Env → ScrapeRun → List NormalizedIpo → ScrapeOutcome → Tables → Written
pass_gates e run valid o t =
    if ltb o.confidence e.min_confidence
    then wrote (refuse "SCRAPER_LOW_CONFIDENCE" (low_confidence e o) o) t
    else if length valid == 0
    then wrote (refuse "SCRAPER_NO_VALID_RECORDS" "Every extracted record failed validation." o) t
    else persist e run valid o t

-- `_process`
unfoldable pub process : Env → ScrapeRun → RawPayload → ExtractionResult → Tables → Written
unfolding detect_structure_change normalize_many
process e run payload extraction t =
    let found = found_outcome payload extraction t in
    if succeeded extraction
    then pass_gates e run (validate e.today (normalize_many e extraction.records)).valid
        (reported e extraction found) t
    else wrote
        (refuse "SCRAPER_EXTRACTION_FAILED"
          "No IPO records could be located in the upstream response." found)
        t

-- `_failure`, and the outcome of an unexpected exception.
abbrev pub failure : Exception → ScrapeOutcome
failure (fetch_error message) = refuse "SCRAPER_FETCH_FAILED" message failed_outcome
failure (scraper_error code message) = refuse code message failed_outcome
failure (unexpected message) = refuse "SCRAPER_UNEXPECTED_ERROR" message failed_outcome

abbrev pub keeps_payload : RetentionMode → ScrapeOutcome → Bool
keeps_payload always o = true
keeps_payload never o = false
keeps_payload on_failure o = elim o.status [ failed ↦ true | success ↦ false | partial ↦ false ]

-- `_retain_payload`
unfoldable pub retain_payload : Env → ScrapeRun → RawPayload → ScrapeOutcome → Tables → Tables
retain_payload e run payload o t =
    if keeps_payload e.retention_mode o then store_payload e.byte_size run payload t else t

-- How a run ends: with an outcome, or by the exception of a session that a failed flush left
-- unusable, which the writes of the run record meet.
pub data Ran : Type 0 where
  returned : ScrapeOutcome → Tables → Ran
  raised : Ran

abbrev pub timed : Env → ScrapeOutcome → ScrapeOutcome
timed e o = record o { duration_ms = some e.duration_ms }

-- The end of `run`, with the payload and without.
abbrev pub finish_with : Env → ScrapeRun → RawPayload → ScrapeOutcome → Tables → Ran
finish_with e run payload o t =
    let o' = record (timed e o) { http_status = some payload.http_status } in
    returned o' (complete_run run o' e.finished (retain_payload e run payload o' t))

abbrev pub finish : Env → ScrapeRun → ScrapeOutcome → Tables → Ran
finish e run o t = returned (timed e o) (complete_run run (timed e o) e.finished t)

abbrev pub finish_written : Env → ScrapeRun → RawPayload → Written → Ran
finish_written e run payload (wrote o t) = finish_with e run payload o t
finish_written e run payload flush_failed = raised

abbrev pub after_fetch : Env → ScrapeRun → Tables → Result (RawPayload × ExtractionResult) → Ran
after_fetch e run t (err x) = finish e run (failure x) t
after_fetch e run t (ok (payload, extraction)) =
    finish_written e run payload (process e run payload extraction t)

-- `run`
unfoldable pub run : Env → Tables → Ran
unfolding start_run fetch_and_extract process retain_payload
run e t =
    let (opened, t') = start_run e.api.url e.started t in
    after_fetch e opened t' (fetch_and_extract e)

-- How a job ends, and the tables that it leaves committed.
pub data Job : Type 0 where
  skipped crashed : Job
  scraped : ScrapeOutcome → Job

-- `run_scrape`: without the lock nothing is done; an exception rolls the session back.
unfoldable pub run_scrape : Env → (acquired : Bool) → Tables → Job × Tables
unfolding run
run_scrape e acquired t =
    if acquired
    then elim (run e t) [
      | returned o t' ↦ (scraped o, (purge_expired_payloads e.purged_at e.retention_days t').1)
      | raised ↦ (crashed, t)
    ]
    else (skipped, t)
