-- ===== src/Scraper/Stages.antt =====
-- What the stages of a scrape pass to each other (app/services/scraper/models.py), and the errors
-- they raise (app/core/exceptions.py). A warning keeps the parts that its text quotes.
use help_me_bid_backend.Base.{ℕ, String, Bool, Option, none, List, [], ◌∷◌}
use help_me_bid_backend.Ipos.Upsert.{PersistenceResult}
use help_me_bid_backend.Scraper.Records.{ValidationIssue}

pub record RawPayload : Type 0 where
  pub url : String
  pub content : String
  pub content_type : String
  pub http_status : ℕ
  pub fetched_at : ℕ
  pub content_hash : String

-- `ExtractionStrategy` and `ScrapeStatus` of app/db/enums.py.
pub data ExtractionStrategy : Type 0 where
  json_api html_table no_strategy : ExtractionStrategy

pub data ScrapeStatus : Type 0 where
  success partial failed : ScrapeStatus

-- A row as an extractor gives it: cells by field, and the cells of the unknown columns.
pub record ExtractedRecord : Type 0 where
  pub fields : List (String × String)
  pub unmapped : List (String × String)

pub data Warning : Type 0 where
  no_strategy_fits page_used not_json no_row_list no_dataset : Warning
  located : (origin : String) → Warning
  not_found : (field : String) → Warning
  by_shape : (field column : String) → Warning
  not_present : (field column : String) → Warning
  moved : (field column column' : String) → Warning
  row_issue : ValidationIssue → Warning

-- The confidence is a number of thousandths.
pub record ExtractionResult : Type 0 where
  pub strategy : ExtractionStrategy
  pub records : List ExtractedRecord
  pub field_mapping : List (String × String)
  pub unmapped_columns : List String
  pub warnings : List Warning
  pub confidence : ℕ

-- `ExtractionResult.succeeded`
abbrev pub succeeded : ExtractionResult → Bool
succeeded e = elim e.records [ [] ↦ Bool.false | _ ∷ _ ↦ Bool.true ]

pub record ScrapeOutcome : Type 0 where
  pub status : ScrapeStatus
  pub strategy : ExtractionStrategy
  pub confidence : ℕ
  pub records_found : ℕ
  pub records_valid : ℕ
  pub records_invalid : ℕ
  pub persistence : PersistenceResult
  pub warnings : List Warning
  pub field_mapping : List (String × String)
  pub error_code : Option String
  pub error_message : Option String
  pub http_status : Option ℕ
  pub duration_ms : Option ℕ

-- The outcome of the dataclass's defaults.
abbrev pub failed_outcome : ScrapeOutcome
failed_outcome = record {
  status = failed;
  strategy = no_strategy;
  confidence = 0;
  records_found = 0;
  records_valid = 0;
  records_invalid = 0;
  persistence = record { inserted = 0; updated = 0; unchanged = 0; snapshots = 0 };
  warnings = [];
  field_mapping = [];
  error_code = none;
  error_message = none;
  http_status = none;
  duration_ms = none;
}

-- What a stage raises: a `FetchError`, another `ScraperError`, or anything else.
pub data Exception : Type 0 where
  fetch_error : (message : String) → Exception
  scraper_error : (code message : String) → Exception
  unexpected : (message : String) → Exception

pub data Result {ℓ} (A : Type ℓ) : Type ℓ where
  ok : A → Result A
  err : Exception → Result A
