-- ===== src/Scraper/Runs.antt =====
-- `ScrapeRepository` of app/repositories/scrape.py, on the tables that a scrape reads and writes
-- (app/db/models/scrape.py): the issues with their snapshots, the runs and the retained payloads,
-- newest first. A flush of a session whose transaction has failed raises. The rows of a run and of
-- its payload are taken to be storable: their texts have no NUL, which the database refuses.
use help_me_bid_backend.Base.{
  ℕ, zero, suc, ◌+◌, ◌-◌, ◌*◌, ◌/◌, ◌==◌, not, leb, ltb, String, Bool, true, false, Option, none,
  some, List, [], ◌∷◌, filter, length, update, if◌then◌else◌,
}
use help_me_bid_backend.Store.{truncate}
use help_me_bid_backend.Models.{Ipo}
use help_me_bid_backend.Ipos.Upsert.{IpoSnapshot}
use help_me_bid_backend.Scraper.Stages.{
  RawPayload, ExtractionStrategy, ScrapeStatus, success, partial, failed, no_strategy, Warning,
  ScrapeOutcome,
}

pub record ScrapeRun : Type 0 where
  pub id : ℕ
  pub started_at : ℕ
  pub finished_at : Option ℕ
  pub duration_ms : Option ℕ
  pub status : ScrapeStatus
  pub strategy : ExtractionStrategy
  pub source_url : String
  pub http_status : Option ℕ
  pub records_found : ℕ
  pub records_valid : ℕ
  pub records_invalid : ℕ
  pub ipos_inserted : ℕ
  pub ipos_updated : ℕ
  pub ipos_unchanged : ℕ
  pub snapshots_created : ℕ
  pub confidence : Option ℕ
  pub error_code : Option String
  pub error_message : Option String
  pub warnings : List Warning
  pub field_mapping : List (String × String)

pub record ScrapeRawPayload : Type 0 where
  pub id : ℕ
  pub scrape_run_id : ℕ
  pub captured_at : ℕ
  pub source_url : String
  pub content_type : String
  pub content : String
  pub content_hash : String
  pub byte_size : ℕ

pub record Tables : Type 0 where
  pub ipos : List Ipo
  pub snapshots : List IpoSnapshot
  pub runs : List ScrapeRun
  pub payloads : List ScrapeRawPayload
  pub next_id : ℕ

-- The row that `start_run` adds: it counts as failed until it is completed.
abbrev pub opened : String → ℕ → ℕ → ScrapeRun
opened url now id = record {
  id = id;
  started_at = now;
  finished_at = none;
  duration_ms = none;
  status = failed;
  strategy = no_strategy;
  source_url = url;
  http_status = none;
  records_found = 0;
  records_valid = 0;
  records_invalid = 0;
  ipos_inserted = 0;
  ipos_updated = 0;
  ipos_unchanged = 0;
  snapshots_created = 0;
  confidence = none;
  error_code = none;
  error_message = none;
  warnings = [];
  field_mapping = [];
}

unfoldable pub start_run : String → ℕ → Tables → ScrapeRun × Tables
start_run url now t =
    let run = opened url now t.next_id in
    (run, record t { runs = run ∷ t.runs; next_id = suc t.next_id })

-- `outcome.duration_ms or …`: a duration of zero is false. The clock counts microseconds.
abbrev pub duration_or : Option ℕ → ℕ → ℕ
duration_or none elapsed = elapsed / 1000
duration_or (some zero) elapsed = elapsed / 1000
duration_or (some (suc n)) elapsed = suc n

-- `message[:2000] if message else None`
abbrev pub bounded : Option String → Option String
bounded none = none
bounded (some String.[]) = none
bounded (some (String.◌∷◌ c s)) = some (truncate 2000 (String.◌∷◌ c s))

abbrev pub first : ℕ → List Warning → List Warning
first zero ws = []
first (suc n) [] = []
first (suc n) (w ∷ ws) = w ∷ first n ws

-- The run with its final counters.
unfoldable pub completed : ScrapeOutcome → ℕ → ScrapeRun → ScrapeRun
completed o finished run = record run {
  finished_at = some finished;
  duration_ms = some (duration_or o.duration_ms (finished - run.started_at));
  status = o.status;
  strategy = o.strategy;
  http_status = o.http_status;
  records_found = o.records_found;
  records_valid = o.records_valid;
  records_invalid = o.records_invalid;
  ipos_inserted = o.persistence.inserted;
  ipos_updated = o.persistence.updated;
  ipos_unchanged = o.persistence.unchanged;
  snapshots_created = o.persistence.snapshots;
  confidence = some o.confidence;
  error_code = o.error_code;
  error_message = bounded o.error_message;
  warnings = first 100 o.warnings;
  field_mapping = o.field_mapping;
}

unfoldable pub complete_run : ScrapeRun → ScrapeOutcome → ℕ → Tables → Tables
complete_run run o finished t = record t {
  runs = update (λ r. r.id == run.id) (completed o finished) t.runs;
}

-- `byte_size` is the length of the UTF-8 encoding, an argument.
abbrev pub payload_row : (String → ℕ) → ℕ → ℕ → RawPayload → ScrapeRawPayload
payload_row byte_size id run_id p = record {
  id = id;
  scrape_run_id = run_id;
  captured_at = p.fetched_at;
  source_url = p.url;
  content_type = truncate 64 p.content_type;
  content = p.content;
  content_hash = p.content_hash;
  byte_size = byte_size p.content;
}

unfoldable pub store_payload : (String → ℕ) → ScrapeRun → RawPayload → Tables → Tables
store_payload byte_size run p t = record t {
  payloads = payload_row byte_size t.next_id run.id p ∷ t.payloads;
  next_id = suc t.next_id;
}

-- `order_by(started_at.desc()).limit(1)`; of two runs with one start the first is taken.
unfoldable pub latest : List ScrapeRun → Option ScrapeRun
latest [] = none
latest (r ∷ rs) = elim (latest rs) [
  | none ↦ some r
  | some q ↦ if leb q.started_at r.started_at then some r else some q
]

abbrev pub has_succeeded : ScrapeRun → Bool
has_succeeded r = elim r.status [ failed ↦ false | success ↦ true | partial ↦ true ]

unfoldable pub last_successful_run : Tables → Option ScrapeRun
unfolding latest
last_successful_run t = latest (filter has_succeeded t.runs)

unfoldable pub previous_field_mapping : Tables → Option (List (String × String))
unfolding last_successful_run
previous_field_mapping t = elim (last_successful_run t) [
  | none ↦ none
  | some r ↦ some r.field_mapping
]

abbrev microseconds_per_day : ℕ
microseconds_per_day = 86_400_000_000

-- `purge_payloads_older_than(now - days)`: a payload is older when its capture and the days lie
-- before now.
abbrev pub is_expired : (now days : ℕ) → ScrapeRawPayload → Bool
is_expired now days p = ltb (p.captured_at + days * microseconds_per_day) now

unfoldable pub purge_payloads_older_than : (now days : ℕ) → Tables → ℕ × Tables
purge_payloads_older_than now days t = (
  length (filter (is_expired now days) t.payloads),
  record t { payloads = filter (λ p. not (is_expired now days p)) t.payloads },
)

-- `purge_expired_payloads` of app/services/scraper/pipeline.py.
unfoldable pub purge_expired_payloads : (now days : ℕ) → Tables → ℕ × Tables
unfolding purge_payloads_older_than
purge_expired_payloads now days t =
    if days == 0 then (0, t) else purge_payloads_older_than now days t
