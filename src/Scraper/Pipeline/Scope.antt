-- ===== src/Scraper/Pipeline/Scope.antt =====
-- What a run leaves behind in its record, and what a job that crashes leaves (run_scrape of
-- app/workers/scraper_worker.py).
use help_me_bid_backend.Base.{ℕ, ◌≡◌, ◌<◌, Option, none, some, List, ◌∷◌, All, if◌then◌else◌}
use help_me_bid_backend.Scraper.Stages.{
  RawPayload, ExtractionResult, ScrapeOutcome, Result, ok, err,
}
use help_me_bid_backend.Scraper.Runs.{
  ScrapeRun, ScrapeRawPayload, Tables, opened, completed, payload_row,
}
use help_me_bid_backend.Scraper.Pipeline.{Env, keeps_payload, run}

-- The runs of the table have ids below the next one.
abbrev pub HasFreshId : Tables → Type 0
HasFreshId t = All (λ (r : ScrapeRun). r.id < t.next_id) t.runs

-- Neither the run nor a payload is touched by the stages.
abbrev SameLog : Tables → ScrapeOutcome → Tables → Type 0
SameLog t o t' = (t'.runs ≡ t.runs) × (t'.payloads ≡ t.payloads)

-- The payload rows after a run: the payload is kept when the retention mode asks for it.
abbrev pub kept_payloads :
    Env
    → ScrapeRun
    → ℕ
    → Option RawPayload
    → ScrapeOutcome
    → List ScrapeRawPayload
    → List ScrapeRawPayload
kept_payloads e run id none o old = old
kept_payloads e run id (some p) o old =
    if keeps_payload e.retention_mode o then payload_row e.byte_size id run.id p ∷ old else old

abbrev pub fetched : Result (RawPayload × ExtractionResult) → Option RawPayload
fetched (ok (p, x)) = some p
fetched (err x) = none

-- What a run that returns has written beside the issues, when `p` is what it fetched.
pub record IsRecorded (e : Env) (t : Tables) (p : Option RawPayload) (o : ScrapeOutcome)
    (t' : Tables) : Type 0 where
  pub run : t'.runs ≡ completed o e.finished (opened e.api.url e.started t.next_id) ∷ t.runs
  pub payloads :
      (id : ℕ) × (t'.payloads
        ≡ kept_payloads e (opened e.api.url e.started t.next_id) id p o t.payloads)
  pub duration : o.duration_ms ≡ some e.duration_ms
