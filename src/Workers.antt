-- ===== src/Workers.antt =====
-- The scheduler of app/workers/scheduler.py. The scheduling library is the list of its jobs: adding
-- a job that replaces an existing one drops the job of its id, and a job with a date leaves the
-- list when it fires. Instants are microseconds.
pub mod Times
pub mod Retry
mod Tests
use Prim.Native.String.{◌++◌ as ◌^^◌}
use help_me_bid_backend.Base.{
  ℕ, zero, suc, ◌+◌, ◌*◌, ◌==◌, ◌&&◌, ◌||◌, not, ltb, String, Bool, true, false, Option, none, some,
  List, [], ◌∷◌, ◌++◌, any, filter, is_some, str_eq, if◌then◌else◌,
}
use help_me_bid_backend.Scraper.Stages.{ScrapeStatus, failed, success, partial}

pub data Trigger : Type 0 where
  at_date every : ℕ → Trigger
  daily : (hour minute : ℕ) → (jitter : Option ℕ) → Trigger

pub data Task : Type 0 where
  scrape : (has_scheduler is_retry : Bool) → Task
  notify : Task

pub record Job : Type 0 where
  pub id : String
  pub task : Task
  pub trigger : Trigger

-- The settings that the scheduler reads; `index` is `str` of a number.
pub record Settings : Type 0 where
  pub scraper_enabled : Bool
  pub windows : List (ℕ × ℕ)
  pub jitter_minutes : ℕ
  pub interval_minutes : ℕ
  pub failure_retry_minutes : ℕ
  pub notification_enabled : Bool
  pub notification_interval_minutes : ℕ
  pub index : ℕ → String

-- How `run_scrape` ends: it raises, it finds the lock held, or it has an outcome.
pub data Run : Type 0 where
  crashed skipped : Run
  ended : ScrapeStatus → Run

abbrev pub retry_job_id : String
retry_job_id = "scrape_ipos_retry"

abbrev pub has_job_id : String → Job → Bool
has_job_id id j = str_eq j.id id

abbrev microseconds_per_minute : ℕ
microseconds_per_minute = 60_000_000

abbrev pub retry_job : Settings → (now : ℕ) → Job
retry_job s now = record {
  id = retry_job_id;
  task = scrape false true;
  trigger = at_date (now + s.failure_retry_minutes * microseconds_per_minute);
}

-- `_schedule_retry`, with `replace_existing`
unfoldable pub schedule_retry : Settings → (now : ℕ) → List Job → List Job
schedule_retry s now jobs =
    filter (λ j. not (has_job_id retry_job_id j)) jobs ++ retry_job s now ∷ []

-- `outcome is not None and failed`: an exception leaves no outcome either.
abbrev pub has_failed : Run → Bool
has_failed crashed = false
has_failed skipped = false
has_failed (ended failed) = true
has_failed (ended success) = false
has_failed (ended partial) = false

-- `_scrape_job`, after the run.
unfoldable pub scrape_job :
    Settings → (has_scheduler is_retry : Bool) → Run → (now : ℕ) → List Job → List Job
unfolding schedule_retry
scrape_job s has_scheduler is_retry run now jobs =
    if is_retry || not has_scheduler || s.failure_retry_minutes == 0
    then jobs
    else if has_failed run
    then schedule_retry s now jobs
    else jobs

-- `jitter_seconds or None`
abbrev jitter_of : ℕ → Option ℕ
jitter_of minutes = if minutes == 0 then none else some (minutes * 60)

abbrev window_jobs : Settings → ℕ → List (ℕ × ℕ) → List Job
window_jobs s index [] = []
window_jobs s index ((hour, minute) ∷ windows) =
    record {
      id = "scrape_ipos_" ^^ s.index index;
      task = scrape true false;
      trigger = daily hour minute (jitter_of s.jitter_minutes);
    }
    ∷ window_jobs s (suc index) windows

abbrev interval_job : Settings → Job
interval_job s = record {
  id = "scrape_ipos";
  task = scrape true false;
  trigger = every s.interval_minutes;
}

-- `_register_scrape_jobs`, which adds to a scheduler without jobs.
unfoldable pub register_scrape_jobs : Settings → List Job
register_scrape_jobs s = elim s.windows [
  | [] ↦ interval_job s ∷ []
  | w ∷ ws ↦ window_jobs s 0 (w ∷ ws)
]

abbrev notification_job : Settings → Job
notification_job s = record {
  id = "evaluate_notifications";
  task = notify;
  trigger = every s.notification_interval_minutes;
}

-- `build_scheduler`
unfoldable pub build_scheduler : Settings → List Job
unfolding register_scrape_jobs
build_scheduler s =
    (if s.scraper_enabled then register_scrape_jobs s else [])
    ++ (if s.notification_enabled then notification_job s ∷ [] else [])
