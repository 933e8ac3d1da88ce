-- ===== src/Workers/Retry.antt =====
-- How often a failed scrape is tried again (app/workers/scheduler.py).
use help_me_bid_backend.Base.{
  ℕ, suc, ◌+◌, ◌≤◌, ◌≡◌, refl, ◌∙◌, ap, Bool, true, false, not, ◌==◌, List, [], ◌∷◌, ◌++◌, arith,
  inl, inr, Bool-cases, any, filter, length, eq_iff, if◌then◌else◌,
}
use help_me_bid_backend.Workers.{
  Job, Settings, Run, retry_job_id, has_job_id, retry_job, schedule_retry, has_failed, scrape_job,
}

-- The jobs, how many scheduled runs have failed, and how many retries have been run.
pub record Clock : Type 0 where
  pub jobs : List Job
  pub failures : ℕ
  pub retries : ℕ

abbrev is_queued : List Job → Bool
is_queued jobs = any (has_job_id retry_job_id) jobs

abbrev count : Run → ℕ
count run = if has_failed run then 1 else 0

-- A scheduled run fires, or the queued retry, which leaves the list. At start-up a run fires with
-- the scheduler as a scheduled one does.
pub data Step (s : Settings) : Clock → Clock → Type 0 where
  scheduled :
      (run : Run) (now : ℕ) {c : Clock}
      → Step s c (record c {
        jobs = scrape_job s true false run now c.jobs;
        failures = c.failures + count run;
      })
  retried :
      (run : Run) (now : ℕ) {c : Clock}
      → is_queued c.jobs ≡ true
      → Step s c (record c {
        jobs =
            scrape_job s false true run now (filter (λ j. not (has_job_id retry_job_id j)) c.jobs);
        retries = suc c.retries;
      })

pub data Steps (s : Settings) : Clock → Clock → Type 0 where
  stay : {c : Clock} → Steps s c c
  then_step : {c d e : Clock} → Steps s c d → Step s d e → Steps s c e

abbrev queued : List Job → ℕ
queued jobs = length (filter (has_job_id retry_job_id) jobs)

none_queued : (jobs : List Job) → queued (filter (λ j. not (has_job_id retry_job_id j)) jobs) ≡ 0
none_queued [] = refl
none_queued (j ∷ jobs) = elim (Bool-cases (has_job_id retry_job_id j)) [
  | inl retry ↦ rw retry (none_queued jobs)
  | inr other ↦ rw (other, other) (none_queued jobs)
]

queued_after :
    (jobs : List Job) (j : Job)
    → has_job_id retry_job_id j ≡ true
    → queued (jobs ++ j ∷ []) ≡ suc (queued jobs)
queued_after [] j h = rw h refl
queued_after (i ∷ jobs) j h = elim (Bool-cases (has_job_id retry_job_id i)) [
  | inl retry ↦ rw (retry, queued_after jobs j h) refl
  | inr other ↦ rw (other, queued_after jobs j h) refl
]

queued-schedule_retry :
    (s : Settings) (now : ℕ) (jobs : List Job) → queued (schedule_retry s now jobs) ≡ 1
unfolding schedule_retry
queued-schedule_retry s now jobs =
    let others = filter (λ j. not (has_job_id retry_job_id j)) jobs in
    queued_after others (retry_job s now) ((eq_iff retry_job_id retry_job_id).1 refl)
    ∙ ap suc (none_queued jobs)

queued_once : (jobs : List Job) → is_queued jobs ≡ true → 1 ≤ queued jobs
queued_once [] h = ground arith
queued_once (j ∷ jobs) h = elim (Bool-cases (has_job_id retry_job_id j)) [
  | inl retry ↦ rw retry (omega arith)
  | inr other ↦ rw other (queued_once jobs (ground (arith, h, other)))
]

-- Every retry, run or queued, is paid for by a scheduled run that failed, and at most one is
-- queued.
pub record IsPaid (c : Clock) : Type 0 where
  pub paid : c.retries + queued c.jobs ≤ c.failures
  pub single : queued c.jobs ≤ 1

scheduled-IsPaid :
    (s : Settings) (run : Run) (now : ℕ) (c : Clock)
    → IsPaid c
    → IsPaid (record c {
      jobs = scrape_job s true false run now c.jobs;
      failures = c.failures + count run;
    })
unfolding scrape_job
scheduled-IsPaid s run now c h = elim (Bool-cases (s.failure_retry_minutes == 0)) [
  | inl off ↦ record { paid = rw off (omega (arith, h.paid)); single = rw off h.single }
  | inr on ↦ elim (Bool-cases (has_failed run)) [
    | inl failed ↦
        let one = queued-schedule_retry s now c.jobs in
        record {
          paid = rw (on, failed, one) (omega (arith, h.paid));
          single = rw (on, failed, one) (omega arith);
        }
    | inr fine ↦ record {
      paid = rw (on, fine) (omega (arith, h.paid));
      single = rw (on, fine) h.single;
    }
  ]
]

Step-IsPaid : (s : Settings) (c d : Clock) → Step s c d → IsPaid c → IsPaid d
unfolding scrape_job
Step-IsPaid s c d (scheduled run now) h = scheduled-IsPaid s run now c h
Step-IsPaid s c d (retried run now q) h =
    let gone = none_queued c.jobs in
    record {
      paid = rw gone (omega (arith, h.paid, queued_once c.jobs q));
      single = rw gone (omega arith);
    }

abbrev pub started : List Job → Clock
started jobs = record { jobs = jobs; failures = 0; retries = 0 }

-- However the scheduled runs and the retries end, and in whatever order they fire, a scheduler
-- that starts without a queued retry never runs more retries than scheduled runs have failed, and
-- never has two of them queued: a retry that fails is not retried.
pub Steps-IsPaid :
    (s : Settings) (jobs : List Job) (c : Clock)
    → queued jobs ≡ 0
    → Steps s (started jobs) c
    → IsPaid c
Steps-IsPaid s jobs c h stay = record { paid = omega arith; single = omega arith }
Steps-IsPaid s jobs c h (then_step {d = d} before step) =
    Step-IsPaid s d c step (Steps-IsPaid s jobs d h before)
