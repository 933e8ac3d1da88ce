-- ===== src/Workers/Tests.antt =====
-- Two daily windows, one of them written carelessly; and a retry after a failed scrape.
use help_me_bid_backend.Base.{
  ℕ, zero, suc, ◌+◌, ◌*◌, ◌-◌, ◌/◌, ◌%◌, ◌<◌, ◌≡◌, refl, ap, true, false, Option, none, some, List,
  [], ◌∷◌, String, map, ◌==◌, arith, if◌then◌else◌, length,
}
use Prim.Native.Char.{Char, code}
use help_me_bid_backend.Base.Int.{ℤ, pos}
use help_me_bid_backend.Scraper.Stages.{failed}
use help_me_bid_backend.Store.{truncate}
use help_me_bid_backend.Workers.{
  Settings, ended, crashed, schedule_retry, scrape_job, register_scrape_jobs, build_scheduler,
}
use help_me_bid_backend.Workers.Times.{
  split_schedule_times, partition, digit, digit_of, validate_time, validate_schedule_times,
  scrape_windows, written_windows,
}
use help_me_bid_backend.Workers.Times.Written.{ReadsDigits, validate_schedule_times_again}
use help_me_bid_backend.Workers.Retry.{Clock, scheduled, stay, then_step, IsPaid, Steps-IsPaid}

abbrev settings : Settings
settings = record {
  scraper_enabled = true;
  windows = (9, 5) ∷ (13, 30) ∷ [];
  jitter_minutes = 30;
  interval_minutes = 30;
  failure_retry_minutes = 20;
  notification_enabled = true;
  notification_interval_minutes = 15;
  index = λ n. if n == 0 then "0" else "1";
}

checks : Unit {0}
unfolding schedule_retry scrape_job register_scrape_jobs build_scheduler split_schedule_times
    partition validate_time validate_schedule_times scrape_windows truncate
checks = tt

three_jobs :
    map (λ j. j.id) (build_scheduler settings)
    ≡ "scrape_ipos_0" ∷ "scrape_ipos_1" ∷ "evaluate_notifications" ∷ []
unfolding checks
three_jobs = refl

times_are_split : split_schedule_times " 9:5 ,,13:30" ≡ "9:5" ∷ "13:30" ∷ []
unfolding checks
times_are_split = refl

-- A scrape that failed is tried again; one that raised is not.
failed_again : length (scrape_job settings true false (ended failed) 0 []) ≡ 1
unfolding checks
failed_again = refl

crashed_for_good : scrape_job settings true false crashed 0 [] ≡ []
unfolding checks
crashed_for_good = refl

-- Reads one or two digits.
abbrev value : ℕ → ℕ
value c = c - 48

abbrev reads : String → Option ℤ
reads String.[] = none
reads (String.◌∷◌ a String.[]) = some (pos (value (code a)))
reads (String.◌∷◌ a (String.◌∷◌ b s)) = some (pos (value (code a) * 10 + value (code b)))

-- The characters from a given one on are the digits of the numbers from a given one on.
abbrev Counts : ℕ → List Char → Type 0
Counts k [] = Unit
Counts k (c ∷ cs) = (value (code c) ≡ k) × Counts (suc k) cs

value-digit_of :
    (cs : List Char) (k n : ℕ) → Counts k cs → n < length cs → value (code (digit_of cs n)) ≡ k + n
value-digit_of [] k n h l = absurd (omega arith)
value-digit_of (c ∷ cs) k zero (p, h) l = omega (arith, p)
value-digit_of (c ∷ cs) k (suc n) (p, h) l =
    omega (arith, value-digit_of cs (suc k) n h (omega (arith, l)))

value-digit : (n : ℕ) → n < 10 → value (code (digit n)) ≡ n
value-digit n h =
    let shifted =
      value-digit_of ("0" ∷ "1" ∷ "2" ∷ "3" ∷ "4" ∷ "5" ∷ "6" ∷ "7" ∷ "8" ∷ "9" ∷ []) 0 n
        (refl, (refl, (refl, (refl, (refl, (refl, (refl, (refl, (refl, (refl, tt)))))))))) h in
    omega (arith, shifted)

reads-ReadsDigits : ReadsDigits reads
reads-ReadsDigits n h =
    let tens = value-digit (n / 10) (omega arith) in
    let ones = value-digit (n % 10) (omega arith) in
    ap (λ k. some (pos k)) (omega (arith, tens, ones))

abbrev times : List String
times = "9:5" ∷ "13:30" ∷ []

times_are_valid : validate_schedule_times reads times ≡ some ("09:05" ∷ "13:30" ∷ [])
unfolding checks
times_are_valid = refl

validate_schedule_times_again_example :
    (validate_schedule_times reads ("09:05" ∷ "13:30" ∷ []) ≡ some ("09:05" ∷ "13:30" ∷ []))
    × (scrape_windows reads ("09:05" ∷ "13:30" ∷ []) ≡ written_windows reads times)
validate_schedule_times_again_example =
    validate_schedule_times_again reads reads-ReadsDigits times ("09:05" ∷ "13:30" ∷ [])
      times_are_valid

abbrev after_failure : Clock
after_failure = record {
  jobs = scrape_job settings true false (ended failed) 0 [];
  failures = 1;
  retries = 0;
}

Steps-IsPaid_example : IsPaid after_failure
Steps-IsPaid_example =
    Steps-IsPaid settings [] after_failure refl (then_step stay (scheduled (ended failed) 0))
