-- ===== src/Scraper/Pipeline/Gate.antt =====
-- What a run may write (app/services/scraper/pipeline.py): the gates before the upsert.
use help_me_bid_backend.Base.{
  ◌≤◌, ◌≡◌, refl, ◌∙◌, subst, true, false, some, ◌++◌, arith, inl, inr, ◌⊎◌, Bool-cases,
  Option-cases, All, is_some, length, ltb, ◌==◌,
}
use help_me_bid_backend.Ipos.Upsert.{Batch}
use help_me_bid_backend.Ipos.Flush.{upsert_many}
use help_me_bid_backend.Scraper.Records.{ValidationReport}
use help_me_bid_backend.Scraper.Validator.{validate}
use help_me_bid_backend.Scraper.Validator.Sound.{IsSound, validate-IsSound}
use help_me_bid_backend.Scraper.Stages.{
  RawPayload, failed, success, partial, ExtractionResult, succeeded, ScrapeOutcome, Result, ok, err,
  Exception, fetch_error, scraper_error, unexpected,
}
use help_me_bid_backend.Scraper.Confidence.{compute_confidence}
use help_me_bid_backend.Scraper.Runs.{ScrapeRun, Tables, start_run, complete_run, store_payload}
use help_me_bid_backend.Scraper.Pipeline.{
  Env, fetch_and_extract, normalize_many, upsert_of, Written, wrote, flush_failed, persist,
  persisted, pass_gates, process, found_outcome, reported, failure, retain_payload, keeps_payload,
  Ran, returned, raised, finish_with, timed, after_fetch, finish_written, run,
}

abbrev pub report_of : Env → ExtractionResult → ValidationReport
report_of e x = validate e.today (normalize_many e x.records)

-- The run failed, says why, and left the issues and their history as they were.
pub record IsRefused (t : Tables) (o : ScrapeOutcome) (t' : Tables) : Type 0 where
  pub status : o.status ≡ failed
  pub code : is_some o.error_code ≡ true
  pub ipos : t'.ipos ≡ t.ipos
  pub snapshots : t'.snapshots ≡ t.snapshots

-- The records went through every gate, and the table is what the upsert makes of them; `t` are the
-- tables with the opened run.
pub record IsStored (e : Env) (run : ScrapeRun) (t : Tables) (x : ExtractionResult)
    (o : ScrapeOutcome) (t' : Tables) : Type 0 where
  pub batch : Batch
  pub confident : e.min_confidence ≤ o.confidence
  pub computed : o.confidence ≡ compute_confidence x.confidence (report_of e x) 1
  pub sound : All (IsSound e.today) (report_of e x).valid
  pub some_valid : 1 ≤ length (report_of e x).valid
  pub upserted : upsert_many (upsert_of e run) (report_of e x).valid t.ipos t.next_id ≡ some batch
  pub status : (o.status ≡ success) ⊎ (o.status ≡ partial)
  pub code : is_some o.error_code ≡ false
  pub counters : o.persistence ≡ batch.result
  pub ipos : t'.ipos ≡ batch.added ++ batch.rows
  pub snapshots : t'.snapshots ≡ batch.snapshots ++ t.snapshots

abbrev pub Gated : Env → ScrapeRun → Tables → ExtractionResult → ScrapeOutcome → Tables → Type 0
Gated e run t x o t' = IsRefused t o t' ⊎ IsStored e run t x o t'

-- A property of what a stage wrote, if it did, and of what a run returned.
abbrev pub Wrote : (ScrapeOutcome → Tables → Type 0) → Written → Type 0
Wrote P (wrote o t) = P o t
Wrote P flush_failed = Unit

abbrev pub Returned : (ScrapeOutcome → Tables → Type 0) → Ran → Type 0
Returned P (returned o t) = P o t
Returned P raised = Unit

persisted-status :
    (o : ScrapeOutcome) (b : Batch)
    → ((persisted o b).status ≡ success) ⊎ ((persisted o b).status ≡ partial)
persisted-status o b = ground arith

-- The outcome that reaches the gates.
record IsReported (e : Env) (x : ExtractionResult) (o : ScrapeOutcome) : Type 0 where
  status : o.status ≡ failed
  code : is_some o.error_code ≡ false
  computed : o.confidence ≡ compute_confidence x.confidence (report_of e x) 1

module _ (e : Env) (run : ScrapeRun) (t : Tables) (x : ExtractionResult) where
  persist-Gated :
      (o : ScrapeOutcome)
      → IsReported e x o
      → e.min_confidence ≤ o.confidence
      → 1 ≤ length (report_of e x).valid
      → Wrote (Gated e run t x) (persist e run (report_of e x).valid o t)
  persist-Gated o r confident some_valid =
      let tried = upsert_many (upsert_of e run) (report_of e x).valid t.ipos t.next_id in
      elim (Option-cases tried) [
        | inl lost ↦ rw (lost, Wrote) tt
        | inr (b, upserted) ↦
            rw (upserted, Wrote)
              (inr (record {
                batch = b;
                confident = confident;
                computed = r.computed;
                sound = (validate-IsSound e.today (normalize_many e x.records)).0;
                some_valid = some_valid;
                upserted = upserted;
                status = persisted-status o b;
                code = r.code;
                counters = refl;
                ipos = refl;
                snapshots = refl;
              }))
      ]

  pass_gates-Gated :
      (o : ScrapeOutcome)
      → IsReported e x o
      → Wrote (Gated e run t x) (pass_gates e run (report_of e x).valid o t)
  pass_gates-Gated o r = elim (Bool-cases (ltb o.confidence e.min_confidence)) [
    | inl low ↦
        rw (low, Wrote)
          (inl (record { status = r.status; code = refl; ipos = refl; snapshots = refl }))
    | inr high ↦ elim (Bool-cases (length (report_of e x).valid == 0)) [
      | inl nothing ↦
          rw (high, nothing, Wrote)
            (inl (record { status = r.status; code = refl; ipos = refl; snapshots = refl }))
      | inr something ↦
          rw (high, something, Wrote) (persist-Gated o r (ground arith) (ground arith))
    ]
  ]

  process-Gated : (payload : RawPayload) → Wrote (Gated e run t x) (process e run payload x t)
  unfolding process
  process-Gated payload = elim (Bool-cases (succeeded x)) [
    | inl found ↦
        rw (found, Wrote)
          (pass_gates-Gated (reported e x (found_outcome payload x t))
            (record { status = refl; code = refl; computed = refl }))
    | inr empty ↦
        rw (empty, Wrote)
          (inl (record { status = refl; code = refl; ipos = refl; snapshots = refl }))
  ]

-- Writing the run record leaves the issues alone.
retain_payload_keeps :
    (e : Env) (run : ScrapeRun) (payload : RawPayload) (o : ScrapeOutcome) (t : Tables)
    → ((retain_payload e run payload o t).ipos ≡ t.ipos)
      × ((retain_payload e run payload o t).snapshots ≡ t.snapshots)
unfolding retain_payload store_payload
retain_payload_keeps e run payload o t = elim (Bool-cases (keeps_payload e.retention_mode o)) [
  | inl kept ↦ rw kept (refl, refl)
  | inr dropped ↦ rw dropped (refl, refl)
]

module _ (e : Env) (run : ScrapeRun) (t : Tables) (x : ExtractionResult)
    (payload : RawPayload) where
  finish_with-Gated :
      (o : ScrapeOutcome) (t' : Tables)
      → Gated e run t x o t'
      → Returned (Gated e run t x) (finish_with e run payload o t')
  unfolding complete_run
  finish_with-Gated o t' h =
      let o' = record (timed e o) { http_status = some payload.http_status } in
      let (i, s) = retain_payload_keeps e run payload o' t' in
      elim h [
        | inl r ↦ inl (record {
          status = r.status;
          code = r.code;
          ipos = i ∙ r.ipos;
          snapshots = s ∙ r.snapshots;
        })
        | inr r ↦ inr (record {
          batch = r.batch;
          confident = r.confident;
          computed = r.computed;
          sound = r.sound;
          some_valid = r.some_valid;
          upserted = r.upserted;
          status = r.status;
          code = r.code;
          counters = r.counters;
          ipos = i ∙ r.ipos;
          snapshots = s ∙ r.snapshots;
        })
      ]

  finish_written-Gated :
      (w : Written)
      → Wrote (Gated e run t x) w
      → Returned (Gated e run t x) (finish_written e run payload w)
  finish_written-Gated (wrote o t') h = finish_with-Gated o t' h
  finish_written-Gated flush_failed h = tt

-- What the run's outcome and tables are, for what was fetched.
abbrev pub GatedBy : Env → Tables → ScrapeOutcome → Tables → Type 0
GatedBy e t o t' =
    let (opened, t1) = start_run e.api.url e.started t in
    IsRefused t o t'
    ⊎ (p : RawPayload) × (x : ExtractionResult) × (fetch_and_extract e ≡ ok (p, x))
      × IsStored e opened t1 x o t'

failure-code : (x : Exception) → is_some (failure x).error_code ≡ true
failure-code (fetch_error m) = refl
failure-code (scraper_error c m) = refl
failure-code (unexpected m) = refl

failure-status : (x : Exception) → (failure x).status ≡ failed
failure-status (fetch_error m) = refl
failure-status (scraper_error c m) = refl
failure-status (unexpected m) = refl

named-Gated :
    (e : Env) (t : Tables) (p : RawPayload) (x : ExtractionResult) (r : Ran)
    → fetch_and_extract e ≡ ok (p, x)
    → let (opened, t1) = start_run e.api.url e.started t in
      Returned (Gated e opened t1 x) r → Returned (GatedBy e t) r
unfolding start_run
named-Gated e t p x (returned o t') k (inl h) =
    inl (record { status = h.status; code = h.code; ipos = h.ipos; snapshots = h.snapshots })
named-Gated e t p x (returned o t') k (inr h) = inr (p, x, k, h)
named-Gated e t p x raised k h = tt

after_fetch-Gated :
    (e : Env) (t : Tables) (f : Result (RawPayload × ExtractionResult))
    → fetch_and_extract e ≡ f
    → let (opened, t1) = start_run e.api.url e.started t in
      Returned (GatedBy e t) (after_fetch e opened t1 f)
unfolding start_run complete_run
after_fetch-Gated e t (err x) k =
    inl (record { status = failure-status x; code = failure-code x; ipos = refl; snapshots = refl })
after_fetch-Gated e t (ok (p, x)) k =
    let (opened, t1) = start_run e.api.url e.started t in
    named-Gated e t p x (after_fetch e opened t1 (ok (p, x))) k (
      finish_written-Gated e opened t1 x p (process e opened p x t1)
        (process-Gated e opened t1 x p))

-- A run that returns either failed, with an error code and with the issues and their history left
-- as they were; or it ended as a success or a partial one, without a code: then what it fetched
-- has a confidence of at least the configured minimum, the validator kept a record, every record
-- that it kept is sound, and the issues and the history are what the upsert of those records made,
-- whose counters the outcome has.
pub run_gated :
    (e : Env) (t : Tables) (o : ScrapeOutcome) (t' : Tables)
    → run e t ≡ returned o t'
    → GatedBy e t o t'
unfolding run
run_gated e t o t' h =
    subst (Returned (GatedBy e t)) h (after_fetch-Gated e t (fetch_and_extract e) refl)
