-- ===== src/Scraper/Pipeline/Completes.antt =====
-- When a scrape ends without an outcome (app/services/scraper/pipeline.py and run_scrape of
-- app/workers/scraper_worker.py): exactly when the flush of its
-- upsert meets a value or a row that the table `ipos` refuses. The rows of the run and its payload
-- are taken to be storable.
use help_me_bid_backend.Base.{
  ℕ, ◌≡◌, refl, subst, Bool, true, false, List, [], ◌∷◌, arith, inl, inr, ◌⊎◌, Bool-cases, length,
  ltb, ◌==◌, ◌≤◌, ◌↔◌, some, none, if◌then◌else◌,
}
use help_me_bid_backend.Ipos.Upsert.{Upsert, Batch, upsert_records, new_row}
use help_me_bid_backend.Ipos.Upsert.Identity.{upsert_many_lem}
use help_me_bid_backend.Ipos.Upsert.New.{upsert_records-IsClean, IsClean-is_storable, Unknown, Fits}
use help_me_bid_backend.Ipos.Flush.{start, unique_rows, is_storable, upsert_many}
use help_me_bid_backend.Ipos.Columns.{stored_batch, row_fits}
use help_me_bid_backend.Scraper.Pipeline.Kept.{report_of-All}
use help_me_bid_backend.Scraper.Validator.{cleaned}
use help_me_bid_backend.Scraper.Confidence.{compute_confidence}
use help_me_bid_backend.Scraper.Records.{NormalizedIpo}
use help_me_bid_backend.Scraper.Validator.Sound.{validate-IsSound}
use help_me_bid_backend.Scraper.Stages.{
  RawPayload, ExtractedRecord, ExtractionResult, succeeded, ScrapeOutcome, Result, ok, err,
}
use help_me_bid_backend.Scraper.Runs.{ScrapeRun, Tables, start_run}
use help_me_bid_backend.Scraper.Pipeline.{
  Env, fetch_and_extract, normalize_many, upsert_of, Written, wrote, flush_failed, persist, process,
  found_outcome, reported, Ran, returned, raised, after_fetch, finish_written, run, crashed,
  run_scrape,
}
use help_me_bid_backend.Scraper.Pipeline.Gate.{report_of}

-- What the upsert of a run leaves for the flush.
abbrev pub batch_left : Env → ScrapeRun → Tables → ExtractionResult → Batch
batch_left e run t x =
    upsert_records (upsert_of e run) (report_of e x).valid (start t.ipos t.next_id)

-- The extraction passes the gates, and the tables refuse what the upsert makes of it.
pub record IsRefusedBatch (e : Env) (run : ScrapeRun) (t : Tables) (x : ExtractionResult)
    : Type 0 where
  pub found : succeeded x ≡ true
  pub confident : e.min_confidence ≤ compute_confidence x.confidence (report_of e x) 1
  pub some_valid : 1 ≤ length (report_of e x).valid
  pub refused : is_storable (batch_left e run t x) ≡ false

-- A property where a stage, or a run, fails in the flush.
abbrev Lost : Type 0 → Written → Type 0
Lost P (wrote o t) = Unit
Lost P flush_failed = P

abbrev Raised : Type 0 → Ran → Type 0
Raised P (returned o t) = Unit
Raised P raised = P

module _ (e : Env) (run : ScrapeRun) (t : Tables) (x : ExtractionResult)
    (unique : unique_rows t.ipos ≡ true) where
  upsert_left :
      1 ≤ length (report_of e x).valid
      → upsert_many (upsert_of e run) (report_of e x).valid t.ipos t.next_id ≡ (
          if is_storable (batch_left e run t x)
          then some (stored_batch (batch_left e run t x))
          else none)
  upsert_left h =
      upsert_many_lem (upsert_of e run) (report_of e x).valid t.ipos t.next_id
        (validate-IsSound e.today (normalize_many e x.records)).1 unique h

  persist-Lost :
      (o : ScrapeOutcome)
      → 1 ≤ length (report_of e x).valid
      → Lost (is_storable (batch_left e run t x) ≡ false) (persist e run (report_of e x).valid o t)
  persist-Lost o h = elim (Bool-cases (is_storable (batch_left e run t x))) [
    | inl passes ↦ rw (upsert_left h, passes, Lost) tt
    | inr fails ↦ rw (upsert_left h, fails, Lost) fails
  ]

  persist_fails :
      (o : ScrapeOutcome)
      → 1 ≤ length (report_of e x).valid
      → is_storable (batch_left e run t x) ≡ false
      → persist e run (report_of e x).valid o t ≡ flush_failed
  persist_fails o h fails = rw (upsert_left h, fails, persist) refl

  Lost-map : {P Q : Type 0} (w : Written) → (P → Q) → Lost P w → Lost Q w
  Lost-map (wrote o t) f h = tt
  Lost-map flush_failed f h = f h

  process-Lost : (p : RawPayload) → Lost (IsRefusedBatch e run t x) (process e run p x t)
  unfolding process
  process-Lost p =
      let r = reported e x (found_outcome p x t) in
      elim (Bool-cases (succeeded x)) [
        | inr empty ↦ rw (empty, Lost) tt
        | inl found ↦ elim (Bool-cases (ltb r.confidence e.min_confidence)) [
          | inl low ↦ rw (found, low, Lost) tt
          | inr high ↦ elim (Bool-cases (length (report_of e x).valid == 0)) [
            | inl nothing ↦ rw (found, high, nothing, Lost) tt
            | inr something ↦
                let some_valid : 1 ≤ length (report_of e x).valid = ground arith in
                rw (found, high, something)
                  (Lost-map (persist e run (report_of e x).valid r t)
                    (λ refused. record {
                      found = found;
                      confident = ground arith;
                      some_valid = some_valid;
                      refused = refused;
                    })
                    (persist-Lost r some_valid))
          ]
        ]
      ]

  process_fails : (p : RawPayload) → IsRefusedBatch e run t x → process e run p x t ≡ flush_failed
  unfolding process
  process_fails p h =
      let high : ltb (compute_confidence x.confidence (report_of e x) 1) e.min_confidence ≡ false =
        ground (arith, h.confident) in
      let something : (length (report_of e x).valid == 0) ≡ false = ground (arith, h.some_valid) in
      rw (h.found, high, something)
        (persist_fails (reported e x (found_outcome p x t)) h.some_valid h.refused)

-- What was fetched passes the gates, and the tables refuse what the upsert makes of it.
abbrev pub BreaksTable : Env → Tables → Type 0
BreaksTable e t =
    let (opened, t1) = start_run e.api.url e.started t in
    (p : RawPayload) × (x : ExtractionResult) × (fetch_and_extract e ≡ ok (p, x))
    × IsRefusedBatch e opened t1 x

finish_written-Raised :
    (e : Env) (r : ScrapeRun) (p : RawPayload) {P Q : Type 0} (w : Written)
    → (P → Q)
    → Lost P w
    → Raised Q (finish_written e r p w)
finish_written-Raised e r p (wrote o t) f h = tt
finish_written-Raised e r p flush_failed f h = f h

module _ (e : Env) (t : Tables) (unique : unique_rows t.ipos ≡ true) where
  after_fetch-Raised :
      (f : Result (RawPayload × ExtractionResult))
      → fetch_and_extract e ≡ f
      → let (opened, t1) = start_run e.api.url e.started t in
        Raised (BreaksTable e t) (after_fetch e opened t1 f)
  unfolding start_run
  after_fetch-Raised (err x) k = tt
  after_fetch-Raised (ok (p, x)) k =
      let (opened, t1) = start_run e.api.url e.started t in
      finish_written-Raised e opened p (process e opened p x t1) (λ h. (p, x, k, h))
        (process-Lost e opened t1 x unique p)

  run_raised : run e t ≡ raised → BreaksTable e t
  unfolding run
  run_raised h = subst (Raised (BreaksTable e t)) h (after_fetch-Raised (fetch_and_extract e) refl)

  run_raises : BreaksTable e t → run e t ≡ raised
  unfolding run start_run
  run_raises (p, x, k, h) =
      let (opened, t1) = start_run e.api.url e.started t in
      rw (k, process_fails e opened t1 x unique p h) refl

Ran-cases : (r : Ran) → (r ≡ raised) ⊎ ((o : ScrapeOutcome) × (t : Tables) × (r ≡ returned o t))
Ran-cases (returned o t) = inr (o, t, refl)
Ran-cases raised = inl refl

Unknown-nil : (u : Upsert) (rs : List NormalizedIpo) → Unknown u [] rs
Unknown-nil u [] = tt
Unknown-nil u (r ∷ rs) = (refl, Unknown-nil u rs)

-- Without issues in the table, what the upsert leaves can be stored.
batch_left_first :
    (e : Env) (r : ScrapeRun) (t : Tables) (x : ExtractionResult)
    → t.ipos ≡ []
    → Fits (upsert_of e r) (report_of e x).valid
    → is_storable (batch_left e r t x) ≡ true
batch_left_first e r t x h fits =
    let (sound, distinct) = validate-IsSound e.today (normalize_many e x.records) in
    let valid = (report_of e x).valid in
    IsClean-is_storable (batch_left e r t x) (
      upsert_records-IsClean (upsert_of e r) e.today valid (start t.ipos t.next_id) sound fits
        (rw h (Unknown-nil (upsert_of e r) valid)) (record { rows = rw h refl; snapshots = refl }))

-- A scrape into a table without issues always ends with an outcome, whatever the source answers and
-- whatever the extractor makes of it, provided that the types of the columns take the values of
-- every record that the normalizer makes, once the validator has cleaned it. (That the rows of the
-- run and of its payload can be stored is assumed of the model.)
pub first_run_completes :
    (e : Env) (t : Tables)
    → t.ipos ≡ []
    → ((r : ExtractedRecord) (n : NormalizedIpo)
        → e.normalize r ≡ some n
        → let (opened, t1) = start_run e.api.url e.started t in
          (id : ℕ) → row_fits (new_row (upsert_of e opened) id (cleaned e.today n)) ≡ true)
    → (o : ScrapeOutcome) × (t' : Tables) × (run e t ≡ returned o t')
unfolding start_run
first_run_completes e t h fits = elim (Ran-cases (run e t)) [
  | inr done ↦ done
  | inl lost ↦
      let (opened, t1) = start_run e.api.url e.started t in
      let (p, x, k, broken) = run_raised e t (rw h refl) lost in
      let kept =
        report_of-All e (λ n. (id : ℕ) → row_fits (new_row (upsert_of e opened) id n) ≡ true) fits
          x in
      ground (arith, broken.refused, batch_left_first e opened t1 x h kept)
]

-- On a table without repeated identities a job crashes exactly when it has the lock, what it fetched
-- passes the gates, and the table `ipos` refuses a row or a snapshot that the upsert leaves: by the
-- type of a column, or by a CHECK constraint on what the columns keep. (That the rows of the run and
-- of its payload can be stored is assumed of the model.)
pub run_scrape_crashed_iff :
    (e : Env) (acquired : Bool) (t : Tables)
    → unique_rows t.ipos ≡ true
    → ((run_scrape e acquired t).0 ≡ crashed) ↔ ((acquired ≡ true) × BreaksTable e t)
unfolding run_scrape
run_scrape_crashed_iff e false t unique = (λ h. cc, λ (h, k). cc)
run_scrape_crashed_iff e true t unique = (
  λ h. elim (Ran-cases (run e t)) [
    | inl lost ↦ (refl, run_raised e t unique lost)
    | inr (o, t', k) ↦ cc
  ],
  λ (_, h). rw (run_raises e t unique h) refl,
)
