-- ===== src/Scraper/Pipeline/Kept.antt =====
-- The records that the validator keeps of an extraction (app/services/scraper/pipeline.py): what
-- holds of each cleaned record of the normalizer holds of them.
use help_me_bid_backend.Base.{
  ◌≡◌, sym, subst, some, List, [], ◌∷◌, All, String, Bool-cases, Option-cases, inl, inr,
}
use mathlib.Core.List.{map}
use help_me_bid_backend.Scraper.Records.{NormalizedIpo}
use help_me_bid_backend.Scraper.Stages.{ExtractedRecord, ExtractionResult}
use help_me_bid_backend.Scraper.Validator.{cleaned}
use help_me_bid_backend.Scraper.Validator.Batch.{is_refused, sound_firsts, validate_lem}
use help_me_bid_backend.Scraper.Pipeline.{Env, normalize_many}
use help_me_bid_backend.Scraper.Pipeline.Gate.{report_of}

module _ (e : Env) (P : NormalizedIpo → Type 0)
    (each : (r : ExtractedRecord) (n : NormalizedIpo)
      → e.normalize r ≡ some n
      → P (cleaned e.today n)) where
  abbrev Cleaned : NormalizedIpo → Type 0
  Cleaned n = P (cleaned e.today n)

  normalize_many-All : (rs : List ExtractedRecord) → All Cleaned (normalize_many e rs)
  unfolding normalize_many
  normalize_many-All [] = tt
  normalize_many-All (r ∷ rs) = elim (Option-cases (e.normalize r)) [
    | inl lost ↦ rw (lost, normalize_many) (normalize_many-All rs)
    | inr (n, read) ↦ rw (read, normalize_many) (each r n read, normalize_many-All rs)
  ]

  firsts-All :
      (seen : List String) (ns : List NormalizedIpo)
      → All Cleaned ns
      → All P (map (cleaned e.today) (sound_firsts seen ns))
  firsts-All seen [] h = tt
  firsts-All seen (n ∷ ns) h = elim (Bool-cases (is_refused seen n)) [
    | inl refused ↦ rw refused (firsts-All (n.source_ipo_id ∷ seen) ns h.1)
    | inr kept ↦ rw kept (h.0, firsts-All (n.source_ipo_id ∷ seen) ns h.1)
  ]

  pub report_of-All : (x : ExtractionResult) → All P (report_of e x).valid
  report_of-All x =
      let ns = normalize_many e x.records in
      subst (All P) (sym (validate_lem e.today ns).0)
        (firsts-All [] ns (normalize_many-All x.records))
