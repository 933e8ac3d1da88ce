-- ===== src/Scraper/Confidence.antt =====
-- The confidences of the scraper: `compute_confidence` of app/services/scraper/validator.py and
-- `_score_mapping` of app/services/scraper/extractor.py. Both round to three decimals, so a
-- confidence is a whole number of thousandths. The error of floating-point arithmetic is left out.
use help_me_bid_backend.Base.{
  ℕ, suc, ◌+◌, ◌*◌, ◌/◌, ◌%◌, ◌==◌, ◌||◌, ltb, leb, Bool, if◌then◌else◌, length,
}
use help_me_bid_backend.Scraper.Records.{ValidationReport, total}

abbrev pub min : ℕ → ℕ → ℕ
min a b = if leb a b then a else b

-- `round`: to the nearest whole number, and to the even one of two that are equally near.
abbrev pub round_ratio : ℕ → ℕ → ℕ
round_ratio n d =
    let q = n / d in
    let r = 2 * (n % d) in
    if ltb r d then q else if ltb d r then suc q else if q % 2 == 0 then q else suc q

-- 0.6 of the extraction's confidence, and 0.4 of the share of the records that are valid.
unfoldable pub compute_confidence : ℕ → ValidationReport → ℕ → ℕ
compute_confidence extraction report expected =
    let valid = length report.valid in
    if ltb (total report) expected || valid == 0
    then 0
    else min (round_ratio (6 * extraction * total report + 4000 * valid) (10 * total report)) 1000

-- The required columns are `required`, of which `found` were located.
unfoldable pub score_mapping : (found required : ℕ) → Bool → (row_count : ℕ) → ℕ
score_mapping found required has_identity row_count =
    let score = 700 * found + (if has_identity then 300 * required else 0) in
    if ltb row_count 1
    then 0
    else if ltb row_count 3
    then min (round_ratio (8 * score) (10 * required)) 1000
    else min (round_ratio score required) 1000
