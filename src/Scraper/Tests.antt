-- ===== src/Scraper/Tests.antt =====
-- The validator on a batch of three records: a good one with an inverted price band, one without a
-- name, and one that repeats the identity of the first.
use help_me_bid_backend.Base.{ℕ, ◌≡◌, refl, Option, none, some, List, [], ◌∷◌, All, map, length}
use help_me_bid_backend.Base.Int.{ℤ}
use help_me_bid_backend.Models.{units}
use help_me_bid_backend.Scraper.Samples.{acme}
use help_me_bid_backend.Scraper.Records.{NormalizedIpo, total, stripped_length}
use help_me_bid_backend.Scraper.Validator.{
  cleaned, fatal_issues, other_issues, validate_record, note_record, validate_from, validate,
}
use help_me_bid_backend.Scraper.Validator.Batch.{sound_firsts, validate_lem}
use help_me_bid_backend.Scraper.Validator.Sound.{IsSound, DistinctIds, validate-IsSound}

abbrev today : ℕ
today = 20_000

abbrev nameless : NormalizedIpo
nameless = record acme { source_ipo_id = "2"; name = "  " }

abbrev again : NormalizedIpo
again = record acme { gmp = some (units 30) }

abbrev batch : List NormalizedIpo
batch = acme ∷ nameless ∷ again ∷ []

checks : Unit {0}
unfolding cleaned fatal_issues other_issues validate_record note_record validate_from validate
    stripped_length
checks = tt

-- The far listing date goes, the band is swapped, and the two bad records are dropped.
one_is_kept :
    map {B = Option ℕ × Option ℤ × Option ℤ}
      (λ r. (r.listing_date, r.price_min, r.price_max))
      (validate today batch).valid
    ≡ (none, some (units 100), some (units 120)) ∷ []
unfolding checks
one_is_kept = refl

two_are_dropped : length (validate today batch).rejected ≡ 2
unfolding checks
two_are_dropped = refl

validate_lem_example :
    ((validate 20_000 batch).valid ≡ map (cleaned 20_000) (sound_firsts [] batch))
    × (total (validate 20_000 batch) ≡ 3)
validate_lem_example = validate_lem 20_000 batch

validate-IsSound_example :
    All (IsSound 20_000) (validate 20_000 batch).valid × DistinctIds (validate 20_000 batch).valid
validate-IsSound_example = validate-IsSound 20_000 batch
