-- ===== src/Workers/Times.antt =====
-- The daily windows of the scraper: `_split_schedule_times`, `_validate_schedule_times` and
-- `scrape_windows` of app/core/config.py. Python's `int` on a text is an argument.
pub mod Written
use Prim.Native.Char.{Char, code}
use help_me_bid_backend.Base.{
  ℕ, zero, suc, ◌+◌, ◌/◌, ◌%◌, ◌≤◌, ◌<◌, ◌≡◌, refl, ◌==◌, ◌&&◌, leb, String, Bool, true, false,
  Option, none, some, List, [], ◌∷◌, str_eq, arith, inl, inr, Bool-cases, Option-cases, ap,
  if◌then◌else◌,
}
use help_me_bid_backend.Base.Int.{ℤ, pos, negsuc}
use help_me_bid_backend.Store.{split_on, strip, truncate}

-- What is before the first occurrence of a character, and after it.
unfoldable pub partition : ℕ → String → String × String
partition sep String.[] = ("", "")
partition sep (String.◌∷◌ c s) =
    let (before, after) = partition sep s in
    if code c == sep then ("", s) else (String.◌∷◌ c before, after)

abbrev kept : List String → List String
kept [] = []
kept (w ∷ ws) = if str_eq (strip w) "" then kept ws else strip w ∷ kept ws

-- `[item.strip() for item in value.split(",") if item.strip()]`
unfoldable pub split_schedule_times : String → List String
split_schedule_times value = let (word, words) = split_on 44 value in kept (word ∷ words)

abbrev pub digit_of : List Char → ℕ → Char
digit_of [] n = "?"
digit_of (c ∷ cs) zero = c
digit_of (c ∷ cs) (suc n) = digit_of cs n

abbrev pub digit : ℕ → Char
digit n = digit_of ("0" ∷ "1" ∷ "2" ∷ "3" ∷ "4" ∷ "5" ∷ "6" ∷ "7" ∷ "8" ∷ "9" ∷ []) n

-- `f"{n:02d}"`, for n below 100, before a text.
abbrev pub two_digits : ℕ → String → String
two_digits n rest = String.◌∷◌ (digit (n / 10)) (String.◌∷◌ (digit (n % 10)) rest)

abbrev pub entry : ℕ → ℕ → String
entry hour minute = two_digits hour (String.◌∷◌ ":" (two_digits minute ""))

abbrev pub checked : Option ℤ → Option ℤ → Option String
checked (some (pos h)) (some (pos m)) = if leb h 23 && leb m 59 then some (entry h m) else none
checked _ _ = none

abbrev pub cons_some {ℓ} : {A : Type ℓ} → Option A → Option (List A) → Option (List A)
cons_some (some x) (some xs) = some (x ∷ xs)
cons_some _ _ = none

abbrev pub pair_of : Option ℤ → Option ℤ → Option (ℤ × ℤ)
pair_of (some h) (some m) = some (h, m)
pair_of _ _ = none

abbrev pub after_three : String → String
after_three (String.◌∷◌ a (String.◌∷◌ b (String.◌∷◌ c s))) = s
after_three _ = ""

module _ (int : String → Option ℤ) where
  -- One entry of `_validate_schedule_times`: `none` is the `ValueError`.
  unfoldable pub validate_time : String → Option String
  unfolding partition
  validate_time raw = checked (int (partition 58 raw).0) (int (partition 58 raw).1)

  unfoldable pub validate_schedule_times : List String → Option (List String)
  unfolding validate_time
  validate_schedule_times [] = some []
  validate_schedule_times (raw ∷ value) =
      cons_some (validate_time raw) (validate_schedule_times value)

  -- `scrape_windows`: `none` where `int` raises.
  unfoldable pub scrape_windows : List String → Option (List (ℤ × ℤ))
  unfolding truncate
  scrape_windows [] = some []
  scrape_windows (e ∷ es) =
      cons_some (pair_of (int (truncate 2 e)) (int (after_three e))) (scrape_windows es)

  -- The hours and minutes as they are written.
  abbrev pub written_windows : List String → Option (List (ℤ × ℤ))
  written_windows [] = some []
  written_windows (raw ∷ value) =
      cons_some (pair_of (int (partition 58 raw).0) (int (partition 58 raw).1))
        (written_windows value)
