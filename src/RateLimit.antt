-- ===== src/RateLimit.antt =====
-- `RateLimitMiddleware` of app/core/middleware.py, for a request to a limited path while limiting is
-- switched on. An instant is a reading of `time.monotonic()` in microseconds; the key is the text
-- that the code makes of the client's address and the path.
pub mod Window
mod Tests
use help_me_bid_backend.Base.{
  ℕ, suc, ◌+◌, ◌-◌, ◌*◌, ◌/◌, ltb, leb, not, ◌||◌, String, Bool, true, false, List, [], ◌∷◌, ◌++◌,
  filter, length, str_eq, if◌then◌else◌,
}
use help_me_bid_backend.Dates.{second}

abbrev pub window : ℕ
window = 60 * second

-- `self._hits`: the instants of the admitted requests of each key, oldest first.
abbrev pub Hits : Type 0
Hits = List (String × List ℕ)

-- The requester is let through, or is told to wait for a number of seconds. With a limit of zero
-- the code reads the oldest of no hits.
pub data Verdict : Type 0 where
  admitted index_error : Verdict
  limited : (retry_after : ℕ) → Verdict

-- The loop that drops the hits before the window.
unfoldable pub expire : ℕ → List ℕ → List ℕ
expire now [] = []
expire now (h ∷ hits) =
    let rest = expire now hits in if ltb (h + window) now then rest else h ∷ hits

abbrev pub refuse : ℕ → List ℕ → Verdict
refuse now [] = index_error
refuse now (h ∷ hits) = limited ((window - (now - h)) / second + 1)

-- The decision on the hits of one key, and the hits it leaves.
unfoldable pub admit : (limit now : ℕ) → List ℕ → Verdict × List ℕ
unfolding expire
admit limit now hits =
    let kept = expire now hits in
    if leb limit (length kept) then (refuse now kept, kept) else (admitted, kept ++ now ∷ [])

-- `self._hits[key]`, where a missing key has no hits, and writing it back.
abbrev pub hits_of : String → Hits → List ℕ
hits_of key [] = []
hits_of key ((k, hits) ∷ rest) = if str_eq k key then hits else hits_of key rest

abbrev pub with_hits : String → List ℕ → Hits → Hits
with_hits key hits [] = (key, hits) ∷ []
with_hits key hits ((k, old) ∷ rest) =
    let others = with_hits key hits rest in
    if str_eq k key then (k, hits) ∷ rest else (k, old) ∷ others

-- `not v or now - v[-1] > self.window_seconds`
abbrev pub is_idle : ℕ → List ℕ → Bool
is_idle now [] = true
is_idle now (h ∷ []) = ltb (h + window) now
is_idle now (h ∷ g ∷ hits) = is_idle now (g ∷ hits)

unfoldable pub prune : ℕ → Hits → Hits
prune now all = if ltb (length all) 1_000 then all else filter (λ e. not (is_idle now e.1)) all

abbrev pub after_admit : ℕ → String → Verdict × List ℕ → Hits → Verdict × Hits
after_admit now key (admitted, hits) all = (admitted, prune now (with_hits key hits all))
after_admit now key (index_error, hits) all = (index_error, with_hits key hits all)
after_admit now key (limited seconds, hits) all = (limited seconds, with_hits key hits all)

-- `dispatch`, up to `call_next`.
unfoldable pub dispatch : (limit now : ℕ) → String → Hits → Verdict × Hits
dispatch limit now key all = after_admit now key (admit limit now (hits_of key all)) all
