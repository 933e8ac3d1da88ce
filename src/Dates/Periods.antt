-- ===== src/Dates/Periods.antt =====
-- The fixed windows of `period_index` (app/utils/dates.py).
use help_me_bid_backend.Base.{
  ℕ, ◌+◌, ◌-◌, ◌*◌, ◌/◌, ◌≤◌, ◌<◌, ◌≡◌, ◌≢◌, ◌↔◌, some, refl, sym, arith,
}
use help_me_bid_backend.Base.Division.{div_window}
use help_me_bid_backend.Dates.{second, period_index}

div_apart : (x y w : ℕ) → 0 < w → x + w ≤ y → x / w ≢ y / w
div_apart x y w h gap e =
    let (low, _) = (div_window x w (x / w) h).0 refl in
    let (_, high) = (div_window y w (x / w) h).0 (sym e) in omega arith

div_boundary : (k w : ℕ) → 0 < w → (k * w + w - 1) / w ≢ (k * w + w - 1 + 1) / w
div_boundary k w h e =
    let here = (div_window (k * w + w - 1) w k h).1 (omega arith, omega arith) in
    let next = (div_window (k * w + w - 1 + 1) w (k + 1) h).1 (grind arith, grind arith) in
    omega arith

whole_second : (n : ℕ) → n * second / second ≡ n
whole_second n = omega arith

next_second : (n : ℕ) → (n * second + second) / second ≡ n + 1
next_second n = omega arith

-- From an interval of at least one minute the index is always computed, and it is the number of
-- the window of that length in which the instant lies, counted from the epoch; below one minute
-- the call raises.
period_index_iff :
    (now interval k : ℕ)
    → (period_index now interval ≡ some k) ↔ (
        (1 ≤ interval)
        × (k * (interval * 60) ≤ now / second)
        × (now / second < k * (interval * 60) + interval * 60))
unfolding period_index
period_index_iff now interval k = (
  λ e. (
    ground arith,
    ground (arith, div_window (now / second) (interval * 60) k),
    ground (arith, div_window (now / second) (interval * 60) k),
  ),
  λ p. ground (arith, div_window (now / second) (interval * 60) k),
)

-- For an interval of at least one minute, two instants that are at least one interval apart have
-- different indexes, so a rule may notify again once its interval has elapsed.
pub period_index_separates :
    (now later interval : ℕ)
    → 1 ≤ interval
    → now + interval * 60 * second ≤ later
    → period_index now interval ≢ period_index later interval
unfolding period_index
period_index_separates now later interval h gap e =
    ground (arith, div_apart (now / second) (later / second) (interval * 60))

-- The interval is no minimum gap: for every interval of at least one minute, the last second of
-- every window and the first second of the next one have different indexes.
period_index_boundary :
    (interval k : ℕ)
    → 1 ≤ interval
    → let last = (k * (interval * 60) + interval * 60 - 1) * second in
      period_index last interval ≢ period_index (last + second) interval
unfolding period_index
period_index_boundary interval k h e = ground (
  arith,
  whole_second (k * (interval * 60) + interval * 60 - 1),
  next_second (k * (interval * 60) + interval * 60 - 1),
  div_boundary k (interval * 60),
)
