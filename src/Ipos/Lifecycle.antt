-- ===== src/Ipos/Lifecycle.antt =====
-- The two status derivations of Status, and the order of the stages.
use help_me_bid_backend.Base.{ℕ, ◌≤◌, ◌≡◌, arith}
use help_me_bid_backend.Models.{Ipo}
use help_me_bid_backend.Ipos.Status.{
  IpoStatus, upcoming, opened, closing_today, closed, listed, unknown, derive_status,
  ipo_status_expression,
}

-- Filtering by status in SQL and labelling the rows in Python agree on every row and every day,
-- whichever of the dates are missing.
pub derive_status-expression :
    (ipo : Ipo) (today : ℕ) → derive_status ipo today ≡ ipo_status_expression today ipo
unfolding derive_status ipo_status_expression
derive_status-expression ipo today = ground arith

-- The order of an issue's life.
abbrev pub stage : IpoStatus → ℕ
stage unknown = 0
stage upcoming = 1
stage opened = 2
stage closing_today = 3
stage closed = 4
stage listed = 5

-- As the days pass, a row with fixed dates never goes back to an earlier stage, even when its
-- dates are missing or out of order.
pub derive_status-monotone :
    (ipo : Ipo) (today later : ℕ)
    → today ≤ later
    → stage (derive_status ipo today) ≤ stage (derive_status ipo later)
unfolding derive_status
derive_status-monotone ipo today later h = ground arith
