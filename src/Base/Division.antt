-- ===== src/Base/Division.antt =====
-- Quotients of native numbers.
use help_me_bid_backend.Base.{ℕ, ◌+◌, ◌*◌, ◌/◌, ◌≤◌, ◌<◌, ◌≡◌, ◌↔◌, arith}

-- x / w = k exactly when x lies in the k-th block of w.
pub div_window : (x w k : ℕ) → 0 < w → (x / w ≡ k) ↔ ((k * w ≤ x) × (x < k * w + w))
div_window x w k h = (λ e. (grind arith, grind arith), λ p. grind arith)
