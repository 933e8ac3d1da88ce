-- ===== src/Notifications/Engine/Counts.antt =====
-- The counters of an evaluation (`EvaluationSummary`, app/services/notifications/engine.py).
use help_me_bid_backend.Base.{
  ℕ, suc, ◌+◌, ◌≡◌, Option, none, some, List, [], ◌∷◌, arith, inl, inr, Option-cases,
}
use help_me_bid_backend.Models.{Ipo, User, NotificationPreference}
use help_me_bid_backend.Store.{Store}
use help_me_bid_backend.Dates.{period_index}
use help_me_bid_backend.Notifications.Providers.{DeviceTarget}
use help_me_bid_backend.Notifications.World.{
  World, Response, raised, returned, killed, Env, EvaluationSummary, Outcome, done, value_error,
  died, Pass,
}
use help_me_bid_backend.Notifications.Engine.{
  settle, deliver, after_claim, dispatch, finish, evaluate,
}
use help_me_bid_backend.Notifications.Engine.Loops.{evaluate-R}

-- Every match ended as a claim or a duplicate, and every claim as sent, failed or skipped.
pub record IsBalanced (s : EvaluationSummary) : Type 0 where
  pub matched : s.matches ≡ s.claimed + s.duplicates_skipped
  pub settled : s.claimed ≡ s.sent + s.failed + s.skipped_no_device

-- The outcome, if it is a summary, is balanced.
abbrev pub EndsBalanced : Outcome × World → Type 0
EndsBalanced (done s, w) = IsBalanced s
EndsBalanced (value_error, w) = Unit
EndsBalanced (died, w) = Unit

settle-EndsBalanced :
    (env : Env) (id : ℕ) (r : Response) (s : EvaluationSummary) (w : World)
    → s.matches ≡ s.claimed + s.duplicates_skipped
    → s.claimed ≡ suc (s.sent + s.failed + s.skipped_no_device)
    → EndsBalanced (settle env id r s w)
unfolding settle
settle-EndsBalanced env id (raised error) s w e f = omega arith
settle-EndsBalanced env id (returned r) s w e f = ground arith
settle-EndsBalanced env id killed s w e f = tt

module _ (p : Pass) (preference : NotificationPreference) (user : User) (ipo : Ipo) where
  deliver-EndsBalanced :
      (k id : ℕ) (targets : List DeviceTarget) (s : EvaluationSummary) (w : World)
      → s.matches ≡ s.claimed + s.duplicates_skipped
      → s.claimed ≡ suc (s.sent + s.failed + s.skipped_no_device)
      → EndsBalanced (deliver p preference user ipo k id targets s w)
  unfolding deliver
  deliver-EndsBalanced k id [] s w e f = omega arith
  deliver-EndsBalanced k id (t ∷ ts) s w e f = settle-EndsBalanced p.env id _ s _ e f

  after_claim-EndsBalanced :
      (k : ℕ) (answer : Option ℕ × Store) (s : EvaluationSummary) (w : World)
      → s.matches ≡ suc (s.claimed + s.duplicates_skipped)
      → s.claimed ≡ s.sent + s.failed + s.skipped_no_device
      → EndsBalanced (after_claim p preference user ipo k answer s w)
  unfolding after_claim
  after_claim-EndsBalanced k (none, store) s w e f = omega arith
  after_claim-EndsBalanced k (some id, store) s w e f =
      deliver-EndsBalanced k id _ _ _ (omega arith) (omega arith)

  dispatch-EndsBalanced :
      (s : EvaluationSummary) (w : World)
      → IsBalanced s
      → EndsBalanced (dispatch p preference user ipo (record s { matches = suc s.matches }) w)
  unfolding dispatch
  dispatch-EndsBalanced s w h =
      elim (Option-cases (period_index p.now preference.interval_minutes)) [
        | inl below ↦ rw (below, dispatch) tt
        | inr (k, window) ↦
            rw (window, dispatch) (after_claim-EndsBalanced k _ _ w (omega arith) (omega arith))
      ]

through :
    (s s' : EvaluationSummary) (w w' : World) (r : Outcome × World)
    → (IsBalanced s → EndsBalanced (done s', w'))
    → (IsBalanced s' → EndsBalanced r)
    → IsBalanced s
    → EndsBalanced r
through s s' w w' r f g h = g (f h)

finish-EndsBalanced :
    (env : Env) (ids : List ℕ) (s : EvaluationSummary) (w : World)
    → IsBalanced s
    → EndsBalanced (finish env ids s w)
finish-EndsBalanced env [] s w h = h
finish-EndsBalanced env (id ∷ ids) s w h = h

-- An evaluation that ends with a summary accounts for every match: it was claimed or skipped as a
-- duplicate, and every claim was sent, failed, or skipped for want of a device.
pub evaluate-EndsBalanced : (p : Pass) (w : World) → EndsBalanced (evaluate p w)
evaluate-EndsBalanced p w =
    (evaluate-R p (λ s v r. IsBalanced s → EndsBalanced r) (λ s v h. h) through
        (λ preference user ipo s v rule closing matches h.
          dispatch-EndsBalanced p preference user ipo s v h)
        (λ ids s v h. finish-EndsBalanced p.env ids s v h) w).2
      (omega arith)
