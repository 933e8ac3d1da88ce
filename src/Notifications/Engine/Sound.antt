-- ===== src/Notifications/Engine/Sound.antt =====
-- Who is notified of what: the calls of the provider in an evaluation
-- (app/services/notifications/engine.py).
use help_me_bid_backend.Base.{
  ℕ, ◌≡◌, ◌≢◌, refl, true, Option, none, some, List, [], ◌∷◌, arith, inl, inr, Bool-cases,
  Option-cases, All, String, is_some, find, subst, sym, ◌∙◌,
}
use help_me_bid_backend.Models.{Ipo, User, NotificationPreference, close_date}
use help_me_bid_backend.Store.{Store}
use help_me_bid_backend.Devices.{has_token}
use help_me_bid_backend.Dates.{period_index}
use help_me_bid_backend.Ipos.Closing.{closes_on}
use help_me_bid_backend.Notifications.Rules.Eligible.{IsEligible, rule_matches_iff}
use help_me_bid_backend.Notifications.Providers.{DeviceTarget}
use help_me_bid_backend.Notifications.World.{
  Send, World, Response, raised, returned, killed, Env, EvaluationSummary, Pass, today,
}
use help_me_bid_backend.Notifications.Engine.{
  invalidate_tokens, settle, deliver, after_claim, dispatch, finish, evaluate,
}
use help_me_bid_backend.Notifications.Engine.Loops.{evaluate-R}

-- A call of the provider that the rules allow.
pub record IsJust (day : ℕ) (c : Send) : Type 0 where
  pub enabled : c.preference.is_enabled ≡ true
  pub owner : c.user.id ≡ c.preference.user_id
  pub active : c.user.is_active ≡ true
  pub closes_today : c.ipo.columns close_date ≡ some day
  pub eligible : IsEligible c.preference c.ipo day
  pub targets : c.targets ≢ []

sends-invalidate_tokens :
    (env : Env) (tokens : List String) (w : World)
    → (invalidate_tokens env tokens w).sends ≡ w.sends
unfolding invalidate_tokens
sends-invalidate_tokens env [] w = refl
sends-invalidate_tokens env (t ∷ tokens) w =
    sends-invalidate_tokens env tokens _
    ∙ elim (Bool-cases (is_some (find (has_token t) w.session.devices))) [
      | inl known ↦ rw known
      | inr unknown ↦ rw unknown
    ]

sends-settle :
    (env : Env) (id : ℕ) (r : Response) (s : EvaluationSummary) (w : World)
    → (settle env id r s w).1.sends ≡ w.sends
unfolding settle
sends-settle env id (raised error) s w = refl
sends-settle env id (returned r) s w =
    ground (arith, sends-invalidate_tokens env r.invalid_tokens w)
sends-settle env id killed s w = refl

module _ (p : Pass) (preference : NotificationPreference) (user : User) (ipo : Ipo)
    (rule : (preference.is_enabled ≡ true)
      × (user.id ≡ preference.user_id)
      × (user.is_active ≡ true))
    (closing : ipo.columns close_date ≡ some (today p))
    (eligible : IsEligible preference ipo (today p)) where
  deliver-IsJust :
      (k id : ℕ) (targets : List DeviceTarget) (s : EvaluationSummary) (w : World)
      → All (IsJust (today p)) w.sends
      → All (IsJust (today p)) (deliver p preference user ipo k id targets s w).1.sends
  unfolding deliver
  deliver-IsJust k id [] s w h = h
  deliver-IsJust k id (t ∷ ts) s w h =
      subst (All (IsJust (today p))) (sym (sends-settle p.env id _ s _)) (
        record {
          enabled = rule.0;
          owner = rule.1;
          active = rule.2;
          closes_today = closing;
          eligible = eligible;
          targets = λ e. cc;
        },
        h,
      )

  after_claim-IsJust :
      (k : ℕ) (answer : Option ℕ × Store) (s : EvaluationSummary) (w : World)
      → All (IsJust (today p)) w.sends
      → All (IsJust (today p)) (after_claim p preference user ipo k answer s w).1.sends
  unfolding after_claim
  after_claim-IsJust k (none, store) s w h = h
  after_claim-IsJust k (some id, store) s w h = deliver-IsJust k id _ _ _ h

  dispatch-IsJust :
      (s : EvaluationSummary) (w : World)
      → All (IsJust (today p)) w.sends
      → All (IsJust (today p)) (dispatch p preference user ipo s w).1.sends
  unfolding dispatch
  dispatch-IsJust s w h = elim (Option-cases (period_index p.now preference.interval_minutes)) [
    | inl below ↦ rw (below, dispatch) h
    | inr (k, window) ↦ rw (window, dispatch) (after_claim-IsJust k _ s w h)
  ]

closes_on_lem :
    (date : ℕ) (ipo : Ipo) → closes_on date ipo ≡ true → ipo.columns close_date ≡ some date
closes_on_lem date ipo h = ground arith

sends-finish :
    (env : Env) (ids : List ℕ) (s : EvaluationSummary) (w : World)
    → (finish env ids s w).1.sends ≡ w.sends
sends-finish env [] s w = refl
sends-finish env (id ∷ ids) s w = refl

-- An evaluation that starts with no call on record calls the provider only for an enabled rule of
-- an active user and an issue that is eligible under the rule and closes today in the business
-- time zone, and never with an empty list of targets.
pub evaluate-IsJust :
    (p : Pass) (w : World) → w.sends ≡ [] → All (IsJust (today p)) (evaluate p w).1.sends
evaluate-IsJust p w e =
    (evaluate-R p (λ s v r. All (IsJust (today p)) v.sends → All (IsJust (today p)) r.1.sends)
        (λ s v h. h) (λ s s' v v' r f g h. g (f h))
        (λ preference user ipo s v rule closing matches h.
          dispatch-IsJust p preference user ipo rule (closes_on_lem (today p) ipo closing)
            ((rule_matches_iff preference ipo (today p)).0 matches) _ v h)
        (λ ids s v h. subst (All (IsJust (today p))) (sym (sends-finish p.env ids s v)) h) w).2
      (rw e tt)
