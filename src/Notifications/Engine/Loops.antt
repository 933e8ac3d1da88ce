-- ===== src/Notifications/Engine/Loops.antt =====
-- One rule for the two loops of `evaluate`: a relation between the state before and the outcome
-- after, which holds of a turn that dispatches and composes, holds of the loops.
use help_me_bid_backend.Base.{
  ℕ, suc, ◌≡◌, true, List, [], ◌∷◌, arith, inl, inr, Bool-cases, All, ◌⊎◌, length, subst, sym,
}
use help_me_bid_backend.Models.{Ipo, User, NotificationPreference}
use help_me_bid_backend.Ipos.Closing.{closes_on, list_closing_on, list_closing_on-All}
use help_me_bid_backend.Notifications.Rules.{rule_matches_ipo}
use help_me_bid_backend.Notifications.Preferences.{
  list_active_with_users, list_active_with_users-All, IsActiveRule,
}
use help_me_bid_backend.Notifications.World.{
  World, EvaluationSummary, Outcome, done, value_error, died, Pass, today,
}
use help_me_bid_backend.Notifications.Engine.{
  dispatch, consider, and_then, run_ipos, run_rules, candidates, evaluate_rules, evaluate, finish,
  no_counts, rule_ids,
}

module _ (p : Pass) (R : EvaluationSummary → World → Outcome × World → Type 0)
    (stay : (s : EvaluationSummary) (w : World) → R s w (done s, w))
    (chain : (s s' : EvaluationSummary) (w w' : World) (r : Outcome × World)
      → R s w (done s', w')
      → R s' w' r
      → R s w r)
    (turn : (preference : NotificationPreference) (user : User) (ipo : Ipo) (s : EvaluationSummary)
        (w : World)
      → (preference.is_enabled ≡ true) × (user.id ≡ preference.user_id) × (user.is_active ≡ true)
      → closes_on (today p) ipo ≡ true
      → rule_matches_ipo preference ipo (today p) ≡ true
      → R s w (dispatch p preference user ipo (record s { matches = suc s.matches }) w)) where
  and_then-R :
      (s : EvaluationSummary) (w : World) (r : Outcome × World)
      (k : EvaluationSummary → World → Outcome × World)
      → R s w r
      → ((s' : EvaluationSummary) (w' : World) → R s' w' (k s' w'))
      → R s w (and_then r k)
  and_then-R s w (done s', w') k h g = chain s s' w w' (k s' w') h (g s' w')
  and_then-R s w (value_error, w') k h g = h
  and_then-R s w (died, w') k h g = h

  run_ipos-R :
      (preference : NotificationPreference) (user : User)
      → (preference.is_enabled ≡ true) × (user.id ≡ preference.user_id) × (user.is_active ≡ true)
      → (ipos : List Ipo) (s : EvaluationSummary) (w : World)
      → All (λ i. closes_on (today p) i ≡ true) ipos
      → R s w (run_ipos p preference user ipos s w)
  unfolding run_ipos consider
  run_ipos-R preference user active [] s w h = stay s w
  run_ipos-R preference user active (ipo ∷ ipos) s w h =
      and_then-R s w (consider p preference user ipo s w) (run_ipos p preference user ipos)
        (elim (Bool-cases (rule_matches_ipo preference ipo (today p))) [
          | inl matches ↦ rw (matches, consider) (turn preference user ipo s w active h.0 matches)
          | inr other ↦ rw (other, consider) (stay s w)
        ])
        (λ s' w'. run_ipos-R preference user active ipos s' w' h.1)

  candidates-All :
      (preference : NotificationPreference) (closing_today : List Ipo) (w : World)
      → All (λ i. closes_on (today p) i ≡ true) closing_today
      → All (λ i. closes_on (today p) i ≡ true) (candidates p preference closing_today w)
  candidates-All preference closing_today w h = elim (Bool-cases preference.only_on_close_date) [
    | inl only ↦ rw only h
    | inr any_day ↦ rw any_day (list_closing_on-All (today p) w.session)
  ]

  run_rules-R :
      (closing_today : List Ipo)
      → All (λ i. closes_on (today p) i ≡ true) closing_today
      → (rules : List (NotificationPreference × User)) (s : EvaluationSummary) (w : World)
      → All IsActiveRule rules
      → R s w (run_rules p closing_today rules s w)
  unfolding run_rules
  run_rules-R closing_today h [] s w a = stay s w
  run_rules-R closing_today h ((preference, user) ∷ rules) s w a =
      and_then-R s w (run_ipos p preference user (candidates p preference closing_today w) s w)
        (run_rules p closing_today rules)
        (run_ipos-R preference user a.0 (candidates p preference closing_today w) s w
          (candidates-All preference closing_today w h))
        (λ s' w'. run_rules-R closing_today h rules s' w' a.1)

-- An evaluation does nothing, when it is switched off or outside the window, or runs its rules.
evaluate-cases :
    (p : Pass) (w : World)
    → (evaluate p w ≡ (done no_counts, w))
      ⊎ (evaluate p w ≡ evaluate_rules p (list_active_with_users w.session) w)
unfolding evaluate
evaluate-cases p w = ground arith

-- The relation holds from some counts with no match, claim, send, failure or skip.
abbrev pub Starts :
    Pass → (EvaluationSummary → World → Outcome × World → Type 0) → World → Outcome × World → Type 0
Starts p R w r =
    (rules_evaluated : ℕ) × (ipos_considered : ℕ) × R
      (record no_counts { rules_evaluated = rules_evaluated; ipos_considered = ipos_considered }) w
      r

-- The whole evaluation, from the rule for its loops. `R` starts from the counts that `evaluate`
-- has before the loops, and `last` is the end of the evaluation.
module _ (p : Pass) (R : EvaluationSummary → World → Outcome × World → Type 0)
    (stay : (s : EvaluationSummary) (w : World) → R s w (done s, w))
    (chain : (s s' : EvaluationSummary) (w w' : World) (r : Outcome × World)
      → R s w (done s', w')
      → R s' w' r
      → R s w r)
    (turn : (preference : NotificationPreference) (user : User) (ipo : Ipo) (s : EvaluationSummary)
        (w : World)
      → (preference.is_enabled ≡ true) × (user.id ≡ preference.user_id) × (user.is_active ≡ true)
      → closes_on (today p) ipo ≡ true
      → rule_matches_ipo preference ipo (today p) ≡ true
      → R s w (dispatch p preference user ipo (record s { matches = suc s.matches }) w))
    (last : (ids : List ℕ) (s : EvaluationSummary) (w : World) → R s w (finish p.env ids s w)) where
  -- The counts with which the loops start.
  abbrev pub first_counts : List (NotificationPreference × User) → World → EvaluationSummary
  first_counts rules w = record no_counts {
    rules_evaluated = length rules;
    ipos_considered = length (list_closing_on (today p) w.session);
  }

  evaluate_rules-R :
      (rules : List (NotificationPreference × User)) (w : World)
      → All IsActiveRule rules
      → R no_counts w (evaluate_rules p rules w)
        ⊎ R (first_counts rules w) w (evaluate_rules p rules w)
  unfolding evaluate_rules
  evaluate_rules-R [] w h = inl (stay no_counts w)
  evaluate_rules-R (r ∷ rules) w h =
      let closing_today = list_closing_on (today p) w.session in
      let s = first_counts (r ∷ rules) w in
      inr (
        and_then-R p R stay chain turn s w (run_rules p closing_today (r ∷ rules) s w)
          (finish p.env (rule_ids (r ∷ rules)))
          (run_rules-R p R stay chain turn closing_today (list_closing_on-All (today p) w.session)
            (r ∷ rules) s w h)
          (λ s' w'. last (rule_ids (r ∷ rules)) s' w'))

  pub evaluate-R : (w : World) → Starts p R w (evaluate p w)
  evaluate-R w = elim (evaluate-cases p w) [
    | inl off ↦ subst (λ r. Starts p R w r) (sym off) (0, 0, stay no_counts w)
    | inr on ↦
        let rules = list_active_with_users w.session in
        subst (λ r. Starts p R w r) (sym on)
          (elim (evaluate_rules-R rules w (list_active_with_users-All w.session)) [
            | inl none' ↦ (0, 0, none')
            | inr some' ↦ (length rules, length (list_closing_on (today p) w.session), some')
          ])
  ]
