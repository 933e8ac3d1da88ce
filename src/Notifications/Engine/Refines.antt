-- ===== src/Notifications/Engine/Refines.antt =====
-- The engine (app/services/notifications/engine.py) and the abstract notifier of AtMostOnce.
use help_me_bid_backend.Base.{
  ℕ, suc, ◌≡◌, refl, true, false, Option, some, List, [], ◌∷◌, arith, map, Bool, inl, inr,
  Bool-cases, Option-cases, String, subst, sym, find, is_some, ◌⊎◌, ◌∙◌,
}
use help_me_bid_backend.Models.{Ipo, User, NotificationPreference}
use help_me_bid_backend.Store.{Store, text_or}
use help_me_bid_backend.Devices
use help_me_bid_backend.Devices.{has_token}
use help_me_bid_backend.Dates.{period_index}
use help_me_bid_backend.Notifications.Ledger.{Key, claim}
use help_me_bid_backend.Notifications.Ledger.Unique.{
  keys, has, claim_wins, keys-mark_sent, keys-mark_failed, keys-mark_skipped,
}
use help_me_bid_backend.Notifications.Preferences.{mark_evaluated}
use help_me_bid_backend.Notifications.Providers.{DeviceTarget}
use help_me_bid_backend.Notifications.World.{
  Send, World, Response, raised, returned, killed, Env, EvaluationSummary, Outcome, done,
  value_error, died, commit, Pass,
}
use help_me_bid_backend.Notifications.Targets.{targets_for, primary_channel}
use help_me_bid_backend.Notifications.Engine.{
  invalidate_tokens, claim_for, settle, deliver, after_claim, dispatch, evaluate, close_session,
  run_notifications, finish, no_device,
}
use help_me_bid_backend.Notifications.Engine.Loops.{evaluate-R}
use help_me_bid_backend.Notifications.Engine.AtMostOnce.{
  Notifier, claim_only, claim_and_send, save, forget, Reach, here, next, IsOnce, Reach-trans,
  Reach-IsOnce,
}

abbrev pub send_key : Send → Key
send_key c = (c.preference.id, c.ipo.id, c.period_key)

-- What the abstract notifier sees of a world.
abbrev pub view : World → Notifier
view w = record { ledger = keys w.session; safe = keys w.committed; sent = map send_key w.sends }

view-invalidate_tokens :
    (env : Env) (tokens : List String) (w : World) → view (invalidate_tokens env tokens w) ≡ view w
unfolding invalidate_tokens Devices.invalidate_token
view-invalidate_tokens env [] w = refl
view-invalidate_tokens env (t ∷ tokens) w =
    view-invalidate_tokens env tokens _
    ∙ elim (Bool-cases (is_some (find (has_token t) w.session.devices))) [
      | inl known ↦ rw known
      | inr unknown ↦ rw unknown
    ]

-- While nothing is uncommitted, the last part of a dispatch adds no key anywhere.
view-settle :
    (env : Env) (id : ℕ) (r : Response) (s : EvaluationSummary) (w : World)
    → keys w.session ≡ keys w.committed
    → view (settle env id r s w).1 ≡ view w
unfolding settle
view-settle env id (raised error) s w e =
    ground (arith, keys-mark_failed id env.provider_name error (env.utc_now w.ticks) w.session)
view-settle env id (returned r) s w e =
    let w' = invalidate_tokens env r.invalid_tokens w in
    let now = env.utc_now w'.ticks in
    ground (
      arith,
      view-invalidate_tokens env r.invalid_tokens w,
      keys-mark_sent id r.provider r.provider_message_id now w'.session,
      keys-mark_failed id r.provider (text_or r.error "unknown provider error") now w'.session,
    )
view-settle env id killed s w e = ground arith

-- From a committed world a delivery sends once, under the key at hand, or not at all.
view-deliver :
    (p : Pass) (preference : NotificationPreference) (user : User) (ipo : Ipo) (k id : ℕ)
    (targets : List DeviceTarget) (s : EvaluationSummary) (w : World)
    → keys w.session ≡ keys w.committed
    → let w' = (deliver p preference user ipo k id targets s w).1 in
      (view w' ≡ view w)
      ⊎ (view w' ≡ record {
        ledger = keys w.session;
        safe = keys w.committed;
        sent = (preference.id, ipo.id, k) ∷ map send_key w.sends;
      })
unfolding deliver
view-deliver p preference user ipo k id [] s w e =
    inl (ground (arith, keys-mark_skipped id no_device w.session))
view-deliver p preference user ipo k id (t ∷ ts) s w e = inr (view-settle p.env id _ s _ e)

module _ (p : Pass) (preference : NotificationPreference) (user : User) (ipo : Ipo)
    (s : EvaluationSummary) (w : World) where
  -- The world after a claim with the given answer.
  abbrev claimed_world : ℕ → Option ℕ × Store → World
  claimed_world k answer = (after_claim p preference user ipo k answer s w).1

  after_claim_won :
      (k id : ℕ) (store : Store)
      → has (preference.id, ipo.id, k) (keys w.session) ≡ false
      → keys store ≡ (preference.id, ipo.id, k) ∷ keys w.session
      → Reach (view w) (view (claimed_world k (some id, store)))
  unfolding after_claim
  after_claim_won k id store new e =
      let targets = targets_for user.id (primary_channel preference.channels) store in
      let s' : EvaluationSummary = record s { claimed = suc s.claimed } in
      let w' = commit (record w { session = store }) in
      elim (view-deliver p preference user ipo k id targets s' w' refl) [
        | inl unsent ↦
            next here (claim_only (preference.id, ipo.id, k) new (ground (arith, unsent)))
        | inr sent ↦
            next here (claim_and_send (preference.id, ipo.id, k) new (ground (arith, sent)))
      ]

  after_claim-Reach :
      (k : ℕ)
      → let answer = claim (claim_for p preference user ipo k) w.session in
        Reach (view w) (view (claimed_world k answer))
  unfolding after_claim
  after_claim-Reach k =
      let answer = claim (claim_for p preference user ipo k) w.session in
      elim (claim_wins (claim_for p preference user ipo k) w.session) [
        | inl (lost, _) ↦ subst (λ r. Reach (view w) (view (claimed_world k r))) (sym lost) here
        | inr (won, new, grown) ↦
            subst (λ r. Reach (view w) (view (claimed_world k (r, answer.1)))) (sym won)
              (after_claim_won k w.session.next_id answer.1 new grown)
      ]

  -- A dispatch is at most one step of the abstract notifier.
  dispatch-Reach : Reach (view w) (view (dispatch p preference user ipo s w).1)
  unfolding dispatch
  dispatch-Reach = elim (Option-cases (period_index p.now preference.interval_minutes)) [
    | inl below ↦ rw (below, dispatch) here
    | inr (k, window) ↦ rw (window, dispatch) (after_claim-Reach k)
  ]

view-finish :
    (p : Pass) (ids : List ℕ) (s : EvaluationSummary) (w : World)
    → Reach (view w) (view (finish p.env ids s w).1)
unfolding mark_evaluated
view-finish p [] s w = next here (save refl)
view-finish p (id ∷ ids) s w = next here (save refl)

-- One evaluation, whatever the rules, the issues, the clock and the provider's answers are, and
-- also when the process dies while the provider is called, is a run of the abstract notifier.
pub evaluate-Reach : (p : Pass) (w : World) → Reach (view w) (view (evaluate p w).1)
evaluate-Reach p w =
    (evaluate-R p (λ s v r. Reach (view v) (view r.1)) (λ s v. here)
      (λ s s' v v' r h g. Reach-trans h g)
      (λ preference user ipo s v active closing matches. dispatch-Reach p preference user ipo _ v)
      (view-finish p) w).2

close_session-Reach : (r : Outcome × World) → Reach (view r.1) (view (close_session r))
unfolding close_session
close_session-Reach (done s, w) = next here (save refl)
close_session-Reach (value_error, w) = next here (forget refl)
close_session-Reach (died, w) = here

-- A worker's whole job is a run of the abstract notifier too.
pub run_notifications-Reach :
    (acquired : Bool) (p : Pass) (w : World)
    → Reach (view w) (view (run_notifications acquired p w))
unfolding run_notifications
run_notifications-Reach false p w = here
run_notifications-Reach true p w =
    Reach-trans (evaluate-Reach p w) (close_session-Reach (evaluate p w))

-- Jobs that run one after the other, each with its own instant, settings and provider answers.
abbrev pub run_all : List (Bool × Pass) → World → World
run_all [] w = w
run_all ((acquired, p) ∷ jobs) w = run_all jobs (run_notifications acquired p w)

pub run_all-Reach : (jobs : List (Bool × Pass)) (w : World) → Reach (view w) (view (run_all jobs w))
run_all-Reach [] w = here
run_all-Reach ((acquired, p) ∷ jobs) w =
    Reach-trans (run_notifications-Reach acquired p w)
      (run_all-Reach jobs (run_notifications acquired p w))

-- Start from a ledger without repeated keys and calls that are all claimed and committed, such as
-- an empty ledger without calls. Then over any sequence of jobs, with crashes, provider failures
-- and any clock, the provider is called at most once for each rule, issue and window, and only for
-- keys whose claim is committed; and the ledger, as the session has it and as committed, holds no
-- key twice.
pub at_most_one_send :
    (jobs : List (Bool × Pass)) (w : World) → IsOnce (view w) → IsOnce (view (run_all jobs w))
at_most_one_send jobs w h = Reach-IsOnce h (run_all-Reach jobs w)
