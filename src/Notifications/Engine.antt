-- ===== src/Notifications/Engine.antt =====
-- `NotificationEngine` of app/services/notifications/engine.py, on the state of World.
pub mod Messages
pub mod AtMostOnce
pub mod Refines
pub mod Loops
pub mod Sound
pub mod Counts
pub mod Completes
use help_me_bid_backend.Base.{
  ℕ, suc, ◌+◌, ◌==◌, not, ◌&&◌, String, Bool, true, false, Option, none, some, List, [], ◌∷◌,
  length, map, find, is_some, if◌then◌else◌,
}
use help_me_bid_backend.Base.Int.{ℤ, pos, eqb_ℤ, ltb_ℤ}
use help_me_bid_backend.Dates.{Zone, today_in_app_timezone, period_index}
use help_me_bid_backend.Models.{
  Ipo, User, Device, NotificationPreference, close_date, gmp_percentage,
}
use help_me_bid_backend.Store.{Store, text_or}
use help_me_bid_backend.Devices
use help_me_bid_backend.Devices.{has_token}
use help_me_bid_backend.Ipos.Closing.{list_closing_on}
use help_me_bid_backend.Notifications.Rules.{rule_matches_ipo, within_notification_window}
use help_me_bid_backend.Notifications.Ledger.{Claim, claim, mark_sent, mark_failed, mark_skipped}
use help_me_bid_backend.Notifications.Providers.{
  DeviceType, android, ios, web, NotificationChannel, push, webpush, log, device_type, channel,
  channel_value, NotificationMessage, DeviceTarget, SendResult,
}
use help_me_bid_backend.Notifications.Preferences.{list_active_with_users, mark_evaluated}
use help_me_bid_backend.Notifications.Engine.Messages.{Texts, build_message}
use help_me_bid_backend.Notifications.World.{
  Send, World, Response, raised, returned, killed, Env, EvaluationSummary, Outcome, done,
  value_error, died, commit, rollback, timed, Pass, today,
}
use help_me_bid_backend.Notifications.Targets.{primary_channel, targets_for}

-- The loop over `result.invalid_tokens`; the clock is read for each known token.
unfoldable pub invalidate_tokens : Env → List String → World → World
invalidate_tokens env [] w = w
invalidate_tokens env (token ∷ tokens) w = invalidate_tokens env tokens (
    if is_some (find (has_token token) w.session.devices)
    then timed env (λ now. Devices.invalidate_token token now) w
    else w)

-- What `_dispatch` passes to `claim`. A percentage of zero is false, and is recorded as NULL.
abbrev recorded_percentage : Option ℤ → Option ℤ
recorded_percentage none = none
recorded_percentage (some g) = if eqb_ℤ g (pos 0) then none else some g

abbrev date_or : Option ℕ → ℕ → ℕ
date_or none today = today
date_or (some d) today = d

abbrev pub message_for : Pass → NotificationPreference → Ipo → NotificationMessage
message_for p preference ipo = build_message p.env.texts ipo preference

abbrev pub claim_for : Pass → NotificationPreference → User → Ipo → ℕ → Claim
claim_for p preference user ipo period_key =
    let message = message_for p preference ipo in
    record {
      user_id = user.id;
      preference_id = preference.id;
      ipo_id = ipo.id;
      channel = channel_value (primary_channel preference.channels);
      period_key = period_key;
      business_date = date_or (ipo.columns close_date) (today p);
      gmp_percentage = recorded_percentage (ipo.columns gmp_percentage);
      payload = (message.title, message.body);
    }

-- The end of `_dispatch`, once the provider has answered.
unfoldable pub settle : Env → ℕ → Response → EvaluationSummary → World → Outcome × World
settle env id (raised error) s w = (
  done (record s { failed = suc s.failed }),
  commit (timed env (λ now. mark_failed id env.provider_name error now) w),
)
settle env id (returned r) s w =
    let w' = invalidate_tokens env r.invalid_tokens w in
    if r.success
    then (
      done (record s { sent = suc s.sent }),
      commit (timed env (λ now. mark_sent id r.provider r.provider_message_id now) w'),
    )
    else (
      done (record s { failed = suc s.failed }),
      commit (
          timed env
            (λ now. mark_failed id r.provider (text_or r.error "unknown provider error") now) w'),
    )
settle env id killed s w = (died, rollback w)

abbrev no_device : String
no_device = "user has no active device registered for this channel"

-- The middle of `_dispatch`: the claim is committed, and the targets are looked up.
unfoldable pub deliver :
    Pass
    → NotificationPreference
    → User
    → Ipo
    → (period_key id : ℕ) → List DeviceTarget
    → EvaluationSummary
    → World
    → Outcome × World
deliver p preference user ipo period_key id [] s w = (
  done (record s { skipped_no_device = suc s.skipped_no_device }),
  commit (record w { session = mark_skipped id no_device w.session }),
)
deliver p preference user ipo period_key id (t ∷ ts) s w =
    let call : Send = record {
      preference = preference;
      user = user;
      ipo = ipo;
      period_key = period_key;
      targets = t ∷ ts;
    } in
    settle p.env id (p.env.respond (length w.sends) (message_for p preference ipo) (t ∷ ts)) s
      (record w { sends = call ∷ w.sends })

unfoldable pub after_claim :
    Pass
    → NotificationPreference
    → User
    → Ipo
    → (period_key : ℕ) → Option ℕ × Store
    → EvaluationSummary
    → World
    → Outcome × World
after_claim p preference user ipo period_key (none, store) s w = (
  done (record s { duplicates_skipped = suc s.duplicates_skipped }),
  record w { session = store },
)
after_claim p preference user ipo period_key (some id, store) s w =
    deliver p preference user ipo period_key id
      (targets_for user.id (primary_channel preference.channels) store)
      (record s { claimed = suc s.claimed }) (commit (record w { session = store }))

-- `_dispatch`
unfoldable pub dispatch :
    Pass → NotificationPreference → User → Ipo → EvaluationSummary → World → Outcome × World
dispatch p preference user ipo s w = elim (period_index p.now preference.interval_minutes) [
  | none ↦ (value_error, w)
  | some period_key ↦
      after_claim p preference user ipo period_key
        (claim (claim_for p preference user ipo period_key) w.session) s w
]

-- One turn of the inner loop of `evaluate`.
unfoldable pub consider :
    Pass → NotificationPreference → User → Ipo → EvaluationSummary → World → Outcome × World
consider p preference user ipo s w =
    if rule_matches_ipo preference ipo (today p)
    then dispatch p preference user ipo (record s { matches = suc s.matches }) w
    else (done s, w)

-- A loop over rows goes on as long as its turns end with a summary.
abbrev pub and_then :
    Outcome × World → (EvaluationSummary → World → Outcome × World) → Outcome × World
and_then (done s, w) k = k s w
and_then (value_error, w) k = (value_error, w)
and_then (died, w) k = (died, w)

unfoldable pub run_ipos :
    Pass → NotificationPreference → User → List Ipo → EvaluationSummary → World → Outcome × World
run_ipos p preference user [] s w = (done s, w)
run_ipos p preference user (ipo ∷ ipos) s w =
    and_then (consider p preference user ipo s w) (run_ipos p preference user ipos)

-- `closing_today` was loaded once; a rule that opts out of the closing day has the query run again.
abbrev pub candidates : Pass → NotificationPreference → List Ipo → World → List Ipo
candidates p preference closing_today w =
    if preference.only_on_close_date then closing_today else list_closing_on (today p) w.session

unfoldable pub run_rules :
    Pass
    → List Ipo
    → List (NotificationPreference × User)
    → EvaluationSummary
    → World
    → Outcome × World
run_rules p closing_today [] s w = (done s, w)
run_rules p closing_today ((preference, user) ∷ rules) s w =
    and_then (run_ipos p preference user (candidates p preference closing_today w) s w)
      (run_rules p closing_today rules)

-- The end of `evaluate`. Without ids `mark_evaluated` returns at once and reads no clock.
abbrev finish : Env → List ℕ → EvaluationSummary → World → Outcome × World
finish env [] s w = (done s, commit w)
finish env (id ∷ ids) s w = (done s, commit (timed env (λ now. mark_evaluated (id ∷ ids) now) w))

abbrev pub no_counts : EvaluationSummary
no_counts = record {
  rules_evaluated = 0;
  ipos_considered = 0;
  matches = 0;
  claimed = 0;
  duplicates_skipped = 0;
  sent = 0;
  failed = 0;
  skipped_no_device = 0;
}

abbrev pub rule_ids : List (NotificationPreference × User) → List ℕ
rule_ids = map (λ r. (r.0).id)

unfoldable pub evaluate_rules :
    Pass → List (NotificationPreference × User) → World → Outcome × World
evaluate_rules p [] w = (done no_counts, w)
evaluate_rules p (r ∷ rules) w =
    let closing_today = list_closing_on (today p) w.session in
    let s : EvaluationSummary = record no_counts {
      rules_evaluated = length (r ∷ rules);
      ipos_considered = length closing_today;
    } in
    and_then (run_rules p closing_today (r ∷ rules) s w) (finish p.env (rule_ids (r ∷ rules)))

-- `evaluate(now)`
unfoldable pub evaluate : Pass → World → Outcome × World
evaluate p w =
    if not p.env.notification_enabled
    then (done no_counts, w)
    else if not
        (within_notification_window p.env.zone p.env.window_start_hour p.env.window_end_hour p.now)
    then (done no_counts, w)
    else evaluate_rules p (list_active_with_users w.session) w

-- `session_scope` around one evaluation: it commits, or rolls back when the call raises.
unfoldable pub close_session : Outcome × World → World
close_session (done s, w) = commit w
close_session (value_error, w) = rollback w
close_session (died, w) = w

-- `run_notifications` of app/workers/notification_worker.py: without the advisory lock it
-- returns at once.
unfoldable pub run_notifications : (acquired : Bool) → Pass → World → World
unfolding close_session
run_notifications acquired p w = if acquired then close_session (evaluate p w) else w
