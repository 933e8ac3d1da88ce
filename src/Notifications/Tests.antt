-- ===== src/Notifications/Tests.antt =====
-- Runs of app/services/notifications/engine.py on one user with one rule and one device.
use help_me_bid_backend.Base.{
  ◌≡◌, ◌↔◌, refl, true, false, none, some, [], ◌∷◌, arith, All, map, is_some, ◌==◌, if◌then◌else◌,
}
use help_me_bid_backend.Dates.{current_hour_in_app_timezone, today_in_app_timezone, period_index}
use help_me_bid_backend.Models.{Device}
use help_me_bid_backend.Devices.{list_active_for_user}
use help_me_bid_backend.Ipos.Closing.{list_closing_on}
use help_me_bid_backend.Notifications.Preferences.{list_active_with_users, mark_evaluated}
use help_me_bid_backend.Notifications.Ledger.{claim, mark_sent}
use help_me_bid_backend.Notifications.Rules.{rule_matches_ipo, within_notification_window}
use help_me_bid_backend.Notifications.Rules.Eligible.{IsEligible, rule_matches_iff}
use help_me_bid_backend.Notifications.Providers.{
  DeviceTarget, android, push, device_type, channel, Post, response, fcm_send, ProviderSettings,
}
use help_me_bid_backend.Notifications.Providers.Outcomes.{fcm_send_reports}
use help_me_bid_backend.Notifications.World.{today}
use help_me_bid_backend.Notifications.Targets.{targets_for, primary_channel}
use help_me_bid_backend.Notifications.Engine.{
  evaluate, run_rules, run_ipos, consider, dispatch, after_claim, deliver, settle,
  invalidate_tokens, evaluate_rules, run_notifications,
}
use help_me_bid_backend.Notifications.Engine.AtMostOnce.{IsOnce}
use help_me_bid_backend.Notifications.Engine.Refines.{view, run_all, at_most_one_send}
use help_me_bid_backend.Notifications.Engine.Sound.{IsJust, evaluate-IsJust}
use help_me_bid_backend.Notifications.Targets.Reach.{In, Reaches, targets_for_iff}
use help_me_bid_backend.Notifications.Engine.Counts.{EndsBalanced, evaluate-EndsBalanced}
use help_me_bid_backend.Notifications.Engine.AtMostOnce.{Reach}
use help_me_bid_backend.Notifications.Engine.Refines.{evaluate-Reach}
use help_me_bid_backend.Notifications.Preferences.{get_for_user, delete_owned}
use help_me_bid_backend.Base.{Bool}
use help_me_bid_backend.Notifications.World.{Response, raised, returned, killed, World}
use help_me_bid_backend.Notifications.WebPush.{WebCall, delivered, push_exception}
use help_me_bid_backend.Notifications.Samples.{acme, phone, rule, tables, start, noon}

-- Everything that a pass computes with.
engine : Unit {0}
unfolding evaluate evaluate_rules run_rules run_ipos consider dispatch after_claim deliver settle
    invalidate_tokens run_notifications within_notification_window current_hour_in_app_timezone
    list_active_with_users list_closing_on today_in_app_timezone rule_matches_ipo period_index claim
    targets_for list_active_for_user device_type primary_channel channel mark_evaluated mark_sent
engine = tt

-- A first pass sends; a second one in the same window finds the claim.
two_passes :
    map (λ c. c.period_key) (run_all ((true, noon) ∷ (true, noon) ∷ []) start).sends ≡ 160_002 ∷ []
unfolding engine
two_passes = refl

at_most_one_send_example : IsOnce (view (run_all ((true, noon) ∷ (true, noon) ∷ []) start))
at_most_one_send_example = at_most_one_send ((true, noon) ∷ (true, noon) ∷ []) start (omega arith)

evaluate-IsJust_example : All (IsJust (today noon)) (evaluate noon start).1.sends
evaluate-IsJust_example = evaluate-IsJust noon start refl

evaluate-EndsBalanced_example : EndsBalanced (evaluate noon start)
evaluate-EndsBalanced_example = evaluate-EndsBalanced noon start

abbrev phone_target : DeviceTarget
phone_target = record { device_id = 3; device_type = android; push_token = "t1" }

targets_for_iff_example :
    In phone_target (targets_for 1 push tables)
    ↔ ((d : Device) × In d (phone ∷ []) × Reaches 1 push phone_target d)
targets_for_iff_example = targets_for_iff 1 push tables phone_target

rule_matches_iff_example : (rule_matches_ipo rule acme 20_000 ≡ true) ↔ IsEligible rule acme 20_000
rule_matches_iff_example = rule_matches_iff rule acme 20_000

-- One target is reached, one has a dead token.
abbrev posts : DeviceTarget → Post
posts t = if t.device_id == 3 then response 200 (some "m") else response 404 none

abbrev dead_target : DeviceTarget
dead_target = record { device_id = 4; device_type = android; push_token = "t2" }

fcm_send_reports_example :
    let r = fcm_send (λ n. "HTTP") posts (dead_target ∷ phone_target ∷ []) in
    (r.success ≡ true) × (is_some r.error ≡ false) × (r.invalid_tokens ≡ "t2" ∷ [])
fcm_send_reports_example = fcm_send_reports (λ n. "HTTP") posts (dead_target ∷ phone_target ∷ [])

abbrev no_credentials : ProviderSettings
no_credentials = record {
  notification_provider = "fcm";
  fcm_credentials_file = none;
  fcm_project_id = none;
  vapid_private_key = none;
  vapid_public_key = none;
}

evaluate-Reach_example : Reach (view start) (view (evaluate noon start).1)
evaluate-Reach_example = evaluate-Reach noon start

deleted : delete_owned 2 1 tables ≡ some (record tables { preferences = [] })
unfolding delete_owned get_for_user
deleted = refl

abbrev calls : DeviceTarget → WebCall
calls t = if t.device_id == 3 then delivered else push_exception (some 410) "gone"

abbrev lives : Response → Bool
lives killed = false
lives (raised error) = true
lives (returned r) = true
