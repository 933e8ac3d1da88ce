-- ===== src/Notifications/Providers/Outcomes.antt =====
-- What the push transport reports about a batch of targets.
use mathlib.Core.List.{append-nil, append_assoc}
use help_me_bid_backend.Base.{
  sym, Bool-cases, inl, inr, ℕ, ltb, ◌≡◌, String, Bool, true, false, Option, none, List, [], ◌∷◌,
  ◌++◌, arith, any, filter, map, if◌then◌else◌, is_some, not, ◌||◌, ◌&&◌,
}
use help_me_bid_backend.Notifications.Providers.{
  DeviceTarget, Post, http_error, response, FcmLoop, fcm_step, fcm_loop, fcm_send, is_success,
  is_dead, ProviderSettings, is_configured, get_provider,
}

-- The service took the message for this target.
abbrev pub accepted : Post → Bool
accepted (http_error reason) = false
accepted (response status name) = is_success status

-- The service refused the target's token for good.
abbrev pub refused : Post → Bool
refused (http_error reason) = false
refused (response status name) = not (is_success status) && is_dead status

step_invalid :
    (status_text : ℕ → String) (t : DeviceTarget) (p : Post) (l : FcmLoop)
    → (fcm_step status_text t p l).invalid
      ≡ l.invalid ++ (if refused p then t.push_token ∷ [] else [])
step_invalid status_text t (http_error reason) l = sym (append-nil l.invalid)
step_invalid status_text t (response status name) l = ground (arith, append-nil l.invalid)

module _ (status_text : ℕ → String) (post : DeviceTarget → Post) where
  abbrev start : FcmLoop
  start = record { sent = 0; invalid = []; last_error = none; last_id = none }

  loop_invalid :
      (targets : List DeviceTarget) (l : FcmLoop)
      → (fcm_loop status_text post targets l).invalid
        ≡ l.invalid ++ map (λ t. t.push_token) (filter (λ t. refused (post t)) targets)
  unfolding fcm_loop
  loop_invalid [] l = sym (append-nil l.invalid)
  loop_invalid (t ∷ targets) l =
      rw
        (
          loop_invalid targets (fcm_step status_text t (post t) l),
          step_invalid status_text t (post t) l,
        )
        (elim (Bool-cases (refused (post t))) [
          | inl dead ↦ rw (dead, append_assoc)
          | inr alive ↦ rw (alive, append-nil)
        ])

  loop_sent :
      (targets : List DeviceTarget) (l : FcmLoop)
      → ltb 0 (fcm_loop status_text post targets l).sent
        ≡ (ltb 0 l.sent || any (λ t. accepted (post t)) targets)
  unfolding fcm_loop
  loop_sent [] l = ground arith
  loop_sent (t ∷ targets) l = ground (arith, loop_sent targets (fcm_step status_text t (post t) l))

  -- The batch succeeds exactly when some target took the message, an error is reported exactly
  -- when none did, and the tokens reported invalid are those of the targets that were refused for
  -- good, in order.
  pub fcm_send_reports :
      (targets : List DeviceTarget)
      → let r = fcm_send status_text post targets in
        (r.success ≡ any (λ t. accepted (post t)) targets)
        × (is_some r.error ≡ not (any (λ t. accepted (post t)) targets))
        × (r.invalid_tokens ≡ map (λ t. t.push_token) (filter (λ t. refused (post t)) targets))
  unfolding fcm_send
  fcm_send_reports targets = (
    ground (arith, loop_sent targets start),
    ground (arith, loop_sent targets start),
    loop_invalid targets start,
  )

-- The provider in use is always configured, and it is the one asked for whenever that one is.
pub get_provider_usable :
    (s : ProviderSettings) (name : Option String) → is_configured s (get_provider s name) ≡ true
unfolding get_provider
get_provider_usable s name = ground arith
