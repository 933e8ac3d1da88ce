-- ===== src/Notifications/WebPush/Report.antt =====
-- What the Web Push transport reports about a batch of targets.
use mathlib.Core.List.{append-nil, append_assoc}
use help_me_bid_backend.Base.{
  sym, Bool-cases, inl, inr, ltb, ◌≡◌, Bool, true, false, none, List, [], ◌∷◌, ◌++◌, arith, any,
  filter, map, if◌then◌else◌, is_some, not, ◌||◌,
}
use help_me_bid_backend.Notifications.Providers.{DeviceTarget}
use help_me_bid_backend.Notifications.WebPush.{
  WebCall, delivered, push_exception, malformed, WebLoop, is_gone, web_step, web_loop, web_send,
}

abbrev pub is_delivered : WebCall → Bool
is_delivered delivered = true
is_delivered (push_exception status error) = false
is_delivered (malformed error) = false

-- The subscription is of no more use.
abbrev pub is_useless : WebCall → Bool
is_useless delivered = false
is_useless (push_exception status error) = is_gone status
is_useless (malformed error) = true

web_step_invalid :
    (t : DeviceTarget) (c : WebCall) (l : WebLoop)
    → (web_step t c l).invalid ≡ l.invalid ++ (if is_useless c then t.push_token ∷ [] else [])
web_step_invalid t delivered l = sym (append-nil l.invalid)
web_step_invalid t (push_exception status error) l = ground (arith, append-nil l.invalid)
web_step_invalid t (malformed error) l = ground arith

module _ (call : DeviceTarget → WebCall) where
  web_loop_invalid :
      (targets : List DeviceTarget) (l : WebLoop)
      → (web_loop call targets l).invalid
        ≡ l.invalid ++ map (λ t. t.push_token) (filter (λ t. is_useless (call t)) targets)
  unfolding web_loop
  web_loop_invalid [] l = sym (append-nil l.invalid)
  web_loop_invalid (t ∷ targets) l =
      rw (web_loop_invalid targets (web_step t (call t) l), web_step_invalid t (call t) l)
        (elim (Bool-cases (is_useless (call t))) [
          | inl useless ↦ rw (useless, append_assoc)
          | inr useful ↦ rw (useful, append-nil)
        ])

  web_loop_sent :
      (targets : List DeviceTarget) (l : WebLoop)
      → ltb 0 (web_loop call targets l).sent
        ≡ (ltb 0 l.sent || any (λ t. is_delivered (call t)) targets)
  unfolding web_loop
  web_loop_sent [] l = ground arith
  web_loop_sent (t ∷ targets) l = ground (arith, web_loop_sent targets (web_step t (call t) l))

  -- The batch succeeds exactly when some target was reached, an error is reported exactly when none
  -- was, and the tokens reported invalid are those whose subscription is gone or malformed, in order.
  pub web_send_reports :
      (targets : List DeviceTarget)
      → let r = web_send call targets in
        (r.success ≡ any (λ t. is_delivered (call t)) targets)
        × (is_some r.error ≡ not (any (λ t. is_delivered (call t)) targets))
        × (r.invalid_tokens ≡ map (λ t. t.push_token) (filter (λ t. is_useless (call t)) targets))
  unfolding web_send
  web_send_reports targets =
      let start : WebLoop = record { sent = 0; invalid = []; last_error = none } in
      (
        ground (arith, web_loop_sent targets start),
        ground (arith, web_loop_sent targets start),
        web_loop_invalid targets start,
      )
