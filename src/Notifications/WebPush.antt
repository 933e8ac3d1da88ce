-- ===== src/Notifications/WebPush.antt =====
-- `WebPushProvider.send` of app/services/notifications/providers.py, once it is configured. What
-- the push library answers for each target is an argument; the texts of the exceptions are too.
pub mod Report
use help_me_bid_backend.Base.{
  ℕ, suc, ltb, ◌==◌, ◌||◌, String, Bool, true, false, Option, none, some, List, [], ◌∷◌, ◌++◌,
  if◌then◌else◌,
}
use help_me_bid_backend.Store.{text_or}
use help_me_bid_backend.Notifications.Providers.{DeviceTarget, SendResult}

-- The call returns, raises a `WebPushException` (with the status of its response, if it has one),
-- or raises because the stored token is no subscription.
pub data WebCall : Type 0 where
  delivered : WebCall
  push_exception : (status : Option ℕ) → (error : String) → WebCall
  malformed : (error : String) → WebCall

-- The variables of the loop.
pub record WebLoop : Type 0 where
  pub sent : ℕ
  pub invalid : List String
  pub last_error : Option String

abbrev pub is_gone : Option ℕ → Bool
is_gone none = false
is_gone (some status) = status == 404 || status == 410

-- The body of the loop, for one target.
abbrev pub web_step : DeviceTarget → WebCall → WebLoop → WebLoop
web_step target delivered l = record l { sent = suc l.sent }
web_step target (push_exception status error) l = record l {
  invalid = if is_gone status then l.invalid ++ target.push_token ∷ [] else l.invalid;
  last_error = some error;
}
web_step target (malformed error) l = record l {
  invalid = l.invalid ++ target.push_token ∷ [];
  last_error = some error;
}

unfoldable pub web_loop : (DeviceTarget → WebCall) → List DeviceTarget → WebLoop → WebLoop
web_loop call [] l = l
web_loop call (t ∷ targets) l = web_loop call targets (web_step t (call t) l)

unfoldable pub web_send : (DeviceTarget → WebCall) → List DeviceTarget → SendResult
unfolding web_loop
web_send call targets =
    let start : WebLoop = record { sent = 0; invalid = []; last_error = none } in
    let l = web_loop call targets start in
    record {
      success = ltb 0 l.sent;
      provider = "webpush";
      provider_message_id = none;
      error =
          if ltb 0 l.sent
          then none
          else some (text_or l.last_error "no subscriptions accepted the message");
      invalid_tokens = l.invalid;
    }
