-- ===== src/Notifications/Providers.antt =====
-- app/services/notifications/providers.py: the transports. What the network answers to each call
-- is an argument; client libraries, credentials and logging are left out, and a successful answer is taken to be JSON.
pub mod Outcomes
use help_me_bid_backend.Base.{
  ℕ, suc, ◌+◌, ltb, leb, ◌==◌, ◌&&◌, ◌||◌, String, Bool, true, false, Option, none, some, List, [],
  ◌∷◌, ◌++◌, str_eq, if◌then◌else◌,
}
use help_me_bid_backend.Store.{text_or}

-- `DeviceType` and `NotificationChannel` of app/db/enums.py.
pub data DeviceType : Type 0 where
  android ios web : DeviceType

pub data NotificationChannel : Type 0 where
  push webpush log : NotificationChannel

-- `DeviceType(raw)`; `none` is the `ValueError`.
unfoldable pub device_type : String → Option DeviceType
device_type raw =
    if str_eq raw "ANDROID"
    then some android
    else if str_eq raw "IOS"
    then some ios
    else if str_eq raw "WEB"
    then some web
    else none

unfoldable pub channel : String → Option NotificationChannel
channel raw =
    if str_eq raw "PUSH"
    then some push
    else if str_eq raw "WEBPUSH"
    then some webpush
    else if str_eq raw "LOG"
    then some log
    else none

abbrev pub channel_value : NotificationChannel → String
channel_value push = "PUSH"
channel_value webpush = "WEBPUSH"
channel_value log = "LOG"

pub record NotificationMessage : Type 0 where
  pub title : String
  pub body : String
  pub payload : List (String × String)

pub record DeviceTarget : Type 0 where
  pub device_id : ℕ
  pub device_type : DeviceType
  pub push_token : String

pub record SendResult : Type 0 where
  pub success : Bool
  pub provider : String
  pub provider_message_id : Option String
  pub error : Option String
  pub invalid_tokens : List String

-- `LogProvider.send`
unfoldable pub log_send : NotificationMessage → List DeviceTarget → SendResult
log_send message targets = record {
  success = true;
  provider = "log";
  provider_message_id = some "logged";
  error = none;
  invalid_tokens = [];
}

-- What one call to the push service ends with: `httpx.HTTPError`, or a status and the `name` of
-- the body.
pub data Post : Type 0 where
  http_error : String → Post
  response : (status : ℕ) → (name : Option String) → Post

-- The variables of the loop in `FCMProvider.send`.
pub record FcmLoop : Type 0 where
  pub sent : ℕ
  pub invalid : List String
  pub last_error : Option String
  pub last_id : Option String

abbrev is_success : ℕ → Bool
is_success status = leb 200 status && leb status 299

abbrev is_dead : ℕ → Bool
is_dead status = status == 400 || (status == 403 || status == 404)

module _ (status_text : ℕ → String) where
  -- The body of the loop, for one target.
  abbrev fcm_step : DeviceTarget → Post → FcmLoop → FcmLoop
  fcm_step target (http_error reason) l = record l { last_error = some reason }
  fcm_step target (response status name) l =
      if is_success status
      then record l { sent = suc l.sent; last_id = name }
      else if is_dead status
      then record l {
        invalid = l.invalid ++ target.push_token ∷ [];
        last_error = some (status_text status);
      }
      else record l { last_error = some (status_text status) }

  -- `post` answers for each target; `status_text` is `f"HTTP {status}"`.
  unfoldable pub fcm_loop : (DeviceTarget → Post) → List DeviceTarget → FcmLoop → FcmLoop
  fcm_loop post [] l = l
  fcm_loop post (t ∷ targets) l = fcm_loop post targets (fcm_step t (post t) l)

  -- `FCMProvider.send`, once it is configured and its credentials are refreshed.
  unfoldable pub fcm_send : (DeviceTarget → Post) → List DeviceTarget → SendResult
  unfolding fcm_loop
  fcm_send post targets =
      let start : FcmLoop = record { sent = 0; invalid = []; last_error = none; last_id = none } in
      let l = fcm_loop post targets start in
      record {
        success = ltb 0 l.sent;
        provider = "fcm";
        provider_message_id = l.last_id;
        error =
            if ltb 0 l.sent
            then none
            else some (text_or l.last_error "no targets accepted the message");
        invalid_tokens = l.invalid;
      }

-- The classes that `_PROVIDERS` lists.
pub data Provider : Type 0 where
  log_provider fcm_provider webpush_provider : Provider

pub record ProviderSettings : Type 0 where
  pub notification_provider : String
  pub fcm_credentials_file : Option String
  pub fcm_project_id : Option String
  pub vapid_private_key : Option String
  pub vapid_public_key : Option String

-- `bool(text)`
abbrev is_set : Option String → Bool
is_set none = false
is_set (some String.[]) = false
is_set (some (String.◌∷◌ c s)) = true

unfoldable pub is_configured : ProviderSettings → Provider → Bool
is_configured s log_provider = true
is_configured s fcm_provider = is_set s.fcm_credentials_file && is_set s.fcm_project_id
is_configured s webpush_provider = is_set s.vapid_private_key && is_set s.vapid_public_key

-- `_PROVIDERS.get(name, LogProvider)`
abbrev provider_named : String → Provider
provider_named name =
    if str_eq name "fcm"
    then fcm_provider
    else if str_eq name "webpush"
    then webpush_provider
    else log_provider

unfoldable pub get_provider : ProviderSettings → Option String → Provider
unfolding is_configured
get_provider s name =
    let wanted = provider_named (text_or name s.notification_provider) in
    if is_configured s wanted then wanted else log_provider
