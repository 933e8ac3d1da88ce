-- ===== src/Notifications/Engine/Messages.antt =====
-- `build_message` of app/services/notifications/engine.py. Python's formatting of numbers, dates
-- and ids is an argument.
use Prim.Native.String.{◌++◌}
use help_me_bid_backend.Base.{ℕ, String, Option, none, some, List, [], ◌∷◌, if◌then◌else◌}
use help_me_bid_backend.Base.Int.{ℤ, pos, eqb_ℤ}
use help_me_bid_backend.Models.{
  Ipo, NotificationPreference, name, close_date, gmp, gmp_percentage, price_max, subscription_times,
}
use help_me_bid_backend.Store.{join}
use help_me_bid_backend.Notifications.Providers.{NotificationMessage}

pub record Texts : Type 0 where
  pub decimal : ℤ → String
  pub date : ℕ → String
  pub uuid : ℕ → String

abbrev or_empty : Option String → String
or_empty none = ""
or_empty (some s) = s

-- `str(ipo.gmp_percentage or 0)`: a zero is false, and is written as the integer 0.
abbrev percentage_text : Texts → Option ℤ → String
percentage_text t none = "0"
percentage_text t (some g) = if eqb_ℤ g (pos 0) then "0" else t.decimal g

abbrev part : (before after : String) → Texts → Option ℤ → List String → List String
part before after t none parts = parts
part before after t (some v) parts = (before ++ (t.decimal v ++ after)) ∷ parts

abbrev close_text : Texts → Option ℕ → String
close_text t none = ""
close_text t (some d) = t.date d

unfoldable pub build_message : Texts → Ipo → NotificationPreference → NotificationMessage
build_message t ipo preference =
    let percentage = percentage_text t (ipo.columns gmp_percentage) in
    let name_text = or_empty (ipo.columns name) in
    record {
      title = name_text ++ " closes today";
      body = join (
          ("GMP " ++ (percentage ++ "%"))
          ∷ part "(₹" ")" t (ipo.columns gmp) (
              part "· Price ₹" "" t (ipo.columns price_max)
                (part "· Subscribed " "x" t (ipo.columns subscription_times) [])));
      payload =
          ("ipo_id", t.uuid ipo.id)
          ∷ ("ipo_name", name_text)
          ∷ ("gmp_percentage", percentage)
          ∷ ("close_date", close_text t (ipo.columns close_date))
          ∷ ("preference_id", t.uuid preference.id)
          ∷ ("type", "ipo_gmp_alert")
          ∷ [];
    }
