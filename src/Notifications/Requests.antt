-- ===== src/Notifications/Requests.antt =====
-- The requests for rules (app/schemas/notification.py): `NotificationPreferenceBase` and its
-- validator, and the CHECK constraints of app/db/models/notification.py. A member of an enum is its
-- text, as it is stored; that a text is one of them is the schema library's business.
pub mod Accepted
mod Tests
use help_me_bid_backend.Base.{
  ℕ, ◌&&◌, ◌==◌, leb, not, Bool, true, false, Option, none, some, List, [], ◌∷◌, String, str_eq,
  filter, if◌then◌else◌,
}
use help_me_bid_backend.Base.Int.{ℤ, pos, negsuc, leb_ℤ, ltb_ℤ}
use help_me_bid_backend.Store.{truncate}
use help_me_bid_backend.Notifications.Preferences.{PreferenceValues}

-- -100 and 1000 per cent, in millionths.
abbrev pub least_gmp : ℤ
least_gmp = negsuc 99_999_999

abbrev pub greatest_gmp : ℤ
greatest_gmp = pos 1_000_000_000

abbrev pub in_gmp_range : ℤ → Bool
in_gmp_range v = leb_ℤ least_gmp v && leb_ℤ v greatest_gmp

abbrev pub optional_gmp : Option ℤ → Bool
optional_gmp none = true
optional_gmp (some v) = in_gmp_range v

abbrev pub short_label : Option String → Bool
short_label none = true
short_label (some s) = str_eq (truncate 80 s) s

abbrev pub not_negative : Option ℤ → Bool
not_negative none = true
not_negative (some v) = leb_ℤ (pos 0) v

abbrev pub is_empty : List String → Bool
is_empty [] = true
is_empty (c ∷ cs) = false

-- The bounds of the fields.
unfoldable pub fields_pass : PreferenceValues → Bool
unfolding truncate
fields_pass v =
    short_label v.label
    && in_gmp_range v.min_gmp_percentage
    && optional_gmp v.max_gmp_percentage
    && (leb 15 v.interval_minutes && leb v.interval_minutes 10_080)
    && not_negative v.min_subscription_times
    && not (is_empty v.channels)

abbrev pub gmp_ordered : Option ℤ → ℤ → Bool
gmp_ordered none low = true
gmp_ordered (some high) low = leb_ℤ low high

-- `list(dict.fromkeys(values))`
abbrev pub from_keys : List String → List String
from_keys [] = []
from_keys (v ∷ vs) = v ∷ filter (λ w. not (str_eq v w)) (from_keys vs)

abbrev pub from_keys_of : Option (List String) → Option (List String)
from_keys_of none = none
from_keys_of (some vs) = some (from_keys vs)

-- `_check_bounds`
unfoldable pub check_bounds : PreferenceValues → Option PreferenceValues
check_bounds v =
    if gmp_ordered v.max_gmp_percentage v.min_gmp_percentage
    then some (record v {
      ipo_types = from_keys_of v.ipo_types;
      exchanges = from_keys_of v.exchanges;
      channels = from_keys v.channels;
    })
    else none

-- The request as the service gets it; `none` is the error of validation.
unfoldable pub accept : PreferenceValues → Option PreferenceValues
accept v = if fields_pass v then check_bounds v else none

-- The three CHECK constraints.
unfoldable pub is_storable : PreferenceValues → Bool
is_storable v =
    in_gmp_range v.min_gmp_percentage
    && gmp_ordered v.max_gmp_percentage v.min_gmp_percentage
    && (leb 15 v.interval_minutes && leb v.interval_minutes 10_080)
