-- ===== src/Notifications/Rules/Eligible.antt =====
-- What a rule promises, stated apart from the code (the list at the head of
-- app/services/notifications/engine.py).
use help_me_bid_backend.Base.{
  ℕ, String, ◌≡◌, refl, ◌↔◌, ◌⊎◌, inl, inr, true, false, Option, none, some, List, [], ◌∷◌, arith,
  contains, eq_iff, ◌≤◌, ◌<◌, ◌*◌, ◌%◌, Option-cases, Bool-cases,
}
use help_me_bid_backend.Base.Int.{ℤ, ◌≤ℤ◌}
use help_me_bid_backend.Dates.{Zone, hour, day, current_hour_in_app_timezone}
use help_me_bid_backend.Models.{
  Ipo, NotificationPreference, close_date, gmp_percentage, ipo_type, exchange, subscription_times,
}
use help_me_bid_backend.Notifications.Rules.{
  rule_matches_ipo, within_notification_window, other_day, excludes, above, under_subscribed,
}

abbrev pub OneOf : String → List String → Type 0
OneOf s [] = ⊥
OneOf s (w ∷ ws) = (s ≡ w) ⊎ OneOf s ws

-- A null or empty list allows everything, any other only its members.
abbrev pub Allowed : Option (List String) → Option String → Type 0
Allowed none value = Unit
Allowed (some []) value = Unit
Allowed (some (w ∷ ws)) value = (s : String) × (value ≡ some s) × OneOf s (w ∷ ws)

pub record IsEligible (preference : NotificationPreference) (ipo : Ipo) (today : ℕ) : Type 0 where
  pub closes_today : preference.only_on_close_date ≡ true → ipo.columns close_date ≡ some today
  pub premium :
      (g : ℤ) × (ipo.columns gmp_percentage ≡ some g)
      × (preference.min_gmp_percentage ≤ℤ g)
      × ((bound : ℤ) → preference.max_gmp_percentage ≡ some bound → g ≤ℤ bound)
  pub of_type : Allowed preference.ipo_types (ipo.columns ipo_type)
  pub on_exchange : Allowed preference.exchanges (ipo.columns exchange)
  pub subscribed :
      (least : ℤ)
      → preference.min_subscription_times ≡ some least
      → (t : ℤ) × (ipo.columns subscription_times ≡ some t) × (least ≤ℤ t)

contains_iff : (s : String) (ws : List String) → (contains s ws ≡ true) ↔ OneOf s ws
contains_iff s [] = (λ h. cc, λ h. absurd h)
contains_iff s (w ∷ ws) = (
  λ h. ground (arith, eq_iff s w, contains_iff s ws),
  λ h. ground (arith, eq_iff s w, contains_iff s ws),
)

excludes_iff :
    (wanted : Option (List String)) (value : Option String)
    → (excludes wanted value ≡ false) ↔ Allowed wanted value
excludes_iff none value = (λ h. tt, λ h. refl)
excludes_iff (some []) value = (λ h. tt, λ h. refl)
excludes_iff (some (w ∷ ws)) none = (λ h. cc, λ h. cc h.1)
excludes_iff (some (w ∷ ws)) (some s) = (
  λ h. (s, refl, (contains_iff s (w ∷ ws)).0 (ground arith)),
  λ h. ground (arith, h, (contains_iff s (w ∷ ws))),
)

other_day_iff : (o : Option ℕ) (today : ℕ) → (other_day o today ≡ false) ↔ (o ≡ some today)
other_day_iff none today = (λ h. cc, λ h. cc)
other_day_iff (some d) today = (λ h. ground arith, λ h. ground arith)

above_iff :
    (g : ℤ) (limit : Option ℤ)
    → (above g limit ≡ false) ↔ ((bound : ℤ) → limit ≡ some bound → g ≤ℤ bound)
above_iff g none = (λ h bound e. cc, λ h. refl)
above_iff g (some b) = (λ h bound e. ground arith, λ h. ground (arith, h b refl))

under_subscribed_iff :
    (least times : Option ℤ)
    → (under_subscribed least times ≡ false)
      ↔ ((l : ℤ) → least ≡ some l → (t : ℤ) × (times ≡ some t) × (l ≤ℤ t))
under_subscribed_iff none times = (λ h l e. cc, λ h. refl)
under_subscribed_iff (some l') none = (λ h l e. cc, λ h. cc (h l' refl).1)
under_subscribed_iff (some l') (some t) =
    (λ h l e. (t, refl, ground arith), λ h. ground (arith, h l' refl))

rule_matches_sound :
    (preference : NotificationPreference) (ipo : Ipo) (today : ℕ)
    → rule_matches_ipo preference ipo today ≡ true
    → IsEligible preference ipo today
unfolding rule_matches_ipo
rule_matches_sound p ipo today h = elim (Option-cases (ipo.columns gmp_percentage)) [
  | inl missing ↦ ground arith
  | inr (g, e) ↦ record {
    closes_today = λ only. (other_day_iff (ipo.columns close_date) today).0 (ground arith);
    premium = (g, e, ground arith, (above_iff g p.max_gmp_percentage).0 (ground arith));
    of_type = (excludes_iff p.ipo_types (ipo.columns ipo_type)).0 (ground arith);
    on_exchange = (excludes_iff p.exchanges (ipo.columns exchange)).0 (ground arith);
    subscribed =
        (under_subscribed_iff p.min_subscription_times (ipo.columns subscription_times)).0
          (ground arith);
  }
]

rule_matches_complete :
    (preference : NotificationPreference) (ipo : Ipo) (today : ℕ)
    → IsEligible preference ipo today
    → rule_matches_ipo preference ipo today ≡ true
unfolding rule_matches_ipo
rule_matches_complete p ipo today h =
    let (g, e, low, high) = h.premium in
    let not_above = (above_iff g p.max_gmp_percentage).1 high in
    let typed = (excludes_iff p.ipo_types (ipo.columns ipo_type)).1 h.of_type in
    let listed = (excludes_iff p.exchanges (ipo.columns exchange)).1 h.on_exchange in
    let enough =
      (under_subscribed_iff p.min_subscription_times (ipo.columns subscription_times)).1
        h.subscribed in
    elim (Bool-cases p.only_on_close_date) [
      | inl only ↦
          let day = (other_day_iff (ipo.columns close_date) today).1 (h.closes_today only) in
          rw (only, day, e, not_above, typed, listed, enough) (ground arith)
      | inr any_day ↦ rw (any_day, e, not_above, typed, listed, enough) (ground arith)
    ]

-- `rule_matches_ipo` accepts exactly the pairs that are eligible: the issue closes today unless
-- the rule opts out, its premium is known and within the rule's bounds, its type and exchange are
-- among those wanted if any are, and a subscription minimum is reached by a known figure.
pub rule_matches_iff :
    (preference : NotificationPreference) (ipo : Ipo) (today : ℕ)
    → (rule_matches_ipo preference ipo today ≡ true) ↔ IsEligible preference ipo today
rule_matches_iff p ipo today = (rule_matches_sound p ipo today, rule_matches_complete p ipo today)

-- The window test holds exactly from the start of the first hour to the start of the last one,
-- on the wall clock of the business time zone.
pub within_window_iff :
    (zone : Zone) (start_hour end_hour now : ℕ)
    → (within_notification_window zone start_hour end_hour now ≡ true)
      ↔ ((start_hour * hour ≤ zone now % day) × (zone now % day < end_hour * hour))
unfolding within_notification_window current_hour_in_app_timezone
within_window_iff zone start_hour end_hour now =
    (λ h. (ground arith, ground arith), λ h. ground arith)
