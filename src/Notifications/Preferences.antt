-- ===== src/Notifications/Preferences.antt =====
-- `NotificationPreferenceRepository` of app/repositories/notification.py and
-- `NotificationPreferenceService` of app/services/notifications/service.py.
pub mod Owned
use help_me_bid_backend.Base.{
  ℕ, suc, ◌==◌, ◌&&◌, not, String, Bool, true, false, Option, none, some, List, [], ◌∷◌, ◌++◌, find,
  filter, update, any, if◌then◌else◌, ◌≡◌, ◌≤◌, All, arith, Bool-cases, Option-cases, inl, inr,
}
use help_me_bid_backend.Base.Int.{ℤ}
use help_me_bid_backend.Models.{NotificationPreference, User}
use help_me_bid_backend.Store.{Store}

unfoldable pub list_for_user : ℕ → Store → List NotificationPreference
list_for_user user_id s = filter (λ p. p.user_id == user_id) s.preferences

unfoldable pub get_for_user : (preference_id user_id : ℕ) → Store → Option NotificationPreference
get_for_user preference_id user_id s =
    find (λ p. p.id == preference_id && p.user_id == user_id) s.preferences

-- The dictionary that `_to_storage` makes of a request to create a rule.
pub record PreferenceValues : Type 0 where
  pub label : Option String
  pub is_enabled : Bool
  pub min_gmp_percentage : ℤ
  pub max_gmp_percentage : Option ℤ
  pub interval_minutes : ℕ
  pub only_on_close_date : Bool
  pub ipo_types : Option (List String)
  pub exchanges : Option (List String)
  pub min_subscription_times : Option ℤ
  pub channels : List String

unfoldable pub create : ℕ → PreferenceValues → Store → Store
create user_id v s = record s {
  preferences =
      s.preferences
      ++ record {
        id = s.next_id;
        user_id = user_id;
        label = v.label;
        is_enabled = v.is_enabled;
        min_gmp_percentage = v.min_gmp_percentage;
        max_gmp_percentage = v.max_gmp_percentage;
        interval_minutes = v.interval_minutes;
        only_on_close_date = v.only_on_close_date;
        ipo_types = v.ipo_types;
        exchanges = v.exchanges;
        min_subscription_times = v.min_subscription_times;
        channels = v.channels;
        last_evaluated_at = none;
      }
        ∷ [];
  next_id = suc s.next_id;
}

-- `update` and `delete` of the service: `none` is `NotificationPreferenceNotFoundError`. The
-- assignments that a request makes to the row are a function.
unfoldable pub update_owned :
    (preference_id user_id : ℕ)
    → (NotificationPreference → NotificationPreference)
    → Store
    → Option Store
update_owned preference_id user_id assign s = elim (get_for_user preference_id user_id s) [
  | none ↦ none
  | some p ↦ some (record s { preferences = update (λ q. q.id == p.id) assign s.preferences })
]

unfoldable pub delete_owned : (preference_id user_id : ℕ) → Store → Option Store
delete_owned preference_id user_id s = elim (get_for_user preference_id user_id s) [
  | none ↦ none
  | some p ↦ some (record s {
    preferences = filter (λ q. not (q.id == p.id)) s.preferences;
    deliveries = filter (λ d. not (d.preference_id == p.id)) s.deliveries;
  })
]

-- The inner join of a rule with its user, who must be active.
abbrev active_owner : List User → ℕ → Option User
active_owner users user_id = find (λ u. u.id == user_id && u.is_active) users

abbrev join : List User → List NotificationPreference → List (NotificationPreference × User)
join users [] = []
join users (p ∷ ps) =
    let rest = join users ps in
    if p.is_enabled
    then elim (active_owner users p.user_id) [ none ↦ rest | some u ↦ (p, u) ∷ rest ]
    else rest

unfoldable pub list_active_with_users : Store → List (NotificationPreference × User)
list_active_with_users s = join s.users s.preferences

unfoldable pub mark_evaluated : List ℕ → (now : ℕ) → Store → Store
mark_evaluated ids now s = record s {
  preferences =
      update (λ p. any (◌==◌ p.id) ids) (λ p. record p { last_evaluated_at = some now })
        s.preferences;
}

-- A rule that is switched on, with its owner, who is active.
abbrev pub IsActiveRule : NotificationPreference × User → Type 0
IsActiveRule (p, u) = (p.is_enabled ≡ true) × (u.id ≡ p.user_id) × (u.is_active ≡ true)

active_owner_lem :
    (users : List User) (user_id : ℕ) (u : User)
    → active_owner users user_id ≡ some u
    → (u.id ≡ user_id) × (u.is_active ≡ true)
active_owner_lem [] user_id u h = cc
active_owner_lem (v ∷ users) user_id u h = ground (arith, active_owner_lem users user_id u)

join-All : (users : List User) (ps : List NotificationPreference) → All IsActiveRule (join users ps)
join-All users [] = tt
join-All users (p ∷ ps) = elim (Bool-cases p.is_enabled) [
  | inl enabled ↦ elim (Option-cases (active_owner users p.user_id)) [
    | inl none' ↦ rw (enabled, none') (join-All users ps)
    | inr (u, found) ↦
        let (owner, active) = active_owner_lem users p.user_id u found in
        rw (enabled, found) ((enabled, owner, active), join-All users ps)
  ]
  | inr disabled ↦ rw disabled (join-All users ps)
]

pub list_active_with_users-All : (s : Store) → All IsActiveRule (list_active_with_users s)
unfolding list_active_with_users
list_active_with_users-All s = join-All s.users s.preferences

join-interval :
    (users : List User) (ps : List NotificationPreference)
    → All (λ p. 1 ≤ p.interval_minutes) ps
    → All (λ r. 1 ≤ (r.0).interval_minutes) (join users ps)
join-interval users [] h = tt
join-interval users (p ∷ ps) h = elim (Bool-cases p.is_enabled) [
  | inl enabled ↦ elim (Option-cases (active_owner users p.user_id)) [
    | inl missing ↦ rw (enabled, missing) (join-interval users ps h.1)
    | inr (u, found) ↦ rw (enabled, found) (h.0, join-interval users ps h.1)
  ]
  | inr disabled ↦ rw disabled (join-interval users ps h.1)
]

pub list_active_with_users-interval :
    (s : Store)
    → All (λ p. 1 ≤ p.interval_minutes) s.preferences
    → All (λ r. 1 ≤ (r.0).interval_minutes) (list_active_with_users s)
unfolding list_active_with_users
list_active_with_users-interval s h = join-interval s.users s.preferences h
