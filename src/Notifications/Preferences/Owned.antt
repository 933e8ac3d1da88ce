-- ===== src/Notifications/Preferences/Owned.antt =====
-- One user's calls of `NotificationPreferenceService` (app/services/notifications/service.py)
-- against another user's rules.
use help_me_bid_backend.Base.{
  ℕ, ◌≡◌, ◌≢◌, refl, ◌==◌, ◌&&◌, Bool, true, false, Option, some, List, [], ◌∷◌, arith, any, find,
  filter, not, is_some, inl, inr, Option-cases,
}
use help_me_bid_backend.Models.{NotificationPreference}
use help_me_bid_backend.Store.{Store}
use help_me_bid_backend.Notifications.Preferences.{list_for_user, get_for_user, delete_owned}

abbrev has_rule : ℕ → List NotificationPreference → Bool
has_rule id rows = any (λ q. q.id == id) rows

-- The primary key.
abbrev pub DistinctRules : List NotificationPreference → Type 0
DistinctRules [] = Unit
DistinctRules (p ∷ ps) = (has_rule p.id ps ≡ false) × DistinctRules ps

abbrev of_user : ℕ → List NotificationPreference → List NotificationPreference
of_user user_id rows = filter (λ p. p.user_id == user_id) rows

abbrev owned : ℕ → ℕ → List NotificationPreference → Option NotificationPreference
owned id user_id rows = find (λ p. p.id == id && p.user_id == user_id) rows

owned-has_rule :
    (id user_id : ℕ) (rows : List NotificationPreference)
    → is_some (owned id user_id rows) ≡ true
    → has_rule id rows ≡ true
owned-has_rule id user_id [] h = cc
owned-has_rule id user_id (q ∷ rows) h = ground (arith, owned-has_rule id user_id rows)

owned-id :
    (id user_id : ℕ) (p : NotificationPreference) (rows : List NotificationPreference)
    → owned id user_id rows ≡ some p
    → p.id ≡ id
owned-id id user_id p [] h = cc
owned-id id user_id p (q ∷ rows) h = ground (arith, owned-id id user_id p rows)

without_absent :
    (id other : ℕ) (rows : List NotificationPreference)
    → has_rule id rows ≡ false
    → of_user other (filter (λ q. not (q.id == id)) rows) ≡ of_user other rows
without_absent id other [] h = refl
without_absent id other (q ∷ rows) h = ground (arith, without_absent id other rows)

without_owned :
    (id user_id other : ℕ) (rows : List NotificationPreference)
    → other ≢ user_id
    → DistinctRules rows
    → is_some (owned id user_id rows) ≡ true
    → of_user other (filter (λ q. not (q.id == id)) rows) ≡ of_user other rows
without_owned id user_id other [] ne h k = refl
without_owned id user_id other (q ∷ rows) ne h k = ground (
  arith,
  without_absent id other rows,
  owned-has_rule id user_id rows,
  without_owned id user_id other rows ne h.1,
)

-- In a table of rules with distinct ids, when a user's deletion of a rule succeeds, every other
-- user's list of rules stays as it was.
pub delete_owned-others :
    (preference_id user_id other : ℕ) (s s' : Store)
    → other ≢ user_id
    → DistinctRules s.preferences
    → delete_owned preference_id user_id s ≡ some s'
    → list_for_user other s' ≡ list_for_user other s
unfolding delete_owned get_for_user list_for_user
delete_owned-others preference_id user_id other s s' ne h e =
    elim (Option-cases (owned preference_id user_id s.preferences)) [
      | inl missing ↦ ground (arith, missing, e)
      | inr (p, found) ↦ ground (
        arith,
        found,
        e,
        owned-id preference_id user_id p s.preferences found,
        without_owned preference_id user_id other s.preferences ne h,
      )
    ]
