-- ===== src/Notifications/Targets/Reach.antt =====
-- `_targets_for` (app/services/notifications/engine.py): which devices a notification goes to.
use help_me_bid_backend.Base.{
  ℕ, ◌≡◌, refl, ◌==◌, ◌&&◌, ◌↔◌, ◌⊎◌, true, Option, none, some, List, [], ◌∷◌, arith, Bool, inl,
  inr, Bool-cases, filter, subst,
}
use help_me_bid_backend.Models.{Device}
use help_me_bid_backend.Store.{Store}
use help_me_bid_backend.Devices
use help_me_bid_backend.Notifications.Providers.{DeviceTarget, NotificationChannel, device_type}
use help_me_bid_backend.Notifications.Targets.{
  targets_for, targets_from, target_of, add_target, is_wanted,
}

-- The device is active, belongs to the user, and its type is one that the channel reaches.
pub record Reaches (user_id : ℕ) (c : NotificationChannel) (t : DeviceTarget) (d : Device)
    : Type 0 where
  pub owner : d.user_id ≡ user_id
  pub active : d.is_active ≡ true
  pub typed : device_type d.device_type ≡ some t.device_type
  pub wanted : is_wanted c t.device_type ≡ true
  pub same_id : t.device_id ≡ d.id
  pub same_token : t.push_token ≡ d.push_token

abbrev pub In : {A : Type 0} → A → List A → Type 0
In x [] = ⊥
In x (y ∷ ys) = (x ≡ y) ⊎ In x ys

module _ {A : Type 0} (p : A → Bool) (x : A) where
  In-of_filter : (xs : List A) → In x (filter p xs) → In x xs × (p x ≡ true)
  In-of_filter [] h = absurd h
  In-of_filter (y ∷ ys) h = elim (Bool-cases (p y)) [
    | inl passes ↦ elim (rw passes at h) [
      | inl same ↦ (inl same, rw same passes)
      | inr later ↦ let (i, e) = In-of_filter ys later in (inr i, e)
    ]
    | inr fails ↦ let (i, e) = In-of_filter ys (rw fails at h) in (inr i, e)
  ]

  In-filter : (xs : List A) → In x xs → p x ≡ true → In x (filter p xs)
  In-filter [] h e = absurd h
  In-filter (y ∷ ys) (inl same) e = let passes : p y ≡ true = rw (← same) e in rw passes (inl same)
  In-filter (y ∷ ys) (inr later) e = elim (Bool-cases (p y)) [
    | inl passes ↦ rw passes (inr (In-filter ys later e))
    | inr fails ↦ rw fails (In-filter ys later e)
  ]

-- What makes a device a target.
abbrev IsTarget : NotificationChannel → DeviceTarget → Device → Type 0
IsTarget c t d =
    (device_type d.device_type ≡ some t.device_type)
    × (is_wanted c t.device_type ≡ true)
    × (t.device_id ≡ d.id)
    × (t.push_token ≡ d.push_token)

target_of_iff :
    (c : NotificationChannel) (t : DeviceTarget) (d : Device)
    → (target_of c d ≡ some t) ↔ IsTarget c t d
target_of_iff c t d =
    (λ h. (ground arith, ground arith, ground arith, ground arith), λ (a, b, e, f). ground arith)

In-add_target :
    (o : Option DeviceTarget) (targets : List DeviceTarget) (t : DeviceTarget)
    → In t (add_target o targets) ↔ ((o ≡ some t) ⊎ In t targets)
In-add_target none targets t = (λ h. inr h, λ h. elim h [ inl e ↦ cc | inr i ↦ i ])
In-add_target (some u) targets t = (
  λ h. elim h [ inl e ↦ inl (cc) | inr i ↦ inr i ],
  λ h. elim h [ inl e ↦ inl (cc) | inr i ↦ inr i ],
)

In-targets_from :
    (c : NotificationChannel) (ds : List Device) (t : DeviceTarget)
    → In t (targets_from c ds) ↔ ((d : Device) × In d ds × IsTarget c t d)
In-targets_from c [] t = (λ h. absurd h, λ h. absurd h.1)
In-targets_from c (d ∷ ds) t = (
  λ h. elim ((In-add_target (target_of c d) (targets_from c ds) t).0 h) [
    | inl first ↦ (d, inl refl, (target_of_iff c t d).0 first)
    | inr later ↦ let (e, i, r) = (In-targets_from c ds t).0 later in (e, inr i, r)
  ],
  λ (e, i, r). (In-add_target (target_of c d) (targets_from c ds) t).1 (elim i [
    | inl same ↦ inl ((target_of_iff c t d).1 (subst (IsTarget c t) same r))
    | inr later ↦ inr ((In-targets_from c ds t).1 (e, later, r))
  ]),
)

-- The targets of a notification are exactly the user's own active devices whose type the channel
-- reaches, each with its token.
pub targets_for_iff :
    (user_id : ℕ) (c : NotificationChannel) (s : Store) (t : DeviceTarget)
    → In t (targets_for user_id c s) ↔ ((d : Device) × In d s.devices × Reaches user_id c t d)
unfolding targets_for Devices.list_active_for_user
targets_for_iff user_id c s t = (
  λ h.
      let (d, i, r) = (In-targets_from c (Devices.list_active_for_user user_id s) t).0 h in
      let (i', e) = In-of_filter (λ d. d.user_id == user_id && d.is_active) d s.devices i in
      (
        d,
        i',
        record {
          owner = ground arith;
          active = ground arith;
          typed = r.0;
          wanted = r.1;
          same_id = r.2;
          same_token = r.3;
        },
      ),
  λ (d, i, r). (In-targets_from c (Devices.list_active_for_user user_id s) t).1 (
    d,
    In-filter (λ d. d.user_id == user_id && d.is_active) d s.devices i (ground arith),
    (r.typed, r.wanted, r.same_id, r.same_token),
  ),
)
