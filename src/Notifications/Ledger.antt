-- ===== src/Notifications/Ledger.antt =====
-- `NotificationDeliveryRepository` of app/repositories/notification.py: the delivery ledger.
pub mod Unique
use help_me_bid_backend.Base.{
  ℕ, suc, ◌+◌, ◌==◌, ◌&&◌, String, Bool, Option, none, some, List, [], ◌∷◌, any, update,
  if◌then◌else◌,
}
use help_me_bid_backend.Base.Int.{ℤ}
use help_me_bid_backend.Models.{NotificationDelivery, pending, sent, failed, skipped}
use help_me_bid_backend.Store.{Store, truncate}

-- The columns of the unique constraint `uq_notification_delivery_period`.
abbrev pub Key : Type 0
Key = ℕ × ℕ × ℕ

abbrev pub key : NotificationDelivery → Key
key d = (d.preference_id, d.ipo_id, d.period_key)

abbrev pub same_key : Key → Key → Bool
same_key k j = k.0 == j.0 && k.1 == j.1 && k.2 == j.2

abbrev pub is_claimed : Key → List NotificationDelivery → Bool
is_claimed k rows = any (λ d. same_key k (key d)) rows

-- The values that `claim` inserts.
pub record Claim : Type 0 where
  pub user_id : ℕ
  pub preference_id : ℕ
  pub ipo_id : ℕ
  pub channel : String
  pub period_key : ℕ
  pub business_date : ℕ
  pub gmp_percentage : Option ℤ
  pub payload : String × String

abbrev pub new_row : ℕ → Claim → NotificationDelivery
new_row id c = record {
  id = id;
  user_id = c.user_id;
  preference_id = c.preference_id;
  ipo_id = c.ipo_id;
  channel = c.channel;
  period_key = c.period_key;
  business_date = c.business_date;
  status = pending;
  attempts = 0;
  sent_at = none;
  failed_at = none;
  gmp_percentage_at_send = c.gmp_percentage;
  payload = c.payload;
  provider = none;
  provider_message_id = none;
  error_message = none;
}

-- `INSERT ... ON CONFLICT DO NOTHING RETURNING id`
unfoldable pub claim : Claim → Store → Option ℕ × Store
claim c s =
    if is_claimed (c.preference_id, c.ipo_id, c.period_key) s.deliveries then (none, s) else (
      some s.next_id,
      record s { deliveries = new_row s.next_id c ∷ s.deliveries; next_id = suc s.next_id },
    )

-- The assignments that each `mark` makes to its row.
abbrev pub as_sent :
    (provider : String) → Option String → (now : ℕ) → NotificationDelivery → NotificationDelivery
as_sent provider message_id now d = record d {
  status = sent;
  sent_at = some now;
  attempts = d.attempts + 1;
  provider = some provider;
  provider_message_id = message_id;
}

abbrev pub as_failed :
    (provider error : String) → (now : ℕ) → NotificationDelivery → NotificationDelivery
as_failed provider error now d = record d {
  status = failed;
  failed_at = some now;
  attempts = d.attempts + 1;
  provider = some provider;
  error_message = some (truncate 1000 error);
}

abbrev pub as_skipped : (reason : String) → NotificationDelivery → NotificationDelivery
as_skipped reason d = record d { status = skipped; error_message = some (truncate 1000 reason) }

abbrev pub has_id : ℕ → NotificationDelivery → Bool
has_id id d = d.id == id

-- `session.get(NotificationDelivery, id)` and the assignments to the row, if there is one.
unfoldable pub mark_sent : ℕ → (provider : String) → Option String → (now : ℕ) → Store → Store
mark_sent id provider message_id now s = record s {
  deliveries = update (has_id id) (as_sent provider message_id now) s.deliveries;
}

unfoldable pub mark_failed : ℕ → (provider error : String) → (now : ℕ) → Store → Store
mark_failed id provider error now s = record s {
  deliveries = update (has_id id) (as_failed provider error now) s.deliveries;
}

unfoldable pub mark_skipped : ℕ → (reason : String) → Store → Store
mark_skipped id reason s = record s {
  deliveries = update (has_id id) (as_skipped reason) s.deliveries;
}
