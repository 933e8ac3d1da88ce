-- ===== src/Notifications/Ledger/Unique.antt =====
-- The keys of the ledger under each operation of app/repositories/notification.py.
use help_me_bid_backend.Base.{
  ℕ, ◌≡◌, refl, true, false, Option, none, some, List, [], ◌∷◌, arith, any, map, update, String,
  ◌⊎◌, Bool, All,
}
use help_me_bid_backend.Models.{NotificationDelivery}
use help_me_bid_backend.Store.{Store}
use help_me_bid_backend.Notifications.Ledger.{
  Key, key, same_key, is_claimed, Claim, claim, mark_sent, mark_failed, mark_skipped, has_id,
  as_sent, as_failed, as_skipped,
}

abbrev pub keys : Store → List Key
keys s = map key s.deliveries

abbrev pub has : Key → List Key → Bool
has k ks = any (same_key k) ks

-- No key stands twice.
abbrev pub Distinct : List Key → Type 0
Distinct [] = Unit
Distinct (k ∷ ks) = (has k ks ≡ false) × Distinct ks

-- Every key of the first list is in the second.
abbrev pub Within : List Key → List Key → Type 0
Within ks js = All (λ k. has k js ≡ true) ks

pub has-congr : (k j : Key) (ks : List Key) → same_key k j ≡ true → has k ks ≡ has j ks
has-congr k j [] e = refl
has-congr k j (i ∷ ks) e = ground (arith, has-congr k j ks e)

pub has_of_Within : (k : Key) (ks js : List Key) → Within ks js → has k ks ≡ true → has k js ≡ true
has_of_Within k [] js h e = cc
has_of_Within k (i ∷ ks) js h e = ground (arith, has-congr k i js, has_of_Within k ks js h.1)

pub Within-cons : (k : Key) (ks js : List Key) → Within ks js → Within ks (k ∷ js)
Within-cons k [] js h = tt
Within-cons k (i ∷ ks) js h = (ground arith, Within-cons k ks js h.1)

pub same_key_refl : (k : Key) → same_key k k ≡ true
same_key_refl k = ground arith

pub Within-refl : (ks : List Key) → Within ks ks
Within-refl [] = tt
Within-refl (k ∷ ks) = (ground (arith, same_key_refl k), Within-cons k ks ks (Within-refl ks))

pub is_claimed_lem :
    (k : Key) (rows : List NotificationDelivery) → is_claimed k rows ≡ has k (map key rows)
is_claimed_lem k [] = refl
is_claimed_lem k (d ∷ rows) = ground (arith, is_claimed_lem k rows)

keys-update :
    (p : NotificationDelivery → Bool) (f : NotificationDelivery → NotificationDelivery)
    → ((d : NotificationDelivery) → key (f d) ≡ key d)
    → (rows : List NotificationDelivery) → map key (update p f rows) ≡ map key rows
keys-update p f keep [] = refl
keys-update p f keep (d ∷ rows) = ground (arith, keep d, keys-update p f keep rows)

pub keys-mark_sent :
    (id : ℕ) (provider : String) (message_id : Option String) (now : ℕ) (s : Store)
    → keys (mark_sent id provider message_id now s) ≡ keys s
unfolding mark_sent
keys-mark_sent id provider message_id now s =
    keys-update (has_id id) (as_sent provider message_id now) (λ d. refl) s.deliveries

pub keys-mark_failed :
    (id : ℕ) (provider error : String) (now : ℕ) (s : Store)
    → keys (mark_failed id provider error now s) ≡ keys s
unfolding mark_failed
keys-mark_failed id provider error now s =
    keys-update (has_id id) (as_failed provider error now) (λ d. refl) s.deliveries

pub keys-mark_skipped :
    (id : ℕ) (reason : String) (s : Store) → keys (mark_skipped id reason s) ≡ keys s
unfolding mark_skipped
keys-mark_skipped id reason s = keys-update (has_id id) (as_skipped reason) (λ d. refl) s.deliveries

abbrev pub claim_key : Claim → Key
claim_key c = (c.preference_id, c.ipo_id, c.period_key)

-- A claim wins exactly when its key is free; then it adds that key and no other, and a claim that
-- loses changes nothing.
pub claim_wins :
    (c : Claim) (s : Store)
    → (claim c s ≡ (none, s)) × (has (claim_key c) (keys s) ≡ true)
      ⊎ ((claim c s).0 ≡ some s.next_id)
        × (has (claim_key c) (keys s) ≡ false)
        × (keys (claim c s).1 ≡ claim_key c ∷ keys s)
unfolding claim
claim_wins c s = ground (arith, is_claimed_lem (claim_key c) s.deliveries)
