-- ===== src/Notifications/Engine/AtMostOnce.antt =====
-- The engine against an abstract notifier that only remembers keys: which are in the ledger,
-- which of those are committed, and for which the provider was called.
use help_me_bid_backend.Base.{◌≡◌, false, List, [], ◌∷◌, arith, inl, inr, Bool-cases, subst, sym}
use help_me_bid_backend.Notifications.Ledger.{Key}
use help_me_bid_backend.Notifications.Ledger.Unique.{
  has, Distinct, Within, has_of_Within, Within-cons, Within-refl, same_key_refl,
}

pub record Notifier : Type 0 where
  pub ledger : List Key
  pub safe : List Key
  pub sent : List Key

-- One step of the abstract notifier. A key is sent only in the step that puts it, new, into the
-- committed ledger.
pub data Step (a b : Notifier) : Type 0 where
  claim_only :
      (k : Key)
      → has k a.ledger ≡ false
      → b ≡ record { ledger = k ∷ a.ledger; safe = k ∷ a.ledger; sent = a.sent }
      → Step a b
  claim_and_send :
      (k : Key)
      → has k a.ledger ≡ false
      → b ≡ record { ledger = k ∷ a.ledger; safe = k ∷ a.ledger; sent = k ∷ a.sent }
      → Step a b
  save : b ≡ record a { safe = a.ledger } → Step a b
  forget : b ≡ record a { ledger = a.safe } → Step a b

pub data Reach (a : Notifier) : Notifier → Type 0 where
  here : Reach a a
  next : {b c : Notifier} → Reach a b → Step b c → Reach a c

pub record IsOnce (a : Notifier) : Type 0 where
  pub ledger_distinct : Distinct a.ledger
  pub safe_distinct : Distinct a.safe
  pub sent_distinct : Distinct a.sent
  pub sent_safe : Within a.sent a.safe
  pub safe_kept : Within a.safe a.ledger

not_has : (k : Key) (ks js : List Key) → Within ks js → has k js ≡ false → has k ks ≡ false
not_has k ks js h e = elim (Bool-cases (has k ks)) [
  | inl yes' ↦ cc (has_of_Within k ks js h yes')
  | inr no' ↦ no'
]

Within-trans : (ks js is : List Key) → Within ks js → Within js is → Within ks is
Within-trans [] js is h g = tt
Within-trans (k ∷ ks) js is h g = (has_of_Within k js is g h.0, Within-trans ks js is h.1 g)

Step-IsOnce : {a b : Notifier} → Step a b → IsOnce a → IsOnce b
Step-IsOnce {a} (claim_only k new e) h = subst IsOnce (sym e) (record {
  ledger_distinct = (new, h.ledger_distinct);
  safe_distinct = (new, h.ledger_distinct);
  sent_distinct = h.sent_distinct;
  sent_safe =
      Within-cons k a.sent a.ledger (Within-trans a.sent a.safe a.ledger h.sent_safe h.safe_kept);
  safe_kept = Within-refl (k ∷ a.ledger);
})
Step-IsOnce {a} (claim_and_send k new e) h =
    let within = Within-trans a.sent a.safe a.ledger h.sent_safe h.safe_kept in
    subst IsOnce (sym e) (record {
      ledger_distinct = (new, h.ledger_distinct);
      safe_distinct = (new, h.ledger_distinct);
      sent_distinct = (not_has k a.sent a.ledger within new, h.sent_distinct);
      sent_safe = (ground (arith, same_key_refl k), Within-cons k a.sent a.ledger within);
      safe_kept = Within-refl (k ∷ a.ledger);
    })
Step-IsOnce {a} (save e) h = subst IsOnce (sym e) (record {
  ledger_distinct = h.ledger_distinct;
  safe_distinct = h.ledger_distinct;
  sent_distinct = h.sent_distinct;
  sent_safe = Within-trans a.sent a.safe a.ledger h.sent_safe h.safe_kept;
  safe_kept = Within-refl a.ledger;
})
Step-IsOnce {a} (forget e) h = subst IsOnce (sym e) (record {
  ledger_distinct = h.safe_distinct;
  safe_distinct = h.safe_distinct;
  sent_distinct = h.sent_distinct;
  sent_safe = h.sent_safe;
  safe_kept = Within-refl a.safe;
})

pub Reach-IsOnce : {a b : Notifier} → IsOnce a → Reach a b → IsOnce b
Reach-IsOnce h here = h
Reach-IsOnce h (next r s) = Step-IsOnce s (Reach-IsOnce h r)

pub Reach-trans : {a b c : Notifier} → Reach a b → Reach b c → Reach a c
Reach-trans r here = r
Reach-trans r (next q s) = next (Reach-trans r q) s
