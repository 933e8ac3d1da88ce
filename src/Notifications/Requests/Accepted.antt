-- ===== src/Notifications/Requests/Accepted.antt =====
-- What a request for a rule that is accepted has (app/schemas/notification.py).
use help_me_bid_backend.Base.{
  ◌≡◌, refl, subst, ◌∙◌, arith, not, true, false, Option, none, some, List, [], ◌∷◌, String, str_eq,
  filter, contains, inl, inr, Bool-cases, eq_iff,
}
use help_me_bid_backend.Notifications.Preferences.{PreferenceValues}
use help_me_bid_backend.Notifications.Requests.{
  fields_pass, gmp_ordered, from_keys, from_keys_of, check_bounds, accept, is_storable, is_empty,
}

abbrev pub Distinct : List String → Type 0
Distinct [] = Unit
Distinct (v ∷ vs) = (contains v vs ≡ false) × Distinct vs

filtered-absent :
    (v : String) (ws : List String) → contains v (filter (λ w. not (str_eq v w)) ws) ≡ false
filtered-absent v [] = refl
filtered-absent v (w ∷ ws) = elim (Bool-cases (str_eq v w)) [
  | inl same ↦ rw same (filtered-absent v ws)
  | inr other ↦ rw other (rw other (filtered-absent v ws))
]

filtered-contains :
    (v u : String) (ws : List String)
    → contains u ws ≡ false
    → contains u (filter (λ w. not (str_eq v w)) ws) ≡ false
filtered-contains v u [] h = refl
filtered-contains v u (w ∷ ws) h = ground (arith, filtered-contains v u ws)

filtered-Distinct :
    (v : String) (ws : List String) → Distinct ws → Distinct (filter (λ w. not (str_eq v w)) ws)
filtered-Distinct v [] h = tt
filtered-Distinct v (w ∷ ws) h = elim (Bool-cases (str_eq v w)) [
  | inl same ↦ rw (same, Distinct) (filtered-Distinct v ws h.1)
  | inr other ↦ rw (other, Distinct) (filtered-contains v w ws h.0, filtered-Distinct v ws h.1)
]

from_keys-Distinct : (vs : List String) → Distinct (from_keys vs)
from_keys-Distinct [] = tt
from_keys-Distinct (v ∷ vs) =
    (filtered-absent v (from_keys vs), filtered-Distinct v (from_keys vs) (from_keys-Distinct vs))

filtered-others :
    (v u : String) (ws : List String)
    → str_eq u v ≡ false
    → contains u (filter (λ w. not (str_eq v w)) ws) ≡ contains u ws
filtered-others v u [] h = refl
filtered-others v u (w ∷ ws) h = elim (Bool-cases (str_eq v w)) [
  | inl same ↦
      let e = (eq_iff v w).0 same in
      rw (same, subst (λ x. str_eq u x ≡ false) e h) (filtered-others v u ws h)
  | inr other ↦ rw (other, filtered-others v u ws h) refl
]

from_keys-contains : (u : String) (vs : List String) → contains u (from_keys vs) ≡ contains u vs
from_keys-contains u [] = refl
from_keys-contains u (v ∷ vs) = elim (Bool-cases (str_eq u v)) [
  | inl same ↦ rw same refl
  | inr other ↦ rw other (filtered-others v u (from_keys vs) other ∙ from_keys-contains u vs)
]

checked-allowed :
    (v : PreferenceValues)
    → fields_pass v ≡ true
    → gmp_ordered v.max_gmp_percentage v.min_gmp_percentage ≡ true
    → is_storable v ≡ true
unfolding fields_pass is_storable
checked-allowed v h k = ground (arith, h, k)

-- What stands in place of a request's fields: the rest is as it was sent.
pub record IsAccepted (v w : PreferenceValues) : Type 0 where
  pub allowed : is_storable w ≡ true
  pub distinct : Distinct w.channels
  pub channels : (c : String) → contains c w.channels ≡ contains c v.channels
  pub reachable : is_empty w.channels ≡ false
  pub exchanges : w.exchanges ≡ from_keys_of v.exchanges
  pub ipo_types : w.ipo_types ≡ from_keys_of v.ipo_types
  pub rest :
      record w { channels = v.channels; exchanges = v.exchanges; ipo_types = v.ipo_types } ≡ v

abbrev Held : PreferenceValues → Option PreferenceValues → Type 0
Held v none = Unit
Held v (some w) = IsAccepted v w

from_keys-is_empty : (vs : List String) → is_empty (from_keys vs) ≡ is_empty vs
from_keys-is_empty [] = refl
from_keys-is_empty (v ∷ vs) = refl

has_channel : (v : PreferenceValues) → fields_pass v ≡ true → is_empty v.channels ≡ false
unfolding fields_pass
has_channel v h = ground (arith, h)

accept-Held : (v : PreferenceValues) → Held v (accept v)
unfolding accept check_bounds is_storable
accept-Held v = elim (Bool-cases (fields_pass v)) [
  | inr bad ↦ rw (bad, Held) tt
  | inl pass ↦ elim (Bool-cases (gmp_ordered v.max_gmp_percentage v.min_gmp_percentage)) [
    | inr upside_down ↦ rw (pass, upside_down, Held) tt
    | inl ordered ↦
        rw (pass, ordered, Held)
          (record {
            allowed = checked-allowed v pass ordered;
            distinct = from_keys-Distinct v.channels;
            channels = λ c. from_keys-contains c v.channels;
            reachable = from_keys-is_empty v.channels ∙ has_channel v pass;
            exchanges = refl;
            ipo_types = refl;
            rest = refl;
          })
  ]
]

-- A request for a rule that is accepted is stored with values that the table's CHECK constraints
-- allow, with the channels that were sent, each once, and at least one; the exchanges and the
-- types of issue are those that were sent without their repetitions, and the rest is as it was sent.
pub accept-IsAccepted : (v w : PreferenceValues) → accept v ≡ some w → IsAccepted v w
accept-IsAccepted v w h = subst (Held v) h (accept-Held v)
