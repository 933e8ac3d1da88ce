-- ===== src/Scraper/Validator/Sound.antt =====
-- What a record that the validator keeps is good for (app/services/scraper/validator.py).
use help_me_bid_backend.Base.{
  ℕ, ◌≤◌, ◌≡◌, ◌≢◌, String, true, false, Option, none, some, List, [], ◌∷◌, arith, str_eq, eq_iff,
  inl, inr, Bool-cases, All, contains, map, sym, subst,
}
use help_me_bid_backend.Scraper.Records.{NormalizedIpo, stripped_length}
use help_me_bid_backend.Scraper.Validator.{cleaned, validate, precedes, keep_date}
use help_me_bid_backend.Scraper.Validator.Plausible.{IsPlausible, DatesOrdered, cleaned-IsPlausible}
use help_me_bid_backend.Scraper.Validator.Batch.{is_refused, is_unsound, sound_firsts, validate_lem}

-- What later stages rely on of a kept record.
pub record IsSound (reference : ℕ) (r : NormalizedIpo) : Type 0 where
  pub identity : r.source_ipo_id ≢ ""
  pub named : 2 ≤ stripped_length r.name
  pub dates : DatesOrdered r.open_date r.close_date
  pub plausible : IsPlausible reference r

keep_dates-DatesOrdered :
    (reference : ℕ) (first last : Option ℕ)
    → precedes last first ≡ false
    → DatesOrdered (keep_date reference first) (keep_date reference last)
keep_dates-DatesOrdered reference none last e = tt
keep_dates-DatesOrdered reference (some a) none e = ground arith
keep_dates-DatesOrdered reference (some a) (some b) e = ground arith

IsSound-cleaned :
    (reference : ℕ) (r : NormalizedIpo)
    → is_unsound r ≡ false
    → IsSound reference (cleaned reference r)
unfolding cleaned
IsSound-cleaned reference r e = record {
  identity = ground (arith, e, eq_iff r.source_ipo_id "");
  named = ground (arith, e);
  dates = keep_dates-DatesOrdered reference r.open_date r.close_date (ground (arith, e));
  plausible = cleaned-IsPlausible reference r;
}

-- No two records of the list have one identity.
abbrev pub DistinctIds : List NormalizedIpo → Type 0
DistinctIds [] = Unit
DistinctIds (r ∷ rs) = All (λ q. str_eq r.source_ipo_id q.source_ipo_id ≡ false) rs × DistinctIds rs

sound_firsts-IsSound :
    (reference : ℕ) (seen : List String) (rs : List NormalizedIpo)
    → All (IsSound reference) (map (cleaned reference) (sound_firsts seen rs))
sound_firsts-IsSound reference seen [] = tt
sound_firsts-IsSound reference seen (r ∷ rs) =
    let ih = sound_firsts-IsSound reference (r.source_ipo_id ∷ seen) rs in
    elim (Bool-cases (is_refused seen r)) [
      | inl e ↦ rw e ih
      | inr e ↦ rw e (IsSound-cleaned reference r (ground (arith, e)), ih)
    ]

-- A seen identity does not come again.
seen_is_absent :
    (reference : ℕ) (s : String) (seen : List String) (rs : List NormalizedIpo)
    → contains s seen ≡ true
    → All (λ q. str_eq s q.source_ipo_id ≡ false) (map (cleaned reference) (sound_firsts seen rs))
unfolding cleaned
seen_is_absent reference s seen [] h = tt
seen_is_absent reference s seen (r ∷ rs) h =
    let ih = seen_is_absent reference s (r.source_ipo_id ∷ seen) rs (ground (arith, h)) in
    elim (Bool-cases (is_refused seen r)) [
      | inl e ↦ rw e ih
      | inr e ↦ rw e (
        elim (Bool-cases (str_eq s r.source_ipo_id)) [
          | inl same ↦
              let at : contains r.source_ipo_id seen ≡ true =
                subst (λ t. contains t seen ≡ true) ((eq_iff s r.source_ipo_id).0 same) h in
              ground (arith, at, e)
          | inr other ↦ other
        ],
        ih,
      )
    ]

contains_head : (s : String) (seen : List String) → contains s (s ∷ seen) ≡ true
contains_head s seen = ground (arith, eq_iff s s)

sound_firsts-DistinctIds :
    (reference : ℕ) (seen : List String) (rs : List NormalizedIpo)
    → DistinctIds (map (cleaned reference) (sound_firsts seen rs))
unfolding cleaned
sound_firsts-DistinctIds reference seen [] = tt
sound_firsts-DistinctIds reference seen (r ∷ rs) =
    let seen' = r.source_ipo_id ∷ seen in
    let ih = sound_firsts-DistinctIds reference seen' rs in
    elim (Bool-cases (is_refused seen r)) [
      | inl e ↦ rw e ih
      | inr e ↦ rw e (
        seen_is_absent reference r.source_ipo_id seen' rs (contains_head r.source_ipo_id seen),
        ih,
      )
    ]

-- Every record that `validate` keeps has an identity, a name of at least two characters, a close
-- date no earlier than its open date and plausible figures; and no two of them have one identity.
pub validate-IsSound :
    (reference : ℕ) (rs : List NormalizedIpo)
    → All (IsSound reference) (validate reference rs).valid
      × DistinctIds (validate reference rs).valid
validate-IsSound reference rs =
    let e = sym (validate_lem reference rs).0 in
    (
      subst (All (IsSound reference)) e (sound_firsts-IsSound reference [] rs),
      subst DistinctIds e (sound_firsts-DistinctIds reference [] rs),
    )
