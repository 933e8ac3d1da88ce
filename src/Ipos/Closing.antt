-- ===== src/Ipos/Closing.antt =====
-- `list_closing_on` of app/repositories/ipo.py, without its optional threshold, which no caller
-- passes. Rows with equal premiums stay in table order (the query leaves that order open).
use help_me_bid_backend.Base.{
  ℕ, ◌==◌, Bool, true, false, Option, none, some, List, [], ◌∷◌, filter, if◌then◌else◌, ◌≡◌, All,
  Bool-cases, inl, inr,
}
use help_me_bid_backend.Base.Int.{ℤ, ltb_ℤ}
use help_me_bid_backend.Models.{Ipo, close_date, gmp_percentage}
use help_me_bid_backend.Store.{Store}

abbrev pub closes_on : ℕ → Ipo → Bool
closes_on date ipo = elim (ipo.columns close_date) [ none ↦ false | some d ↦ d == date ]

-- `desc().nullslast()`: the first comes strictly before the second.
abbrev before : Option ℤ → Option ℤ → Bool
before none b = false
before (some a) none = true
before (some a) (some b) = ltb_ℤ b a

insert_desc : Ipo → List Ipo → List Ipo
insert_desc i [] = i ∷ []
insert_desc i (j ∷ js) =
    if before (j.columns gmp_percentage) (i.columns gmp_percentage)
    then j ∷ insert_desc i js
    else i ∷ j ∷ js

sort_desc : List Ipo → List Ipo
unfolding insert_desc
sort_desc [] = []
sort_desc (i ∷ is) = insert_desc i (sort_desc is)

unfoldable pub list_closing_on : ℕ → Store → List Ipo
unfolding sort_desc
list_closing_on date s = sort_desc (filter (closes_on date) s.ipos)

insert_desc-All :
    (date : ℕ) (i : Ipo) (js : List Ipo)
    → closes_on date i ≡ true
    → All (λ j. closes_on date j ≡ true) js
    → All (λ j. closes_on date j ≡ true) (insert_desc i js)
unfolding insert_desc
insert_desc-All date i [] h hs = (h, tt)
insert_desc-All date i (j ∷ js) h hs =
    elim (Bool-cases (before (j.columns gmp_percentage) (i.columns gmp_percentage))) [
      | inl later ↦ rw later (hs.0, insert_desc-All date i js h hs.1)
      | inr first ↦ rw first (h, hs)
    ]

sort_closing :
    (date : ℕ) (is : List Ipo)
    → All (λ j. closes_on date j ≡ true) (sort_desc (filter (closes_on date) is))
unfolding sort_desc
sort_closing date [] = tt
sort_closing date (i ∷ is) = elim (Bool-cases (closes_on date i)) [
  | inl closing ↦ rw closing (
      insert_desc-All date i (sort_desc (filter (closes_on date) is)) closing
        (sort_closing date is))
  | inr other ↦ rw other (sort_closing date is)
]

-- Every row of the answer closes on the date.
pub list_closing_on-All :
    (date : ℕ) (s : Store) → All (λ j. closes_on date j ≡ true) (list_closing_on date s)
unfolding list_closing_on
list_closing_on-All date s = sort_closing date s.ipos
