-- ===== src/Scraper/Validator/Batch.antt =====
-- What the validator (app/services/scraper/validator.py) guarantees of a batch.
use help_me_bid_backend.Base.{
  ℕ, suc, ◌+◌, ◌≡◌, refl, ◌∙◌, ltb, String, Bool, true, false, ◌||◌, Option, none, some, List, [],
  ◌∷◌, ◌++◌, any, arith, str_eq, inl, inr, Bool-cases, if◌then◌else◌, contains, length,
  length-append, map, sym, ap,
}
use help_me_bid_backend.Base.Int.{ℤ}
use mathlib.Core.List.{append-nil, append_assoc}
use help_me_bid_backend.Scraper.Records.{
  NormalizedIpo, ValidationIssue, ValidationReport, stripped_length, total,
}
use help_me_bid_backend.Scraper.Validator.{
  cleaned, fatal_issues, other_issues, validate_record, note_record, validate_from, validate,
  precedes, date_issues, range_issues, issue_if,
}

abbrev is_fatal : ValidationIssue → Bool
is_fatal i = i.fatal

any-append :
    (xs ys : List ValidationIssue) → any is_fatal (xs ++ ys) ≡ (any is_fatal xs || any is_fatal ys)
any-append [] ys = refl
any-append (x ∷ xs) ys = ground (arith, any-append xs ys)

-- The fatal defects of a record.
abbrev pub is_unsound : NormalizedIpo → Bool
is_unsound r =
    str_eq r.source_ipo_id ""
    || (ltb (stripped_length r.name) 2 || precedes r.close_date r.open_date)

fatal_issues_lem :
    (index : ℕ) (r : NormalizedIpo) → any is_fatal (fatal_issues index r) ≡ is_unsound r
unfolding fatal_issues
fatal_issues_lem index r = ground arith

date_issues_lem :
    (index reference : ℕ) (field : String) (d : Option ℕ)
    → any is_fatal (date_issues index reference field d) ≡ false
date_issues_lem index reference field none = refl
date_issues_lem index reference field (some d) = ground arith

range_issues_lem :
    (index : ℕ) (field : String) (low high : ℤ) (v : Option ℤ)
    → any is_fatal (range_issues index field low high v) ≡ false
range_issues_lem index field low high none = refl
range_issues_lem index field low high (some v) = ground arith

issue_if_lem :
    (b : Bool) (i : ValidationIssue) → i.fatal ≡ false → any is_fatal (issue_if b i) ≡ false
issue_if_lem true i e = rw e
issue_if_lem false i e = refl

join_false :
    (xs ys : List ValidationIssue)
    → any is_fatal xs ≡ false
    → any is_fatal ys ≡ false
    → any is_fatal (xs ++ ys) ≡ false
join_false xs ys e f = any-append xs ys ∙ (rw e f)

other_issues_lem :
    (index reference : ℕ) (r : NormalizedIpo)
    → any is_fatal (other_issues index reference r) ≡ false
unfolding other_issues
other_issues_lem index reference r =
    simp (any-append, date_issues_lem, range_issues_lem) (ground arith)

-- A record has a fatal issue exactly when it lacks an identity or a name, or closes before it
-- opens.
validate_record_lem :
    (index reference : ℕ) (r : NormalizedIpo)
    → any is_fatal (validate_record index reference r).0 ≡ is_unsound r
unfolding validate_record
validate_record_lem index reference r = ground (
  arith,
  any-append (fatal_issues index r) (other_issues index reference r),
  fatal_issues_lem index r,
  other_issues_lem index reference r,
)

abbrev pub is_refused : List String → NormalizedIpo → Bool
is_refused seen r = is_unsound r || contains r.source_ipo_id seen

-- One turn keeps the record, as the checks leave it, or drops it.
note_kept :
    (reference index : ℕ) (seen : List String) (r : NormalizedIpo) (report : ValidationReport)
    → is_refused seen r ≡ false
    → ((note_record reference index seen r report).valid ≡ report.valid ++ cleaned reference r ∷ [])
      × ((note_record reference index seen r report).rejected ≡ report.rejected)
unfolding note_record validate_record
note_kept reference index seen r report e =
    rw (validate_record_lem index reference r, e) (refl, refl)

note_dropped :
    (reference index : ℕ) (seen : List String) (r : NormalizedIpo) (report : ValidationReport)
    → is_refused seen r ≡ true
    → ((note_record reference index seen r report).valid ≡ report.valid)
      × ((note_record reference index seen r report).rejected
          ≡ report.rejected ++ cleaned reference r ∷ [])
unfolding note_record validate_record
note_dropped reference index seen r report e =
    rw (validate_record_lem index reference r, e) (refl, refl)

-- The records that `validate` should keep: sound, under an identity not seen before.
abbrev pub sound_firsts : List String → List NormalizedIpo → List NormalizedIpo
sound_firsts seen [] = []
sound_firsts seen (r ∷ rs) =
    if is_refused seen r
    then sound_firsts (r.source_ipo_id ∷ seen) rs
    else r ∷ sound_firsts (r.source_ipo_id ∷ seen) rs

validate_from_valid :
    (reference index : ℕ) (seen : List String) (rs : List NormalizedIpo) (report : ValidationReport)
    → (validate_from reference index seen rs report).valid
      ≡ report.valid ++ map (cleaned reference) (sound_firsts seen rs)
unfolding validate_from
validate_from_valid reference index seen [] report = sym (append-nil report.valid)
validate_from_valid reference index seen (r ∷ rs) report =
    let next = note_record reference index seen r report in
    let ih = validate_from_valid reference (suc index) (r.source_ipo_id ∷ seen) rs next in
    elim (Bool-cases (is_refused seen r)) [
      | inl e ↦ rw (ih, (note_dropped reference index seen r report e).0, e) refl
      | inr e ↦
          rw (ih, (note_kept reference index seen r report e).0, e)
            (append_assoc report.valid (cleaned reference r ∷ [])
              (map (cleaned reference) (sound_firsts (r.source_ipo_id ∷ seen) rs)))
    ]

total-validate_from :
    (reference index : ℕ) (seen : List String) (rs : List NormalizedIpo) (report : ValidationReport)
    → total (validate_from reference index seen rs report) ≡ total report + length rs
unfolding validate_from
total-validate_from reference index seen [] report = omega arith
total-validate_from reference index seen (r ∷ rs) report =
    let next = note_record reference index seen r report in
    let ih = total-validate_from reference (suc index) (r.source_ipo_id ∷ seen) rs next in
    elim (Bool-cases (is_refused seen r)) [
      | inl e ↦
          let (v, w) = note_dropped reference index seen r report e in
          omega (
            arith,
            ih,
            ap length v,
            ap length w,
            length-append report.rejected (cleaned reference r ∷ []),
          )
      | inr e ↦
          let (v, w) = note_kept reference index seen r report e in
          omega (
            arith,
            ih,
            ap length v,
            ap length w,
            length-append report.valid (cleaned reference r ∷ []),
          )
    ]

-- `validate` keeps exactly the sound records whose identity no earlier record has, in their order
-- and as the checks leave them, and it loses none: the kept and the dropped are as many as came.
pub validate_lem :
    (reference : ℕ) (rs : List NormalizedIpo)
    → ((validate reference rs).valid ≡ map (cleaned reference) (sound_firsts [] rs))
      × (total (validate reference rs) ≡ length rs)
unfolding validate
validate_lem reference rs =
    let empty : ValidationReport = record { valid = []; rejected = []; issues = [] } in
    (
      validate_from_valid reference 0 [] rs empty,
      omega (arith, total-validate_from reference 0 [] rs empty),
    )
