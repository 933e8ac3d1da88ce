-- ===== src/Scraper/Columns/Stable.antt =====
-- What the greedy assignment of `map_columns` (app/services/scraper/field_map.py) guarantees.
use help_me_bid_backend.Base.{
  ◌<◌, ◌≡◌, sym, subst, Bool, true, false, List, [], ◌∷◌, arith, inl, inr, Bool-cases, All,
  All-append, ltb, any, ◌&&◌, if◌then◌else◌, String, eq_iff,
}
use help_me_bid_backend.Scraper.Columns.{
  leb_score, ColumnMatch, sort, rivals, assign, candidates, map_columns, Row, score_label,
  score_values, is_positive, candidates_of, column_candidates, column_values,
}
use help_me_bid_backend.Scraper.Columns.Fields.{CanonicalField, canonical_fields}
use help_me_bid_backend.Scraper.Columns.Words.{Texts}
use help_me_bid_backend.Scraper.Columns.Order.{
  IsSorted, IsScored, All-sort, All-of_sort, sort-IsSorted,
}

-- No two matches have a field or a column in common.
abbrev pub IsInjective : List ColumnMatch → Type 0
IsInjective [] = Unit
IsInjective (m ∷ ms) = All (λ (n : ColumnMatch). rivals m n ≡ false) ms × IsInjective ms

-- A match has the field or the column of the candidate, and a score that is as good.
abbrev pub is_settled : List ColumnMatch → ColumnMatch → Bool
is_settled ms c = any (λ m. rivals c m && leb_score c.score m.score) ms

any_rival_false :
    (c : ColumnMatch) (ms : List ColumnMatch)
    → any (rivals c) ms ≡ false
    → All (λ (m : ColumnMatch). rivals c m ≡ false) ms
any_rival_false c [] h = tt
any_rival_false c (m ∷ ms) h = (ground arith, any_rival_false c ms (ground arith))

assign-IsInjective : (ms cs : List ColumnMatch) → IsInjective ms → IsInjective (assign ms cs)
unfolding assign
assign-IsInjective ms [] h = h
assign-IsInjective ms (c ∷ cs) h = elim (Bool-cases (any (rivals c) ms)) [
  | inl taken ↦ rw taken (assign-IsInjective ms cs h)
  | inr free ↦ rw free (assign-IsInjective (c ∷ ms) cs (any_rival_false c ms free, h))
]

assign-All :
    (P : ColumnMatch → Type 0) (ms cs : List ColumnMatch)
    → All P ms
    → All P cs
    → All P (assign ms cs)
unfolding assign
assign-All P ms [] h k = h
assign-All P ms (c ∷ cs) h (p, k) = elim (Bool-cases (any (rivals c) ms)) [
  | inl taken ↦ rw taken (assign-All P ms cs h k)
  | inr free ↦ rw free (assign-All P (c ∷ ms) cs (p, h) k)
]

-- A match that is made stays.
any-assign :
    (q : ColumnMatch → Bool) (ms cs : List ColumnMatch)
    → any q ms ≡ true
    → any q (assign ms cs) ≡ true
unfolding assign
any-assign q ms [] h = h
any-assign q ms (c ∷ cs) h = elim (Bool-cases (any (rivals c) ms)) [
  | inl taken ↦ rw taken (any-assign q ms cs h)
  | inr free ↦ rw free (any-assign q (c ∷ ms) cs (ground arith))
]

-- Every match is as good as the candidate.
abbrev IsBelow : List ColumnMatch → ColumnMatch → Type 0
IsBelow ms c = All (λ (m : ColumnMatch). leb_score c.score m.score ≡ true) ms

settled_by_rival :
    (c : ColumnMatch) (ms : List ColumnMatch)
    → IsBelow ms c
    → any (rivals c) ms ≡ true
    → is_settled ms c ≡ true
settled_by_rival c [] h k = k
settled_by_rival c (m ∷ ms) (p, h) k = ground (arith, settled_by_rival c ms h)

settled_by_self : (c : ColumnMatch) (ms : List ColumnMatch) → is_settled (c ∷ ms) c ≡ true
settled_by_self c ms = ground (arith, eq_iff c.field_name c.field_name)

IsBelow-cons :
    (c : ColumnMatch) (ms cs : List ColumnMatch)
    → All (λ (d : ColumnMatch). leb_score d.score c.score ≡ true) cs
    → All (IsBelow ms) cs
    → All (IsBelow (c ∷ ms)) cs
IsBelow-cons c ms [] h k = tt
IsBelow-cons c ms (d ∷ cs) (p, h) (q, k) = ((p, q), IsBelow-cons c ms cs h k)

assign_settles :
    (ms cs : List ColumnMatch)
    → IsSorted cs
    → All (IsBelow ms) cs
    → All (λ c. is_settled (assign ms cs) c ≡ true) cs
unfolding assign
assign_settles ms [] s b = tt
assign_settles ms (c ∷ cs) (h, s) (p, b) =
    let settles : ColumnMatch → Bool = λ m. rivals c m && leb_score c.score m.score in
    let at : Bool → Type 0 = λ b.
      let done = assign (if b then ms else c ∷ ms) cs in
      (is_settled done c ≡ true) × All (λ (d : ColumnMatch). is_settled done d ≡ true) cs in
    elim (Bool-cases (any (rivals c) ms)) [
      | inl taken ↦
          subst at (sym taken)
            (any-assign settles ms cs (settled_by_rival c ms p taken), assign_settles ms cs s b)
      | inr free ↦ subst at (sym free) (
        any-assign settles (c ∷ ms) cs (settled_by_self c ms),
        assign_settles (c ∷ ms) cs s (IsBelow-cons c ms cs h b),
      )
    ]

IsBelow-nil : (cs : List ColumnMatch) → All (IsBelow []) cs
IsBelow-nil [] = tt
IsBelow-nil (c ∷ cs) = (tt, IsBelow-nil cs)

score_values-IsScored :
    (t : Texts) (f : CanonicalField) (vs : List String) → 0 < (score_values t f vs).over
unfolding score_values
score_values-IsScored t f vs = ground arith

candidates_of-IsScored :
    (t : Texts) (column : String) (vs : List String) (f : CanonicalField)
    → All IsScored (candidates_of t column vs f)
unfolding candidates_of
candidates_of-IsScored t column vs f =
    let label = score_label t f column in
    elim (Bool-cases (ltb 0 label)) [
      | inl named ↦ rw named (omega arith, tt)
      | inr nameless ↦ elim (Bool-cases (is_positive (score_values t f vs))) [
        | inl shaped ↦ rw (nameless, shaped) (score_values-IsScored t f vs, tt)
        | inr other ↦ rw (nameless, other) tt
      ]
    ]

column_candidates-IsScored :
    (t : Texts) (column : String) (vs : List String) (fs : List CanonicalField)
    → All IsScored (column_candidates t column vs fs)
column_candidates-IsScored t column vs [] = tt
column_candidates-IsScored t column vs (f ∷ fs) =
    All-append IsScored (candidates_of t column vs f) (column_candidates t column vs fs)
      (candidates_of-IsScored t column vs f) (column_candidates-IsScored t column vs fs)

candidates-IsScored :
    (t : Texts) (rows : List Row) (columns : List String) → All IsScored (candidates t rows columns)
unfolding candidates
candidates-IsScored t rows [] = tt
candidates-IsScored t rows (c ∷ cs) =
    All-append IsScored (column_candidates t c (column_values 25 c rows) canonical_fields)
      (candidates t rows cs)
      (column_candidates-IsScored t c (column_values 25 c rows) canonical_fields)
      (candidates-IsScored t rows cs)

-- What the matches of a mapping are for its candidates.
pub record IsStable (cs ms : List ColumnMatch) : Type 1 where
  pub injective : IsInjective ms
  pub settled : All (λ c. is_settled ms c ≡ true) cs
  pub chosen : (P : ColumnMatch → Type 0) → All P cs → All P ms

-- Of the candidate pairs of a field and a column `map_columns` makes a stable matching: no two of
-- its matches share a field or a column, each is one of the candidates, and every candidate that
-- it leaves out has lost its field or its column to a match with at least its score.
pub map_columns-IsStable :
    (t : Texts) (columns : List String) (rows : List Row)
    → IsStable (candidates t rows columns) (map_columns t columns rows).matches
unfolding map_columns
map_columns-IsStable t columns rows =
    let cs = candidates t rows columns in
    record {
      injective = assign-IsInjective [] (sort cs) tt;
      settled =
          All-of_sort (λ c. is_settled (assign [] (sort cs)) c ≡ true) cs
            (assign_settles [] (sort cs) (sort-IsSorted cs (candidates-IsScored t rows columns))
              (IsBelow-nil (sort cs)));
      chosen = λ P h. assign-All P [] (sort cs) tt (All-sort P cs h);
    }
