-- ===== src/Scraper/Columns.antt =====
-- `map_columns` of app/services/scraper/field_map.py. What regular expressions and the HTML and
-- Unicode libraries do with a text is an argument (`Texts`). A score is an exact fraction of
-- hundredths, where the code has a float.
mod Tests
pub mod Fields
pub mod Words
pub mod Order
pub mod Stable
use Prim.Native.Char.{code}
use help_me_bid_backend.Base.{
  ℕ, zero, suc, ◌+◌, ◌*◌, ◌==◌, ◌&&◌, ◌||◌, not, leb, ltb, String, Bool, true, false, Option, none,
  some, List, [], ◌∷◌, ◌++◌, any, map, filter, contains, length, str_eq, if◌then◌else◌,
}
use help_me_bid_backend.Scraper.Stages.{Warning, not_found, by_shape}
use help_me_bid_backend.Scraper.Columns.Fields.{CanonicalField, canonical_fields, Shape}
use help_me_bid_backend.Scraper.Columns.Words.{Texts, normalize_label, tokens, is_machine, is_in}

pub record Score : Type 0 where
  pub hundredths : ℕ
  pub over : ℕ

abbrev pub whole : ℕ → Score
whole n = record { hundredths = n; over = 1 }

abbrev pub leb_score : Score → Score → Bool
leb_score a b = leb (a.hundredths * b.over) (b.hundredths * a.over)

abbrev pub is_positive : Score → Bool
is_positive a = ltb 0 a.hundredths

abbrev all_in : List String → List String → Bool
all_in [] hay = true
all_in (t ∷ ts) hay = contains t hay && all_in ts hay

-- Every token of the alias is one of the header's, and the alias has one.
abbrev pub is_subset : List String → List String → Bool
is_subset [] header = false
is_subset (t ∷ ts) header = all_in (t ∷ ts) header

abbrev pub overlaps : String → String → Bool
overlaps normalized alias =
    not (str_eq alias "") && (is_in alias normalized || is_in normalized alias)

-- `score_label`, in hundredths
unfoldable pub score_label : Texts → CanonicalField → String → ℕ
unfolding normalize_label tokens is_in
score_label t f label =
    let normalized = normalize_label t label in
    let bonus = if is_machine label then 25 else 0 in
    let aliases = map (normalize_label t) f.aliases in
    if str_eq normalized ""
    then 0
    else if contains normalized aliases
    then 100 + bonus
    else if any (λ alias. is_subset (tokens t alias) (tokens t normalized)) aliases
    then 80 + bonus
    else if any (overlaps normalized) aliases
    then 60 + bonus
    else 0

abbrev ratio_score : (hits samples : ℕ) → Score
ratio_score hits samples =
    if ltb samples 2
    then whole 0
    else if leb (6 * samples) (10 * hits)
    then record { hundredths = 45 * hits; over = samples }
    else whole 0

-- `score_values`; every field of the table keeps the default threshold, 0.6.
unfoldable pub score_values : Texts → CanonicalField → List String → Score
score_values t f values = elim f.shape [
  | none ↦ whole 0
  | some shape ↦
      let samples = filter (λ v. not (t.is_null_token v)) values in
      ratio_score (length (filter (t.looks_like shape) samples)) (length samples)
]

pub data Method : Type 0 where
  by_label by_values : Method

pub record ColumnMatch : Type 0 where
  pub field_name : String
  pub column : String
  pub score : Score
  pub method : Method

abbrev match : CanonicalField → String → Score → Method → ColumnMatch
match f column score method = record {
  field_name = f.name;
  column = column;
  score = score;
  method = method;
}

-- The candidate of one field and one column, if the field's scores make it one.
unfoldable pub candidates_of : Texts → String → List String → CanonicalField → List ColumnMatch
unfolding score_label score_values
candidates_of t column values f =
    let label = score_label t f column in
    let shape = score_values t f values in
    if ltb 0 label
    then match f column (whole label) by_label ∷ []
    else if is_positive shape
    then match f column shape by_values ∷ []
    else []

abbrev pub column_candidates : Texts → String → List String → List CanonicalField → List ColumnMatch
column_candidates t column values [] = []
column_candidates t column values (f ∷ fs) =
    candidates_of t column values f ++ column_candidates t column values fs

-- `[row.get(column) for row in rows[:25]]`; a missing cell is None, which is a null token.
abbrev pub Row : Type 0
Row = List (String × String)

abbrev pub cell : String → Row → Option String
cell column [] = none
cell column ((k, v) ∷ row) = if str_eq column k then some v else cell column row

abbrev pub column_values : ℕ → String → List Row → List String
column_values zero column rows = []
column_values (suc n) column [] = []
column_values (suc n) column (row ∷ rows) = elim (cell column row) [
  | none ↦ column_values n column rows
  | some v ↦ v ∷ column_values n column rows
]

unfoldable pub candidates : Texts → List Row → List String → List ColumnMatch
unfolding candidates_of
candidates t rows [] = []
candidates t rows (c ∷ cs) =
    column_candidates t c (column_values 25 c rows) canonical_fields ++ candidates t rows cs

-- `candidates.sort(key=score, reverse=True)`: best first, and stable.
unfoldable pub insert : ColumnMatch → List ColumnMatch → List ColumnMatch
insert c [] = c ∷ []
insert c (d ∷ ds) = if leb_score d.score c.score then c ∷ d ∷ ds else d ∷ insert c ds

unfoldable pub sort : List ColumnMatch → List ColumnMatch
unfolding insert
sort [] = []
sort (c ∷ cs) = insert c (sort cs)

-- The field or the column of a candidate is one of a match's.
abbrev pub rivals : ColumnMatch → ColumnMatch → Bool
rivals c m = str_eq m.field_name c.field_name || str_eq m.column c.column

-- The greedy loop. The mapping and the used columns are written together with the matches, and
-- are read off them here; the newest match is the first.
unfoldable pub assign : List ColumnMatch → List ColumnMatch → List ColumnMatch
assign ms [] = ms
assign ms (c ∷ cs) = assign (if any (rivals c) ms then ms else c ∷ ms) cs

pub record MappingResult : Type 0 where
  pub matches : List ColumnMatch
  pub unmapped_columns : List String

abbrev pub mapping : MappingResult → List (String × String)
mapping r = map {B = String × String} (λ m. (m.field_name, m.column)) r.matches

abbrev pub is_used : List ColumnMatch → String → Bool
is_used ms column = any (λ m. str_eq m.column column) ms

unfoldable pub map_columns : Texts → List String → List Row → MappingResult
unfolding candidates sort assign
map_columns t columns rows =
    let ms = assign [] (sort (candidates t rows columns)) in
    record { matches = ms; unmapped_columns = filter (λ c. not (is_used ms c)) columns }

abbrev pub is_found : MappingResult → String → Bool
is_found r field = any (λ m. str_eq m.field_name field) r.matches

-- `missing_required`, `required_coverage` (what is found of the required fields) and
-- `has_identity`.
abbrev pub required_fields : List String
required_fields = map (λ f. f.name) (filter (λ f. f.required) canonical_fields)

unfoldable pub missing_required : MappingResult → List String
missing_required r = filter (λ f. not (is_found r f)) required_fields

unfoldable pub required_found : MappingResult → ℕ
required_found r = length (filter (is_found r) required_fields)

unfoldable pub has_identity : MappingResult → Bool
has_identity r = any (is_found r) (map (λ f. f.name) (filter (λ f. f.identity) canonical_fields))

abbrev shape_warnings : List ColumnMatch → List Warning
shape_warnings [] = []
shape_warnings (m ∷ ms) = elim m.method [
  | by_label ↦ shape_warnings ms
  | by_values ↦ shape_warnings ms ++ by_shape m.field_name m.column ∷ []
]

-- The warnings, in the order in which the code adds them.
unfoldable pub mapping_warnings : MappingResult → List Warning
unfolding missing_required
mapping_warnings r = map not_found (missing_required r) ++ shape_warnings r.matches
