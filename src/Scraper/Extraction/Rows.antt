-- ===== src/Scraper/Extraction/Rows.antt =====
-- What `_build_result` and the JSON strategy of app/services/scraper/extractor.py make of rows.
use help_me_bid_backend.Base.{
  ◌≡◌, refl, subst, Bool, true, false, Option, none, some, List, [], ◌∷◌, arith, inl, inr,
  Bool-cases, Option-cases, All, find, map, String, str_eq, eq_iff, ◌&&◌, is_some,
}
use help_me_bid_backend.Scraper.Stages.{
  RawPayload, ExtractionStrategy, ExtractionResult, ExtractedRecord, Result, ok, err,
}
use help_me_bid_backend.Scraper.Columns.{ColumnMatch, Row, cell, rivals, map_columns}
use help_me_bid_backend.Scraper.Columns.Words.{Texts}
use help_me_bid_backend.Scraper.Columns.Stable.{IsInjective, map_columns-IsStable}
use help_me_bid_backend.Scraper.Extraction.{
  inverted, add_cell, project, build_result, Parsers, json_rows, json_extract, json_result,
}
use help_me_bid_backend.Scraper.Extraction.Document.{
  Json, scalar, null, array, object, flatten_row, flatten_rows, cons_row, locate_row_list,
}

abbrev pub at_column : String → ColumnMatch → Bool
at_column c m = str_eq m.column c

found_at_column :
    (c : String) (ms : List ColumnMatch) (m : ColumnMatch)
    → find (at_column c) ms ≡ some m
    → m.column ≡ c
found_at_column c [] m h = ground arith
found_at_column c (x ∷ ms) m h = ground (arith, found_at_column c ms m, eq_iff x.column c)

-- Whatever has no rival among the matches is not found there.
no_rival_found :
    (x : ColumnMatch) (c : String) (ms : List ColumnMatch) (m : ColumnMatch)
    → All (λ (n : ColumnMatch). rivals x n ≡ false) ms
    → find (at_column c) ms ≡ some m
    → rivals x m ≡ false
no_rival_found x c [] m h k = ground arith
no_rival_found x c (y ∷ ms) m (p, h) k = ground (arith, no_rival_found x c ms m h)

str_eq_swap : (s t : String) → str_eq s t ≡ false → str_eq t s ≡ false
str_eq_swap s t h = elim (Bool-cases (str_eq t s)) [
  | inl same ↦ ground (arith, eq_iff t s, eq_iff s t, same, h)
  | inr other ↦ other
]

-- Two columns are mapped to two fields.
fields_differ :
    (c k : String) (ms : List ColumnMatch) (m n : ColumnMatch)
    → IsInjective ms
    → str_eq c k ≡ false
    → find (at_column c) ms ≡ some m
    → find (at_column k) ms ≡ some n
    → str_eq m.field_name n.field_name ≡ false
fields_differ c k [] m n i h f g = ground arith
fields_differ c k (x ∷ ms) m n (p, i) h f g = elim (Bool-cases (str_eq x.column c)) [
  | inl first ↦ elim (Bool-cases (str_eq x.column k)) [
    | inl also ↦ ground (arith, eq_iff x.column c, eq_iff x.column k, eq_iff c k, first, also, h)
    | inr later ↦ ground (
      arith,
      first,
      later,
      f,
      g,
      no_rival_found x k ms n p,
      str_eq_swap n.field_name x.field_name,
    )
  ]
  | inr later ↦ elim (Bool-cases (str_eq x.column k)) [
    | inl first ↦ ground (arith, first, later, f, g, no_rival_found x c ms m p)
    | inr also ↦ ground (arith, later, also, f, g, fields_differ c k ms m n i h)
  ]
]

module _ (t : Texts) (ms : List ColumnMatch) (k v : String) (r : ExtractedRecord) where
  cell_added :
      (n : ColumnMatch)
      → find (at_column k) ms ≡ some n
      → (add_cell t ms k v r).fields ≡ (n.field_name, v) ∷ r.fields
  cell_added n h = rw (h, add_cell, inverted) refl

  cell_unmapped : find (at_column k) ms ≡ none → (add_cell t ms k v r).fields ≡ r.fields
  cell_unmapped h = rw (h, add_cell, inverted) refl

str_eq_self : (s : String) → str_eq s s ≡ true
str_eq_self s = (eq_iff s s).1 refl

module _ (t : Texts) (ms : List ColumnMatch) (i : IsInjective ms) (c : String) (m : ColumnMatch)
    (f : find (at_column c) ms ≡ some m) where
  project_field : (row : Row) → cell m.field_name (project t ms row).fields ≡ cell c row
  unfolding project
  project_field [] = refl
  project_field ((k, v) ∷ row) =
      let ih = project_field row in
      let r = project t ms row in
      elim (Bool-cases (str_eq c k)) [
        | inl here ↦
            let mapped = subst (λ d. find (at_column d) ms ≡ some m) ((eq_iff c k).0 here) f in
            rw (cell_added t ms k v r m mapped, here, str_eq_self m.field_name) refl
        | inr there ↦ elim (Option-cases (find (at_column k) ms)) [
          | inl unmapped ↦ rw (cell_unmapped t ms k v r unmapped, there) ih
          | inr (n, mapped) ↦
              let other = fields_differ c k ms m n i there f mapped in
              rw (cell_added t ms k v r n mapped, there, other) ih
        ]
      ]

project_column :
    (t : Texts) (ms : List ColumnMatch) (c : String) (m : ColumnMatch)
    → IsInjective ms
    → find (at_column c) ms ≡ some m
    → (rows : List Row)
    → map (λ r. cell m.field_name r.fields) (map (project t ms) rows) ≡ map (cell c) rows
project_column t ms c m i f [] = refl
project_column t ms c m i f (row ∷ rows) =
    rw (project_field t ms i c m f row, project_column t ms c m i f rows) refl

-- When a column is mapped to a field, the records that an extractor builds have in that field,
-- row by row, the cells of that column, and nothing where a row lacks the column.
pub build_result_fields :
    (t : Texts) (s : ExtractionStrategy) (rows : List Row) (columns : List String) (c : String)
    (m : ColumnMatch)
    → find (at_column c) (map_columns t columns rows).matches ≡ some m
    → map (λ r. cell m.field_name r.fields) (build_result t s rows columns).records
      ≡ map (cell c) rows
unfolding build_result
build_result_fields t s rows columns c m f =
    project_column t (map_columns t columns rows).matches c m
      (map_columns-IsStable t columns rows).injective f rows

abbrev is_object : Json → Bool
is_object (object ms) = true
is_object (scalar s) = false
is_object null = false
is_object (array js) = false

abbrev pub all_objects : List Json → Bool
all_objects [] = true
all_objects (j ∷ js) = is_object j && all_objects js

is_some-cons_row :
    (row : Option Row) (rows : Option (List Row))
    → is_some (cons_row row rows) ≡ (is_some row && is_some rows)
is_some-cons_row none rows = refl
is_some-cons_row (some row) none = refl
is_some-cons_row (some row) (some rows) = refl

module _ (q : Parsers) where
  flatten_row_object : (j : Json) → is_some (flatten_row q.str q.dumps j) ≡ is_object j
  flatten_row_object (object ms) = refl
  flatten_row_object (scalar s) = refl
  flatten_row_object null = refl
  flatten_row_object (array js) = refl

  flatten_rows_objects : (js : List Json) → is_some (flatten_rows q.str q.dumps js) ≡ all_objects js
  unfolding flatten_rows
  flatten_rows_objects [] = refl
  flatten_rows_objects (j ∷ js) =
      rw
        (
          is_some-cons_row (flatten_row q.str q.dumps j) (flatten_rows q.str q.dumps js),
          flatten_row_object j,
          flatten_rows_objects js,
        )
        refl

abbrev pub returns : Result ExtractionResult → Bool
returns (ok r) = true
returns (err x) = false

returns-json_result :
    (q : Parsers) (rows : Option (List Row)) → returns (json_result q rows) ≡ is_some rows
returns-json_result q none = refl
returns-json_result q (some rows) = refl

returns-json_rows : (q : Parsers) (js : List Json) → returns (json_rows q js) ≡ all_objects js
returns-json_rows q [] = refl
returns-json_rows q (j ∷ js) =
    rw
      (returns-json_result q (flatten_rows q.str q.dumps (j ∷ js)), flatten_rows_objects q (j ∷ js))
      refl

-- On a JSON document the strategy returns a result exactly when every element of the list that it
-- takes for the rows is an object; otherwise it raises.
pub returns-json_extract :
    (q : Parsers) (p : RawPayload) (document : Json)
    → q.loads p.content ≡ some document
    → returns (json_extract q p) ≡ all_objects (locate_row_list document)
unfolding json_extract
returns-json_extract q p document h =
    rw (h, json_extract) (returns-json_rows q (locate_row_list document))
