-- ===== src/Scraper/Extraction.antt =====
-- The extractors of app/services/scraper/extractor.py: `_build_result`, the two strategies and the
-- chain of them. The JSON parser, and the reading of the HTML document into candidate datasets,
-- which is done by a library, are arguments.
mod Tests
pub mod Document
pub mod Rows
pub mod Chain
use text.Mathlib.Text.{starts_with}
use help_me_bid_backend.Base.{
  ℕ, zero, suc, ◌+◌, ◌==◌, ◌&&◌, ◌||◌, not, leb, ltb, String, Bool, true, false, Option, none, some,
  List, [], ◌∷◌, ◌++◌, any, find, map, filter, contains, length, is_some, str_eq, if◌then◌else◌,
}
use help_me_bid_backend.Store.{text_or}
use help_me_bid_backend.Scraper.Confidence.{score_mapping}
use help_me_bid_backend.Scraper.Stages.{
  RawPayload, ExtractionStrategy, json_api, html_table, no_strategy, ExtractedRecord,
  ExtractionResult, succeeded, Warning, no_strategy_fits, not_json, no_row_list, no_dataset,
  located, Exception, unexpected, Result, ok, err,
}
use help_me_bid_backend.Scraper.Columns.{
  ColumnMatch, Row, MappingResult, mapping, map_columns, required_fields, required_found,
  has_identity, mapping_warnings,
}
use help_me_bid_backend.Scraper.Columns.Words.{Texts, normalize_label, is_in}
use help_me_bid_backend.Scraper.Extraction.Document.{
  Json, Items, Members, rows_of, locate_row_list, flatten_rows, ordered_columns,
}

-- `inverted.get(column)`
abbrev pub inverted : List ColumnMatch → String → Option String
inverted ms column = elim (find (λ m. str_eq m.column column) ms) [
  | none ↦ none
  | some m ↦ some m.field_name
]

abbrev pub has_key : String → List (String × String) → Bool
has_key key [] = false
has_key key ((k, v) ∷ rest) = str_eq key k || has_key key rest

-- A later column of the same label overwrites an earlier one.
abbrev pub note_unmapped : Texts → String → String → List (String × String) → List (String × String)
note_unmapped t column value rest =
    let key = text_or (some (normalize_label t column)) column in
    if t.is_null_token value || has_key key rest then rest else (key, value) ∷ rest

abbrev pub add_cell : Texts → List ColumnMatch → String → String → ExtractedRecord → ExtractedRecord
add_cell t ms column value r = elim (inverted ms column) [
  | some field ↦ record r { fields = (field, value) ∷ r.fields }
  | none ↦ record r { unmapped = note_unmapped t column value r.unmapped }
]

-- The record of a row. The keys of a row, a Python dict, are distinct.
unfoldable pub project : Texts → List ColumnMatch → Row → ExtractedRecord
project t ms [] = record { fields = []; unmapped = [] }
project t ms ((column, value) ∷ row) = add_cell t ms column value (project t ms row)

-- `_build_result`
unfoldable pub build_result : Texts → ExtractionStrategy → List Row → List String → ExtractionResult
unfolding project map_columns
build_result t strategy rows columns =
    let m = map_columns t columns rows in
    let records = map (project t m.matches) rows in
    record {
      strategy = strategy;
      records = records;
      field_mapping = mapping m;
      unmapped_columns = m.unmapped_columns;
      warnings = mapping_warnings m;
      confidence =
          score_mapping (required_found m) (length required_fields) (has_identity m)
            (length records);
    }

abbrev pub nothing : ExtractionStrategy → Warning → ExtractionResult
nothing strategy warning = record {
  strategy = strategy;
  records = [];
  field_mapping = [];
  unmapped_columns = [];
  warnings = warning ∷ [];
  confidence = 0;
}

-- What the extractors take from outside: the texts, `json.loads`, `json.dumps` of an object, `str`
-- of a value (None is the empty text, which is read alike), `str.lstrip`, and the datasets that an
-- HTML document holds, with where they were found.
pub record Parsers : Type 0 where
  pub texts : Texts
  pub loads : String → Option Json
  pub dumps : Members → String
  pub str : Json → String
  pub lstrip : String → String
  pub datasets : String → List (List Row × List String × String)

-- `RawPayload.is_json`
abbrev pub is_json : Parsers → RawPayload → Bool
is_json q p = is_in "json" (q.texts.lower p.content_type)

-- `JsonApiStrategy.can_handle` and `extract`
abbrev pub json_can_handle : Parsers → RawPayload → Bool
json_can_handle q p =
    is_json q p || starts_with (q.lstrip p.content) "{" || starts_with (q.lstrip p.content) "["

abbrev pub json_result : Parsers → Option (List Row) → Result ExtractionResult
json_result q none = err (unexpected "object has no attribute 'items'")
json_result q (some rows) = ok (build_result q.texts json_api rows (ordered_columns [] rows))

abbrev pub json_rows : Parsers → List Json → Result ExtractionResult
json_rows q [] = ok (nothing json_api no_row_list)
json_rows q (row ∷ rows) = json_result q (flatten_rows q.str q.dumps (row ∷ rows))

unfoldable pub json_extract : Parsers → RawPayload → Result ExtractionResult
unfolding locate_row_list flatten_rows ordered_columns build_result
json_extract q p = elim (q.loads p.content) [
  | none ↦ ok (nothing json_api not_json)
  | some document ↦ json_rows q (locate_row_list document)
]

-- `HtmlTableStrategy.can_handle` and `extract`
abbrev pub html_can_handle : Parsers → RawPayload → Bool
html_can_handle q p = is_in "<" p.content && not (is_json q p)

abbrev pub better_of : Option ExtractionResult → ExtractionResult → Option ExtractionResult
better_of none r = some r
better_of (some best) r = if ltb best.confidence r.confidence then some r else some best

unfoldable pub best_dataset :
    Parsers
    → Option ExtractionResult
    → List (List Row × List String × String)
    → Option ExtractionResult
unfolding build_result
best_dataset q best [] = best
best_dataset q best (([], columns, origin) ∷ ds) = best_dataset q best ds
best_dataset q best ((row ∷ rows, columns, origin) ∷ ds) =
    let r = build_result q.texts html_table (row ∷ rows) columns in
    best_dataset q (better_of best (record r { warnings = located origin ∷ r.warnings })) ds

unfoldable pub html_extract : Parsers → RawPayload → Result ExtractionResult
unfolding best_dataset
html_extract q p = elim (best_dataset q none (q.datasets p.content)) [
  | none ↦ ok (nothing html_table no_dataset)
  | some best ↦ ok best
]

pub record Strategy : Type 0 where
  pub can_handle : RawPayload → Bool
  pub extract : RawPayload → Result ExtractionResult

abbrev pub strategies : Parsers → List Strategy
strategies q =
    record { can_handle = json_can_handle q; extract = json_extract q }
    ∷ record { can_handle = html_can_handle q; extract = html_extract q }
    ∷ []

-- `MIN_STRATEGY_CONFIDENCE` is 0.35.
abbrev pub clears_bar : ExtractionResult → Bool
clears_bar r = succeeded r && leb 350 r.confidence

-- The order of `(confidence, len(records))`.
abbrev pub is_less : ExtractionResult → ExtractionResult → Bool
is_less a b =
    ltb a.confidence b.confidence
    || (a.confidence == b.confidence && ltb (length a.records) (length b.records))

abbrev pub closest : Option ExtractionResult → ExtractionResult → ExtractionResult
closest none r = r
closest (some best) r = if is_less best r then r else best

abbrev pub or_nothing : Option ExtractionResult → ExtractionResult
or_nothing none = nothing no_strategy no_strategy_fits
or_nothing (some best) = best

-- The loop of `ExtractorChain.extract`; `best` is the maximum of the attempts so far, of which the
-- code keeps a list.
unfoldable pub try_strategies :
    RawPayload → Option ExtractionResult → List Strategy → Result ExtractionResult
try_strategies p best [] = ok (or_nothing best)
try_strategies p best (s ∷ ss) =
    if s.can_handle p
    then elim (s.extract p) [
      | err x ↦ err x
      | ok r ↦ if clears_bar r then ok r else try_strategies p (some (closest best r)) ss
    ]
    else try_strategies p best ss

-- `ExtractorChain.extract`
unfoldable pub extract : Parsers → RawPayload → Result ExtractionResult
unfolding try_strategies json_extract html_extract
extract q p = try_strategies p none (strategies q)
