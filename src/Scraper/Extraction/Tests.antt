-- ===== src/Scraper/Extraction/Tests.antt =====
-- Extracting three rows from a JSON document, and a document whose list of rows has a gap.
use help_me_bid_backend.Base.{
  ◌≡◌, refl, false, Option, none, some, List, [], ◌∷◌, String, map, find, str_eq,
}
use help_me_bid_backend.Scraper.Stages.{RawPayload, json_api, ExtractionResult, Result, ok, err}
use help_me_bid_backend.Scraper.Confidence.{score_mapping}
use help_me_bid_backend.Scraper.Columns.{
  Row, cell, ColumnMatch, whole, by_label, score_label, score_values, candidates_of, candidates,
  insert, sort, assign, map_columns, missing_required, required_found, has_identity,
  mapping_warnings,
}
use help_me_bid_backend.Scraper.Columns.Words.{
  Texts, normalize_label, tokens, split_words, words_of, is_in,
}
use help_me_bid_backend.Scraper.Extraction.{
  Parsers, extract, strategies, try_strategies, json_extract, html_extract, best_dataset,
  build_result, project,
}
use help_me_bid_backend.Scraper.Extraction.Document.{
  Json, Items, scalar, null, array, object, no_items, item, no_members, member, is_row_list, locate,
  locate_row_list, flatten_rows, ordered_columns,
}
use help_me_bid_backend.Scraper.Extraction.Chain.{Best, extract-Best}
use help_me_bid_backend.Scraper.Extraction.Rows.{
  build_result_fields, returns-json_extract, returns, all_objects, at_column,
}

abbrev plain : Texts
plain = record {
  strip_html = λ s. s;
  lower = λ s. s;
  is_null_token = λ s. str_eq s "";
  looks_like = λ shape s. false;
}

abbrev issue : String → String → String → Json
issue id name gmp = object (
    member "id" (scalar id) (
      member "name" (object (member "value" (scalar name) no_members))
        (member "gmp" (scalar gmp) no_members)))

-- `[…]` under a key that the code does not know.
abbrev feed : Items → Json
feed rows = object (member "anything" (array rows) no_members)

abbrev three : Items
three =
    item (issue "1" "Acme" "20")
      (item (issue "2" "Bolt" "30") (item (issue "3" "Cog" "0") no_items))

abbrev gap : Items
gap = item null (item (issue "4" "Dyne" "5") three)

abbrev text_of : Json → String
text_of (scalar s) = s
text_of null = ""
text_of (array js) = "[]"
text_of (object ms) = "{}"

abbrev reads : Json → Parsers
reads document = record {
  texts = plain;
  loads = λ s. some document;
  dumps = λ ms. "{}";
  str = text_of;
  lstrip = λ s. s;
  datasets = λ s. [];
}

abbrev body : RawPayload
body = record {
  url = "feed";
  content = "{}";
  content_type = "application/json";
  http_status = 200;
  fetched_at = 5;
  content_hash = "0";
}

checks : Unit {0}
unfolding normalize_label tokens split_words words_of is_in score_label score_values candidates_of
    candidates insert sort assign map_columns missing_required required_found has_identity
    mapping_warnings extract try_strategies json_extract html_extract best_dataset build_result
    project is_row_list locate locate_row_list flatten_rows ordered_columns score_mapping
checks = tt

abbrev result_of : Result ExtractionResult → Option ExtractionResult
result_of (ok r) = some r
result_of (err x) = none

abbrev names : Option ExtractionResult → List (Option String)
names none = []
names (some r) = map (λ x. cell "name" x.fields) r.records

names_are_read :
    names (result_of (extract (reads (feed three)) body))
    ≡ some "Acme" ∷ some "Bolt" ∷ some "Cog" ∷ []
unfolding checks
names_are_read = refl

-- Four of five elements are objects, so the list counts as rows; the fifth makes the call raise.
gap_raises : result_of (extract (reads (feed gap)) body) ≡ none
unfolding checks
gap_raises = refl

abbrev three_rows : List Row
three_rows = (("id", "1") ∷ ("name", "Acme") ∷ []) ∷ (("id", "2") ∷ ("name", "Bolt") ∷ []) ∷ []

abbrev id_match : ColumnMatch
id_match = record {
  field_name = "source_ipo_id";
  column = "id";
  score = whole 100;
  method = by_label;
}

id_is_mapped :
    find (at_column "id") (map_columns plain ("id" ∷ "name" ∷ []) three_rows).matches
    ≡ some id_match
unfolding checks
id_is_mapped = refl

build_result_fields_example :
    map
      (λ r. cell "source_ipo_id" r.fields)
      (build_result plain json_api three_rows ("id" ∷ "name" ∷ [])).records
    ≡ map (cell "id") three_rows
build_result_fields_example =
    build_result_fields plain json_api three_rows ("id" ∷ "name" ∷ []) "id" id_match id_is_mapped

returns-json_extract_example :
    returns (json_extract (reads (feed gap)) body) ≡ all_objects (locate_row_list (feed gap))
returns-json_extract_example = returns-json_extract (reads (feed gap)) body (feed gap) refl

abbrev three_result : ExtractionResult
three_result =
    build_result plain json_api
      ((("id", "1") ∷ ("name", "Acme") ∷ ("gmp", "20") ∷ [])
        ∷ (("id", "2") ∷ ("name", "Bolt") ∷ ("gmp", "30") ∷ [])
        ∷ (("id", "3") ∷ ("name", "Cog") ∷ ("gmp", "0") ∷ [])
        ∷ [])
      ("id" ∷ "name" ∷ "gmp" ∷ [])

three_is_returned : extract (reads (feed three)) body ≡ ok three_result
unfolding checks
three_is_returned = refl

extract-Best_example : Best body (strategies (reads (feed three))) three_result
extract-Best_example = extract-Best (reads (feed three)) body three_result three_is_returned
