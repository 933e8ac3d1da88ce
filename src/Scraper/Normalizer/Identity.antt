-- ===== src/Scraper/Normalizer/Identity.antt =====
-- The name, the link and the identity of an issue (app/services/scraper/normalizer.py).
use Prim.Native.String.{◌++◌ as ◌^^◌}
use text.Mathlib.Text.{starts_with}
use help_me_bid_backend.Base.{String, Option, none, some, List, [], ◌∷◌, if◌then◌else◌}
use help_me_bid_backend.Store.{truncate, strip}
use help_me_bid_backend.Scraper.Stages.{ExtractedRecord}
use help_me_bid_backend.Scraper.Columns.{cell}
use help_me_bid_backend.Scraper.Columns.Words.{words_of}
use help_me_bid_backend.Scraper.Normalizer.Cells.{Readers, or_else, and_then, non_empty, get, given}

module _ (q : Readers) where
  abbrev pub link_text : String → String
  link_text raw = elim (q.anchor_text raw) [
    | some inner ↦ q.texts.strip_html inner
    | none ↦ q.texts.strip_html raw
  ]

  abbrev pub long_name : String → Option String
  long_name String.[] = none
  long_name (String.◌∷◌ c String.[]) = none
  long_name (String.◌∷◌ c (String.◌∷◌ d s)) = some (truncate 255 (String.◌∷◌ c (String.◌∷◌ d s)))

  abbrev pub name_of : Option String → Option String
  name_of v = and_then (given q v) (λ raw. long_name (link_text raw))

  unfoldable pub extract_name : ExtractedRecord → Option String
  unfolding truncate
  extract_name r = or_else (name_of (get q "name" r)) (name_of (cell "name" r.unmapped))

  abbrev href_of : String → Option String
  href_of raw =
      or_else (and_then (q.first_link_href raw) non_empty)
        (if starts_with (strip raw) "/" then some (strip raw) else none)

  abbrev full_url : String → String → String
  full_url base_url href = if starts_with href "http" then href else base_url ^^ href

  abbrev url_of : String → Option String → Option String
  url_of base_url v =
      and_then (given q v) (λ raw. and_then (href_of raw) (λ href. some (full_url base_url href)))

  unfoldable pub extract_detail_url : String → ExtractedRecord → Option String
  extract_detail_url base_url r =
      or_else (url_of base_url (get q "detail_url" r))
        (or_else (url_of base_url (get q "name" r)) (url_of base_url (cell "name" r.unmapped)))

  -- `re.sub(r"[^a-z0-9]+", "-", name.lower()).strip("-")`
  abbrev dashed : List String → String
  dashed [] = ""
  dashed (w ∷ []) = w
  dashed (w ∷ v ∷ ws) = w ^^ ("-" ^^ dashed (v ∷ ws))

  abbrev slug_id : String → Option String
  slug_id name = elim (words_of (q.texts.lower name)) [
    | [] ↦ none
    | w ∷ ws ↦ some (truncate 64 ("name:" ^^ dashed (w ∷ ws)))
  ]

  abbrev explicit_id : Option String → Option String
  explicit_id v =
      and_then (given q v)
        (λ raw. and_then (non_empty (q.texts.strip_html raw)) (λ t. some (truncate 64 t)))

  unfoldable pub extract_source_id : ExtractedRecord → Option String → String → Option String
  unfolding words_of
  extract_source_id r detail_url name =
      or_else (explicit_id (get q "source_ipo_id" r))
        (or_else (and_then detail_url q.trailing_number) (slug_id name))
