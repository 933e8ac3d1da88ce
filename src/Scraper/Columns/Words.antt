-- ===== src/Scraper/Columns/Words.antt =====
-- The labels of columns: `normalize_label` of app/services/scraper/field_map.py.
use Prim.Native.Char.{code}
use text.Mathlib.Text.{starts_with}
use help_me_bid_backend.Base.{
  ℕ, leb, ◌&&◌, ◌||◌, String, Bool, List, [], ◌∷◌, str_eq, if◌then◌else◌,
}
use help_me_bid_backend.Store.{join}
use help_me_bid_backend.Scraper.Columns.Fields.{Shape}

-- `strip_html` and `is_null_token` of app/utils/parsing.py, Python's `lower`, and the predicates
-- on values, all of which are regular expressions over what the HTML and Unicode libraries return.
pub record Texts : Type 0 where
  pub strip_html : String → String
  pub lower : String → String
  pub is_null_token : String → Bool
  pub looks_like : Shape → String → Bool

abbrev is_alnum : ℕ → Bool
is_alnum c = (leb 97 c && leb c 122) || (leb 48 c && leb c 57)

abbrev word_before : String → List String → List String
word_before word words = if str_eq word "" then words else word ∷ words

-- The word at the beginning, which may be empty, and the words after it.
unfoldable pub split_words : String → String × List String
split_words String.[] = ("", [])
split_words (String.◌∷◌ c s) =
    let (word, words) = split_words s in
    if is_alnum (code c) then (String.◌∷◌ c word, words) else ("", word_before word words)

unfoldable pub words_of : String → List String
unfolding split_words
words_of s = let (word, words) = split_words s in word_before word words

-- The tokens of a label: its runs of lower-case letters and digits. What the code strips before
-- is no part of a run.
unfoldable pub tokens : Texts → String → List String
unfolding words_of
tokens t label = words_of (t.lower (t.strip_html label))

unfoldable pub normalize_label : Texts → String → String
unfolding tokens
normalize_label t label = join (tokens t label)

-- `label.startswith("~")`
abbrev pub is_machine : String → Bool
is_machine label = starts_with label "~"

-- `needle in hay`
unfoldable pub is_in : String → String → Bool
is_in needle String.[] = str_eq needle ""
is_in needle (String.◌∷◌ c hay) =
    let later = is_in needle hay in starts_with (String.◌∷◌ c hay) needle || later
