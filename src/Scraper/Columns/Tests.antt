-- ===== src/Scraper/Columns/Tests.antt =====
-- Mapping four columns, one of them unknown and two that mean the name.
use help_me_bid_backend.Base.{◌≡◌, refl, false, List, [], ◌∷◌, String, str_eq}
use help_me_bid_backend.Scraper.Columns.Words.{
  Texts, normalize_label, tokens, split_words, words_of, is_in,
}
use help_me_bid_backend.Scraper.Columns.{
  score_label, score_values, candidates_of, candidates, insert, sort, assign, map_columns, mapping,
}
use help_me_bid_backend.Scraper.Columns.Stable.{IsStable, map_columns-IsStable}

abbrev plain : Texts
plain = record {
  strip_html = λ s. s;
  lower = λ s. s;
  is_null_token = λ s. str_eq s "";
  looks_like = λ shape s. false;
}

abbrev columns : List String
columns = "issuer name" ∷ "colour" ∷ "~issuer" ∷ "gmp" ∷ []

checks : Unit {0}
unfolding normalize_label tokens split_words words_of is_in score_label score_values candidates_of
    candidates insert sort assign map_columns
checks = tt

-- The machine column takes the name; the other column of that meaning is left over.
best_columns : mapping (map_columns plain columns []) ≡ ("gmp", "gmp") ∷ ("name", "~issuer") ∷ []
unfolding checks
best_columns = refl

unknown_columns : (map_columns plain columns []).unmapped_columns ≡ "issuer name" ∷ "colour" ∷ []
unfolding checks
unknown_columns = refl

map_columns-IsStable_example :
    IsStable (candidates plain [] columns) (map_columns plain columns []).matches
map_columns-IsStable_example = map_columns-IsStable plain columns []
