-- ===== src/Scraper/Extraction/Document.antt =====
-- The rows in a JSON document: the helpers of `JsonApiStrategy` of
-- app/services/scraper/extractor.py. The keys of an object are distinct.
use help_me_bid_backend.Base.{
  ℕ, zero, suc, ◌*◌, ◌&&◌, leb, ltb, String, Bool, false, Option, none, some, List, [], ◌∷◌, ◌++◌,
  contains, filter, length, str_eq, if◌then◌else◌,
}
use help_me_bid_backend.Scraper.Confidence.{min}
use help_me_bid_backend.Scraper.Columns.{Row}

mutual
  pub data Json : Type 0 where
    scalar : String → Json
    null : Json
    array : Items → Json
    object : Members → Json

  pub data Items : Type 0 where
    no_items : Items
    item : Json → Items → Items

  pub data Members : Type 0 where
    no_members : Members
    member : String → Json → Members → Members

abbrev pub rows_of : Items → List Json
rows_of no_items = []
rows_of (item j js) = j ∷ rows_of js

abbrev pub keys_of : Members → List String
keys_of no_members = []
keys_of (member k v ms) = k ∷ keys_of ms

-- The keys of the items that are objects.
abbrev pub objects : Items → List (List String)
objects no_items = []
objects (item (object ms) js) = keys_of ms ∷ objects js
objects (item (scalar s) js) = objects js
objects (item null js) = objects js
objects (item (array is) js) = objects js

abbrev shares : List String → List String → Bool
shares first keys = leb (6 * length first) (10 * length (filter (λ k. contains k keys) first))

abbrev sharing : ℕ → List String → List (List String) → ℕ
sharing zero first os = 0
sharing (suc n) first [] = 0
sharing (suc n) first (keys ∷ os) =
    if shares first keys then suc (sharing n first os) else sharing n first os

abbrev row_like : ℕ → List (List String) → Bool
row_like size [] = false
row_like size (first ∷ os) =
    leb (8 * size) (10 * length (first ∷ os))
    && leb 3 (length first)
    && leb (8 * min (length (first ∷ os)) 10) (10 * sharing 10 first (first ∷ os))

-- `_is_row_list`
unfoldable pub is_row_list : Items → Bool
is_row_list js = row_like (length (rows_of js)) (objects js)

abbrev pub longer : List Json → List Json → List Json
longer best candidate = if ltb (length best) (length candidate) then candidate else best

-- `_locate_row_list`; `left` is what is left of the depth, of which there are seven levels.
unfoldable mutual
  unfolding is_row_list

  pub locate : ℕ → Json → List Json
  locate zero j = []
  locate (suc left) (scalar s) = []
  locate (suc left) null = []
  locate (suc left) (array js) =
      let deeper = locate_items left js [] in if is_row_list js then rows_of js else deeper
  locate (suc left) (object ms) = locate_members left ms []

  pub locate_items : ℕ → Items → List Json → List Json
  locate_items left no_items best = best
  locate_items left (item j js) best = locate_items left js (longer best (locate left j))

  pub locate_members : ℕ → Members → List Json → List Json
  locate_members left no_members best = best
  locate_members left (member k v ms) best = locate_members left ms (longer best (locate left v))

unfoldable pub locate_row_list : Json → List Json
unfolding locate
locate_row_list j = locate 7 j

abbrev pub get : String → Members → Option Json
get key no_members = none
get key (member k v ms) = if str_eq key k then some v else get key ms

abbrev pub first_of : List String → Members → Option Json
first_of [] ms = none
first_of (key ∷ keys) ms = elim (get key ms) [ none ↦ first_of keys ms | some v ↦ some v ]

abbrev pub cons_row : Option Row → Option (List Row) → Option (List Row)
cons_row none rows = none
cons_row (some row) none = none
cons_row (some row) (some rows) = some (row ∷ rows)

module _ (str : Json → String) (dumps : Members → String) where
  abbrev pub flat_cell : Json → String
  flat_cell (object ms) = elim (first_of ("value" ∷ "val" ∷ "text" ∷ "display" ∷ "html" ∷ []) ms) [
    | some v ↦ str v
    | none ↦ dumps ms
  ]
  flat_cell (scalar s) = str (scalar s)
  flat_cell null = str null
  flat_cell (array js) = str (array js)

  abbrev pub flatten_members : Members → Row
  flatten_members no_members = []
  flatten_members (member k v ms) = (k, flat_cell v) ∷ flatten_members ms

  -- `_flatten_row`: only an object has `items`; for anything else the call raises.
  abbrev pub flatten_row : Json → Option Row
  flatten_row (object ms) = some (flatten_members ms)
  flatten_row (scalar s) = none
  flatten_row null = none
  flatten_row (array js) = none

  unfoldable pub flatten_rows : List Json → Option (List Row)
  flatten_rows [] = some []
  flatten_rows (j ∷ js) = cons_row (flatten_row j) (flatten_rows js)

abbrev pub new_keys : List String → Row → List String
new_keys seen [] = seen
new_keys seen ((k, v) ∷ row) = new_keys (if contains k seen then seen else seen ++ k ∷ []) row

-- `_ordered_columns`
unfoldable pub ordered_columns : List String → List Row → List String
ordered_columns seen [] = seen
ordered_columns seen (row ∷ rows) = ordered_columns (new_keys seen row) rows
