-- ===== src/Scraper/Columns/Fields.antt =====
-- `CANONICAL_FIELDS` of app/services/scraper/field_map.py: the fields, and what they look like.
use help_me_bid_backend.Base.{String, Bool, true, false, Option, none, some, List, [], ◌∷◌}

-- The value predicates `_looks_like_…`.
pub data Shape : Type 0 where
  date number multiplier percent currency name : Shape

pub record CanonicalField : Type 0 where
  pub name : String
  pub aliases : List String
  pub shape : Option Shape
  pub required : Bool
  pub identity : Bool

abbrev describe : String → List String → Option Shape → Bool → Bool → CanonicalField
describe field aliases shape required identity = record {
  name = field;
  aliases = aliases;
  shape = shape;
  required = required;
  identity = identity;
}

abbrev pub canonical_fields : List CanonicalField
canonical_fields =
    describe "source_ipo_id" ("id" ∷ "ipo id" ∷ "issue id" ∷ "company id" ∷ []) none true true
    ∷ describe "name"
        ("ipo name" ∷ "name" ∷ "company" ∷ "company name" ∷ "issue" ∷ "issuer" ∷ "ipo" ∷ [])
        (some name) true true
    ∷ describe "ipo_type"
        ("ipo category" ∷ "category" ∷ "type" ∷ "ipo type" ∷ "board" ∷ "segment" ∷ []) none false
        false
    ∷ describe "source_status" ("ipo status" ∷ "status" ∷ "state" ∷ []) none false false
    ∷ describe "gmp"
        ("gmp" ∷ "grey market premium" ∷ "gray market premium" ∷ "premium" ∷ "max gmp" ∷ [])
        (some currency) true false
    ∷ describe "gmp_percentage"
        ("gmp percent calc" ∷ "gmp percent" ∷ "gmp percentage" ∷ "gmp %" ∷ "estimated listing gain"
          ∷ "listing gain" ∷ "est listing gain" ∷ "gain" ∷ [])
        (some percent) false false
    ∷ describe "price" ("price" ∷ "issue price" ∷ "price band" ∷ "cap price" ∷ "offer price" ∷ [])
        (some number) true false
    ∷ describe "lot_size" ("lot" ∷ "lot size" ∷ "market lot" ∷ "min qty" ∷ "minimum quantity" ∷ [])
        (some number) false false
    ∷ describe "issue_size"
        ("ipo size" ∷ "issue size" ∷ "size" ∷ "offer size" ∷ "total issue size" ∷ [])
        (some currency) false false
    ∷ describe "subscription"
        ("sub" ∷ "subscription" ∷ "subscribed" ∷ "times subscribed" ∷ "sub times" ∷ [])
        (some multiplier) false false
    ∷ describe "open_date"
        ("srt open" ∷ "open" ∷ "open date" ∷ "opening date" ∷ "start date" ∷ "issue open" ∷ [])
        (some date) true false
    ∷ describe "close_date"
        ("srt close" ∷ "close" ∷ "close date" ∷ "closing date" ∷ "last date" ∷ "issue close"
          ∷ "end date" ∷ [])
        (some date) true false
    ∷ describe "allotment_date"
        ("srt boa dt" ∷ "boa dt" ∷ "boa" ∷ "allotment" ∷ "allotment date" ∷ "basis of allotment"
          ∷ "allotment dt" ∷ [])
        (some date) false false
    ∷ describe "listing_date"
        ("str listing" ∷ "srt listing" ∷ "listing" ∷ "listing date" ∷ "list date" ∷ []) (some date)
        false false
    ∷ describe "rating" ("rating" ∷ "review" ∷ "score" ∷ "stars" ∷ []) none false false
    ∷ describe "pe_ratio" ("p e" ∷ "pe" ∷ "pe ratio" ∷ "p e ratio" ∷ "price earnings" ∷ []) none
        false false
    ∷ describe "anchor" ("anchor" ∷ "anchor investor" ∷ "anchor investors" ∷ []) none false false
    ∷ describe "updated_on" ("updated on" ∷ "updated" ∷ "last updated" ∷ "update time" ∷ []) none
        false false
    ∷ describe "detail_url" ("urlrewrite folder name" ∷ "url" ∷ "link" ∷ "detail url" ∷ "slug" ∷ [])
        none false false
    ∷ []
