-- ===== src/Ipos/Pages.antt =====
-- One page of a query's rows: `IPOFilterParams.offset` of app/schemas/ipo.py, the offset and limit
-- of `list_filtered` (app/repositories/ipo.py), and `PaginationMeta.build` of app/schemas/common.py.
-- The quotient that `math.ceil` rounds up is exact for the sizes that a table has.
pub mod Cover
use help_me_bid_backend.Base.{
  ℕ, zero, suc, ◌+◌, ◌-◌, ◌*◌, ◌/◌, ◌==◌, ◌&&◌, ltb, Bool, List, [], ◌∷◌, length, if◌then◌else◌,
}

module _ {ℓ} {A : Type ℓ} where
  unfoldable pub take : ℕ → List A → List A
  take zero xs = []
  take (suc n) [] = []
  take (suc n) (x ∷ xs) = x ∷ take n xs

  unfoldable pub drop : ℕ → List A → List A
  drop zero xs = xs
  drop (suc n) [] = []
  drop (suc n) (x ∷ xs) = drop n xs

abbrev pub offset : (page page_size : ℕ) → ℕ
offset page page_size = (page - 1) * page_size

-- `.offset(filters.offset).limit(filters.page_size)`
unfoldable pub page_of {ℓ} : {A : Type ℓ} → (page page_size : ℕ) → List A → List A
page_of page page_size rows = take page_size (drop (offset page page_size) rows)

pub record PaginationMeta : Type 0 where
  pub page : ℕ
  pub page_size : ℕ
  pub total_items : ℕ
  pub total_pages : ℕ
  pub has_next : Bool
  pub has_previous : Bool

abbrev pub pages_for : (page_size total_items : ℕ) → ℕ
pages_for page_size total_items =
    if total_items == 0 then 0 else (total_items + page_size - 1) / page_size

unfoldable pub build : (page page_size total_items : ℕ) → PaginationMeta
build page page_size total_items = record {
  page = page;
  page_size = page_size;
  total_items = total_items;
  total_pages = pages_for page_size total_items;
  has_next = ltb page (pages_for page_size total_items);
  has_previous = ltb 1 page && ltb 0 total_items;
}
