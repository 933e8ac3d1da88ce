-- ===== src/Ipos/Columns.antt =====
-- What the columns of `ipos` and `ipo_snapshots` keep (app/db/models/ipo.py): the database rounds a
-- decimal to the two digits of its column and refuses one that is then too large, a text that is
-- too long or has a NUL, and a whole number that is not of 32 bits.
use Prim.Native.Nat.{◌^◌}
use Prim.Native.Char.{code}
use help_me_bid_backend.Base.{
  ℕ, zero, suc, ◌+◌, ◌*◌, ◌/◌, ◌==◌, ◌&&◌, not, ltb, leb, String, Bool, true, Option, none, some,
  List, [], ◌∷◌, str_eq,
}
use help_me_bid_backend.Base.Int.{ℤ, pos, negsuc, pos_part, neg_part}
use help_me_bid_backend.Store.{truncate}
use help_me_bid_backend.Models.{
  Ipo, Field, Column, Values, tracked_fields, name, ipo_type, exchange, source_status, open_date,
  close_date, allotment_date, listing_date, price_min, price_max, lot_size, issue_size_crore, gmp,
  gmp_percentage, gmp_low, gmp_high, estimated_listing_price, subscription_times, rating, pe_ratio,
  has_anchor_investors,
}
use help_me_bid_backend.Ipos.Upsert.{
  Batch, IpoSnapshot, SnapshotField, field, of_gmp, of_gmp_percentage, of_subscription_times,
  of_price_min, of_price_max, of_lot_size, of_issue_size_crore, of_open_date, of_close_date,
  of_listing_date, of_source_status,
}

-- A number of millionths, to the nearest hundredth.
abbrev pub to_cents : ℕ → ℕ
to_cents n = (n + 5_000) / 10_000 * 10_000

abbrev pub minus : ℕ → ℤ
minus zero = pos zero
minus (suc n) = negsuc n

-- `NUMERIC(_, 2)` rounds half away from zero.
unfoldable pub round : ℤ → ℤ
round (pos n) = pos (to_cents n)
round (negsuc n) = minus (to_cents (suc n))

abbrev pub stored_value : (f : Field) → Column f → Column f
stored_value name v = v
stored_value ipo_type v = v
stored_value exchange v = v
stored_value source_status v = v
stored_value open_date v = v
stored_value close_date v = v
stored_value allotment_date v = v
stored_value listing_date v = v
stored_value price_min v = round v
stored_value price_max v = round v
stored_value lot_size v = v
stored_value issue_size_crore v = round v
stored_value gmp v = round v
stored_value gmp_percentage v = round v
stored_value gmp_low v = round v
stored_value gmp_high v = round v
stored_value estimated_listing_price v = round v
stored_value subscription_times v = round v
stored_value rating v = v
stored_value pe_ratio v = round v
stored_value has_anchor_investors v = v

abbrev pub stored_cell : (f : Field) → Option (Column f) → Option (Column f)
stored_cell f none = none
stored_cell f (some v) = some (stored_value f v)

abbrev pub stored_columns : Values → Values
stored_columns values f = stored_cell f (values f)

abbrev pub stored_row : Ipo → Ipo
stored_row ipo = record ipo { columns = stored_columns ipo.columns }

abbrev pub stored_rows : List Ipo → List Ipo
stored_rows [] = []
stored_rows (i ∷ is) = stored_row i ∷ stored_rows is

abbrev pub stored_snapshots : List IpoSnapshot → List IpoSnapshot
stored_snapshots [] = []
stored_snapshots (s ∷ ss) =
    record s { columns = λ f. stored_cell (field f) (s.columns f) } ∷ stored_snapshots ss

abbrev pub stored_batch : Batch → Batch
stored_batch b = record b {
  rows = stored_rows b.rows;
  added = stored_rows b.added;
  snapshots = stored_snapshots b.snapshots;
}

abbrev pub has_no_nul : String → Bool
has_no_nul String.[] = true
has_no_nul (String.◌∷◌ c s) = not (code c == 0) && has_no_nul s

-- `VARCHAR(n)`
abbrev pub text_fits : ℕ → String → Bool
text_fits n s = str_eq (truncate n s) s && has_no_nul s

-- `NUMERIC(digits + 2, 2)`
abbrev pub decimal_fits : ℕ → ℤ → Bool
decimal_fits digits v = ltb (pos_part (round v) + neg_part (round v)) (10 ^ digits * 1_000_000)

-- `INTEGER`
abbrev pub integer_fits : ℤ → Bool
integer_fits v = ltb (pos_part v) (2 ^ 31) && leb (neg_part v) (2 ^ 31)

abbrev pub value_fits : (f : Field) → Column f → Bool
value_fits name v = text_fits 255 v
value_fits ipo_type v = text_fits 20 v
value_fits exchange v = text_fits 20 v
value_fits source_status v = text_fits 20 v
value_fits open_date v = true
value_fits close_date v = true
value_fits allotment_date v = true
value_fits listing_date v = true
value_fits price_min v = decimal_fits 14 v
value_fits price_max v = decimal_fits 14 v
value_fits lot_size v = integer_fits v
value_fits issue_size_crore v = decimal_fits 14 v
value_fits gmp v = decimal_fits 14 v
value_fits gmp_percentage v = decimal_fits 7 v
value_fits gmp_low v = decimal_fits 14 v
value_fits gmp_high v = decimal_fits 14 v
value_fits estimated_listing_price v = decimal_fits 14 v
value_fits subscription_times v = decimal_fits 10 v
value_fits rating v = integer_fits v
value_fits pe_ratio v = decimal_fits 10 v
value_fits has_anchor_investors v = true

abbrev pub cell_fits : (f : Field) → Option (Column f) → Bool
cell_fits f none = true
cell_fits f (some v) = value_fits f v

abbrev pub columns_fit : Values → List Field → Bool
columns_fit values [] = true
columns_fit values (f ∷ fs) = cell_fits f (values f) && columns_fit values fs

abbrev pub optional_fits : (String → Bool) → Option String → Bool
optional_fits fits none = true
optional_fits fits (some s) = fits s

-- The JSONB column `raw_data`
abbrev pub raw_fits : List (String × String) → Bool
raw_fits [] = true
raw_fits ((key, value) ∷ raw) = has_no_nul key && has_no_nul value && raw_fits raw

abbrev pub texts_fit :
    (source source_ipo_id : String) (symbol slug detail_url updated : Option String)
    → List (String × String)
    → Bool
texts_fit source source_ipo_id symbol slug detail_url updated raw =
    text_fits 40 source
    && text_fits 64 source_ipo_id
    && optional_fits (text_fits 40) symbol
    && optional_fits (text_fits 255) slug
    && optional_fits has_no_nul detail_url
    && optional_fits (text_fits 64) updated
    && raw_fits raw

-- The types of the columns take the row.
unfoldable pub row_fits : Ipo → Bool
unfolding truncate round
row_fits i =
    texts_fit i.source i.source_ipo_id i.symbol i.slug i.detail_url i.source_updated_text i.raw_data
    && columns_fit i.columns tracked_fields

abbrev snapshot_fields : List SnapshotField
snapshot_fields =
    of_gmp ∷ of_gmp_percentage ∷ of_subscription_times ∷ of_price_min ∷ of_price_max ∷ of_lot_size
    ∷ of_issue_size_crore ∷ of_open_date ∷ of_close_date ∷ of_listing_date ∷ of_source_status ∷ []

abbrev pub cells_fit : IpoSnapshot → List SnapshotField → Bool
cells_fit s [] = true
cells_fit s (f ∷ fs) = cell_fits (field f) (s.columns f) && cells_fit s fs

-- What its JSON column quotes stands in a row too.
unfoldable pub snapshots_fit : List IpoSnapshot → Bool
unfolding truncate round
snapshots_fit [] = true
snapshots_fit (s ∷ ss) = cells_fit s snapshot_fields && snapshots_fit ss
