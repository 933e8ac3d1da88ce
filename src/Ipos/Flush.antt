-- ===== src/Ipos/Flush.antt =====
-- The flush at the end of `upsert_many` (app/repositories/ipo.py), and the constraints of the table
-- `ipos` (app/db/models/ipo.py) that it meets; the types of its columns are in Columns.
use help_me_bid_backend.Base.{
  ℕ, ◌&&◌, not, leb, Bool, true, Option, none, some, List, [], ◌∷◌, ◌++◌, any, if◌then◌else◌,
}
use help_me_bid_backend.Base.Int.{ℤ, pos, leb_ℤ, ltb_ℤ}
use help_me_bid_backend.Models.{Ipo, open_date, close_date, price_min, price_max, lot_size}
use help_me_bid_backend.Scraper.Records.{NormalizedIpo}
use help_me_bid_backend.Ipos.Upsert.{Upsert, Batch, is_row, upsert_records}
use help_me_bid_backend.Ipos.Columns.{round, stored_columns, stored_batch, row_fits, snapshots_fit}

-- `price_min IS NULL OR price_max IS NULL OR price_min <= price_max`
abbrev pub band_ordered : Option ℤ → Option ℤ → Bool
band_ordered (some low) (some high) = leb_ℤ low high
band_ordered _ _ = true

abbrev pub dates_ordered : Option ℕ → Option ℕ → Bool
dates_ordered (some first) (some last) = leb first last
dates_ordered _ _ = true

abbrev pub positive : Option ℤ → Bool
positive none = true
positive (some n) = ltb_ℤ (pos 0) n

-- The types of the columns take the row, and what they keep meets the three CHECK constraints.
unfoldable pub is_allowed : Ipo → Bool
unfolding row_fits round
is_allowed ipo =
    let columns = stored_columns ipo.columns in
    row_fits ipo
    && band_ordered (columns price_min) (columns price_max)
    && dates_ordered (columns open_date) (columns close_date)
    && positive (columns lot_size)

abbrev pub all_allowed : List Ipo → Bool
all_allowed [] = true
all_allowed (i ∷ is) = is_allowed i && all_allowed is

abbrev pub is_taken : Ipo → List Ipo → Bool
is_taken i rows = any (is_row i.source i.source_ipo_id) rows

-- `uq_ipos_source_source_ipo_id`
abbrev pub unique_rows : List Ipo → Bool
unique_rows [] = true
unique_rows (i ∷ is) = not (is_taken i is) && unique_rows is

-- The rows and the snapshots that a batch leaves can be stored.
abbrev pub is_storable : Batch → Bool
is_storable b = all_allowed (b.added ++ b.rows) && snapshots_fit b.snapshots

-- The tables keep what the columns make of the values. `none` is the exception of the database:
-- an `IntegrityError` of a constraint, or a `DataError` of a column's type.
unfoldable pub flush : Batch → Option Batch
unfolding round
flush b = if unique_rows (b.added ++ b.rows) && is_storable b then some (stored_batch b) else none

abbrev pub start : List Ipo → ℕ → Batch
start rows next_id = record {
  rows = rows;
  added = [];
  snapshots = [];
  result = record { inserted = 0; updated = 0; unchanged = 0; snapshots = 0 };
  next_id = next_id;
}

-- `upsert_many`, on the rows of the table; the result and the new rows are in the batch.
unfoldable pub upsert_many : Upsert → List NormalizedIpo → List Ipo → ℕ → Option Batch
upsert_many u [] rows next_id = some (start rows next_id)
upsert_many u (r ∷ rs) rows next_id = flush (upsert_records u (r ∷ rs) (start rows next_id))
