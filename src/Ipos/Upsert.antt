-- ===== src/Ipos/Upsert.antt =====
-- `upsert_many` of app/repositories/ipo.py, with the constraints of app/db/models/ipo.py that its
-- flush meets. The clock is read once, so its reading is an argument; `_jsonable`, which renders
-- the values of a snapshot, is left out. A new decimal is compared as it was read, with what the
-- column kept of the old one (Columns).

pub mod Merge
pub mod Totals
pub mod Identity
pub mod New
use help_me_bid_backend.Base.{
  ℕ, zero, suc, ◌+◌, ◌==◌, ◌&&◌, ◌||◌, not, leb, String, Bool, true, false, Option, none, some,
  List, [], ◌∷◌, ◌++◌, any, find, update, is_some, str_eq, if◌then◌else◌,
}
use help_me_bid_backend.Base.Int.{ℤ, pos, eqb_ℤ, leb_ℤ, ltb_ℤ}
use help_me_bid_backend.Models.{
  Ipo, Field, Column, Values, tracked_fields, name, ipo_type, exchange, source_status, open_date,
  close_date, allotment_date, listing_date, price_min, price_max, lot_size, issue_size_crore, gmp,
  gmp_percentage, gmp_low, gmp_high, estimated_listing_price, subscription_times, rating, pe_ratio,
  has_anchor_investors,
}
use help_me_bid_backend.Scraper.Records.{NormalizedIpo, as_column_values}

abbrev same_bool : Bool → Bool → Bool
same_bool true b = b
same_bool false b = not b

abbrev pub same_value : (f : Field) → Column f → Column f → Bool
same_value name a b = str_eq a b
same_value ipo_type a b = str_eq a b
same_value exchange a b = str_eq a b
same_value source_status a b = str_eq a b
same_value open_date a b = a == b
same_value close_date a b = a == b
same_value allotment_date a b = a == b
same_value listing_date a b = a == b
same_value price_min a b = eqb_ℤ a b
same_value price_max a b = eqb_ℤ a b
same_value lot_size a b = eqb_ℤ a b
same_value issue_size_crore a b = eqb_ℤ a b
same_value gmp a b = eqb_ℤ a b
same_value gmp_percentage a b = eqb_ℤ a b
same_value gmp_low a b = eqb_ℤ a b
same_value gmp_high a b = eqb_ℤ a b
same_value estimated_listing_price a b = eqb_ℤ a b
same_value subscription_times a b = eqb_ℤ a b
same_value rating a b = eqb_ℤ a b
same_value pe_ratio a b = eqb_ℤ a b
same_value has_anchor_investors a b = same_bool a b

-- `old_value == new_value`, where the old value may be NULL.
abbrev pub unmoved : (f : Field) → Option (Column f) → Column f → Bool
unmoved f none new = false
unmoved f (some old) new = same_value f old new

-- `{field: (old, new)}`
abbrev pub Changes : Type 0
Changes = (f : Field) → Option (Option (Column f) × Column f)

abbrev pub change_of :
    (f : Field) → Option (Column f) → Option (Column f) → Option (Option (Column f) × Column f)
change_of f old none = none
change_of f old (some new) = if unmoved f old new then none else some (old, new)

-- `_diff`
unfoldable pub diff : Values → Values → Changes
diff current values f = change_of f (current f) (values f)

abbrev pub has_changes : Changes → Bool
has_changes changes = any (λ f. is_some (changes f)) tracked_fields

abbrev pub assigned :
    (f : Field) → Option (Column f) → Option (Option (Column f) × Column f) → Option (Column f)
assigned f old none = old
assigned f old (some (_, new)) = some new

-- `setattr` for each of the changes
unfoldable pub apply_changes : Changes → Values → Values
apply_changes changes current f = assigned f (current f) (changes f)

-- `{**raw, key: value}`
abbrev put : String → String → List (String × String) → List (String × String)
put key value [] = (key, value) ∷ []
put key value ((k, v) ∷ raw) = if str_eq k key then (k, value) ∷ raw else (k, v) ∷ put key value raw

-- `{**current, **new}`. Without new keys, or when nothing moves, this is the current one.
abbrev pub merge_raw : List (String × String) → List (String × String) → List (String × String)
merge_raw current [] = current
merge_raw current ((key, value) ∷ new) = merge_raw (put key value current) new

-- `SNAPSHOT_FIELDS`
pub data SnapshotField : Type 0 where
  of_gmp of_gmp_percentage of_subscription_times of_price_min of_price_max : SnapshotField
  of_lot_size of_issue_size_crore of_open_date of_close_date of_listing_date : SnapshotField
  of_source_status : SnapshotField

abbrev pub field : SnapshotField → Field
field of_gmp = gmp
field of_gmp_percentage = gmp_percentage
field of_subscription_times = subscription_times
field of_price_min = price_min
field of_price_max = price_max
field of_lot_size = lot_size
field of_issue_size_crore = issue_size_crore
field of_open_date = open_date
field of_close_date = close_date
field of_listing_date = listing_date
field of_source_status = source_status

pub record IpoSnapshot : Type 0 where
  pub ipo_id : ℕ
  pub scrape_run_id : Option ℕ
  pub columns : (f : SnapshotField) → Option (Column (field f))
  pub changed_fields : Changes

abbrev pub build_snapshot : Ipo → Changes → Option ℕ → IpoSnapshot
build_snapshot ipo changes scrape_run_id = record {
  ipo_id = ipo.id;
  scrape_run_id = scrape_run_id;
  columns = λ f. ipo.columns (field f);
  changed_fields = changes;
}

pub record PersistenceResult : Type 0 where
  pub inserted : ℕ
  pub updated : ℕ
  pub unchanged : ℕ
  pub snapshots : ℕ

-- The keyword arguments of `upsert_many`, and the clock.
pub record Upsert : Type 0 where
  pub source : String
  pub scrape_run_id : Option ℕ
  pub write_snapshots : Bool
  pub now : ℕ

-- The session during the loop: the rows that were there before it, as its assignments leave them,
-- the new rows, the snapshots (newest first) and the counters. `existing` of the code holds the
-- rows of the source, so a record finds a row that was there before, never a new one.
pub record Batch : Type 0 where
  pub rows : List Ipo
  pub added : List Ipo
  pub snapshots : List IpoSnapshot
  pub result : PersistenceResult
  pub next_id : ℕ

abbrev pub is_row : String → String → Ipo → Bool
is_row source source_ipo_id ipo = str_eq ipo.source source && str_eq ipo.source_ipo_id source_ipo_id

abbrev pub new_row : Upsert → ℕ → NormalizedIpo → Ipo
new_row u id r = record {
  id = id;
  source = u.source;
  source_ipo_id = r.source_ipo_id;
  symbol = r.symbol;
  slug = r.slug;
  detail_url = r.detail_url;
  columns = as_column_values r;
  raw_data = r.raw_data;
  source_updated_text = r.source_updated_text;
  first_seen_at = u.now;
  last_scraped_at = some u.now;
  data_changed_at = some u.now;
}

abbrev pub touched : Upsert → NormalizedIpo → Ipo → Ipo
touched u r ipo = record ipo {
  last_scraped_at = some u.now;
  raw_data = merge_raw ipo.raw_data r.raw_data;
}

abbrev pub changed : Upsert → NormalizedIpo → Ipo → Ipo
changed u r ipo = record (touched u r ipo) {
  columns = apply_changes (diff ipo.columns (as_column_values r)) ipo.columns;
  data_changed_at = some u.now;
}

abbrev pub insert_record : Upsert → NormalizedIpo → Batch → Batch
insert_record u r b = record b {
  added = new_row u b.next_id r ∷ b.added;
  result = record b.result { inserted = suc b.result.inserted };
  next_id = suc b.next_id;
}

abbrev pub keep_record : Upsert → NormalizedIpo → Batch → Batch
keep_record u r b = record b {
  rows = update (is_row u.source r.source_ipo_id) (touched u r) b.rows;
  result = record b.result { unchanged = suc b.result.unchanged };
}

abbrev pub snapshot_if : Bool → IpoSnapshot → Batch → Batch
snapshot_if false snapshot b = b
snapshot_if true snapshot b = record b {
  snapshots = snapshot ∷ b.snapshots;
  result = record b.result { snapshots = suc b.result.snapshots };
}

abbrev pub change_record : Upsert → NormalizedIpo → Ipo → Batch → Batch
change_record u r current b =
    snapshot_if u.write_snapshots
      (build_snapshot (changed u r current) (diff current.columns (as_column_values r))
        u.scrape_run_id)
      (record b {
        rows = update (is_row u.source r.source_ipo_id) (changed u r) b.rows;
        result = record b.result { updated = suc b.result.updated };
      })

-- One turn of the loop.
unfoldable pub upsert_record : Upsert → NormalizedIpo → Batch → Batch
upsert_record u r b = elim (find (is_row u.source r.source_ipo_id) b.rows) [
  | none ↦ insert_record u r b
  | some current ↦
      if has_changes (diff current.columns (as_column_values r))
      then change_record u r current b
      else keep_record u r b
]

unfoldable pub upsert_records : Upsert → List NormalizedIpo → Batch → Batch
upsert_records u [] b = b
upsert_records u (r ∷ rs) b = upsert_records u rs (upsert_record u r b)
