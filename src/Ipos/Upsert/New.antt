-- ===== src/Ipos/Upsert/New.antt =====
-- A validated batch of issues that the table does not have yet (app/repositories/ipo.py).
use help_me_bid_backend.Base.{
  ℕ, zero, suc, ◌≤◌, length, ◌≡◌, refl, sym, Bool, true, false, Option, none, some, List, [], ◌∷◌,
  ◌++◌, arith, any, subst, find, All, if◌then◌else◌,
}
use help_me_bid_backend.Base.Int.{ℤ, pos, negsuc, leb_ℤ}
use help_me_bid_backend.Models.{Ipo, price_min, price_max, open_date, close_date, lot_size}
use help_me_bid_backend.Ipos.Columns.{
  round, to_cents, minus, stored_cell, stored_batch, row_fits, snapshots_fit,
}
use help_me_bid_backend.Scraper.Records.{NormalizedIpo}
use help_me_bid_backend.Scraper.Validator.{max_reasonable_lot_size}
use help_me_bid_backend.Scraper.Validator.Plausible.{Between, Ordered, DatesOrdered}
use help_me_bid_backend.Scraper.Validator.Sound.{IsSound, DistinctIds}
use help_me_bid_backend.Ipos.Upsert.{
  Upsert, Batch, is_row, new_row, insert_record, upsert_record, upsert_records,
}
use help_me_bid_backend.Ipos.Flush.{
  band_ordered, dates_ordered, positive, is_allowed, all_allowed, start, upsert_many, unique_rows,
  is_storable,
}
use help_me_bid_backend.Ipos.Upsert.Identity.{upsert_many_lem}

minus_low : (a b : ℕ) → leb_ℤ (minus a) (pos b) ≡ true
minus_low zero b = ground arith
minus_low (suc a) b = ground arith

minus_mono : (a b : ℕ) → a ≤ b → leb_ℤ (minus b) (minus a) ≡ true
minus_mono zero zero h = refl
minus_mono zero (suc b) h = ground arith
minus_mono (suc a) zero h = absurd (omega (arith, h))
minus_mono (suc a) (suc b) h = ground (arith, h)

-- Rounding keeps an order.
round_mono : (a b : ℤ) → leb_ℤ a b ≡ true → leb_ℤ (round a) (round b) ≡ true
unfolding round
round_mono (pos a) (pos b) h = ground (arith, h)
round_mono (pos a) (negsuc b) h = ground (arith, h)
round_mono (negsuc a) (pos b) h = minus_low (to_cents (suc a)) (to_cents b)
round_mono (negsuc a) (negsuc b) h =
    minus_mono (to_cents (suc b)) (to_cents (suc a)) (ground (arith, h))

band_ordered_lem :
    (a b : Option ℤ)
    → Ordered a b
    → band_ordered (stored_cell price_min a) (stored_cell price_max b) ≡ true
band_ordered_lem none none h = refl
band_ordered_lem none (some b) h = refl
band_ordered_lem (some a) none h = refl
band_ordered_lem (some a) (some b) h = round_mono a b (ground (arith, h))

dates_ordered_lem : (a b : Option ℕ) → DatesOrdered a b → dates_ordered a b ≡ true
dates_ordered_lem none none h = refl
dates_ordered_lem none (some b) h = refl
dates_ordered_lem (some a) none h = refl
dates_ordered_lem (some a) (some b) h = ground (arith, h)

positive_lem : (n : Option ℤ) → Between (pos 1) max_reasonable_lot_size n → positive n ≡ true
positive_lem none h = refl
positive_lem (some n) h = ground (arith, h)

dates_kept :
    (a b : Option ℕ)
    → DatesOrdered a b
    → dates_ordered (stored_cell open_date a) (stored_cell close_date b) ≡ true
dates_kept none none h = refl
dates_kept none (some b) h = refl
dates_kept (some a) none h = refl
dates_kept (some a) (some b) h = dates_ordered_lem (some a) (some b) h

lot_kept :
    (n : Option ℤ)
    → Between (pos 1) max_reasonable_lot_size n
    → positive (stored_cell lot_size n) ≡ true
lot_kept none h = refl
lot_kept (some n) h = positive_lem (some n) h

-- The types of the columns take the values of each of the records.
abbrev pub Fits : Upsert → List NormalizedIpo → Type 0
Fits u rs = All (λ r. (id : ℕ) → row_fits (new_row u id r) ≡ true) rs

new_row-is_allowed :
    (u : Upsert) (id reference : ℕ) (r : NormalizedIpo)
    → IsSound reference r
    → row_fits (new_row u id r) ≡ true
    → is_allowed (new_row u id r) ≡ true
unfolding is_allowed
new_row-is_allowed u id reference r h fits =
    rw
      (
        fits,
        band_ordered_lem r.price_min r.price_max h.plausible.band,
        dates_kept r.open_date r.close_date h.dates,
      )
      (lot_kept r.lot_size h.plausible.lot_size_range)

find_of_any : (p : Ipo → Bool) (rows : List Ipo) → any p rows ≡ false → find p rows ≡ none
find_of_any p [] h = refl
find_of_any p (i ∷ rows) h = ground (arith, find_of_any p rows)

-- None of the records is in the table.
abbrev pub Unknown : Upsert → List Ipo → List NormalizedIpo → Type 0
Unknown u rows rs = All (λ r. any (is_row u.source r.source_ipo_id) rows ≡ false) rs

upsert_record_new :
    (u : Upsert) (r : NormalizedIpo) (b : Batch)
    → any (is_row u.source r.source_ipo_id) b.rows ≡ false
    → upsert_record u r b ≡ insert_record u r b
unfolding upsert_record
upsert_record_new u r b h =
    rw (find_of_any (is_row u.source r.source_ipo_id) b.rows h, upsert_record) refl

-- The rows are allowed, and there is no snapshot.
pub record IsClean (b : Batch) : Type 0 where
  pub rows : all_allowed (b.added ++ b.rows) ≡ true
  pub snapshots : b.snapshots ≡ []

pub upsert_records-IsClean :
    (u : Upsert) (reference : ℕ) (rs : List NormalizedIpo) (b : Batch)
    → All (IsSound reference) rs
    → Fits u rs
    → Unknown u b.rows rs
    → IsClean b
    → IsClean (upsert_records u rs b)
unfolding upsert_records
upsert_records-IsClean u reference [] b s f k h = h
upsert_records-IsClean u reference (r ∷ rs) b s f k h =
    subst (λ c. IsClean (upsert_records u rs c)) (sym (upsert_record_new u r b k.0))
      (upsert_records-IsClean u reference rs (insert_record u r b) s.1 f.1 k.1 (record {
        rows = rw (new_row-is_allowed u b.next_id reference r s.0 (f.0 b.next_id)) h.rows;
        snapshots = h.snapshots;
      }))

pub IsClean-is_storable : (b : Batch) → IsClean b → is_storable b ≡ true
unfolding snapshots_fit
IsClean-is_storable b h = rw (h.rows, h.snapshots) refl

-- A batch that the validator has passed, that is not empty and whose values the types of the
-- columns take, of issues that the table does not have yet, is always stored in a table that meets
-- its constraints, as the columns keep it: the flush meets neither the unique constraint nor a
-- CHECK constraint.
pub upsert_many_new :
    (u : Upsert) (reference : ℕ) (rs : List NormalizedIpo) (rows : List Ipo) (next_id : ℕ)
    → All (IsSound reference) rs × DistinctIds rs
    → Fits u rs
    → 1 ≤ length rs
    → unique_rows rows ≡ true
    → all_allowed rows ≡ true
    → Unknown u rows rs
    → upsert_many u rs rows next_id ≡ some (stored_batch (upsert_records u rs (start rows next_id)))
upsert_many_new u reference rs rows next_id (sound, distinct) fits given unique allowed unknown =
    let b = upsert_records u rs (start rows next_id) in
    subst (λ c. upsert_many u rs rows next_id ≡ (if c then some (stored_batch b) else none))
      (IsClean-is_storable b (
        upsert_records-IsClean u reference rs (start rows next_id) sound fits unknown
          (record { rows = allowed; snapshots = refl })))
      (upsert_many_lem u rs rows next_id distinct unique given)
