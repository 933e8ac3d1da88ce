-- ===== src/Ipos/Upsert/Identity.antt =====
-- The unique constraint of `ipos` under `upsert_many` (app/repositories/ipo.py).
use help_me_bid_backend.Base.{
  ℕ, ◌≤◌, length, ◌≡◌, refl, ◌∙◌, ◌||◌, Bool, true, false, none, some, List, [], ◌∷◌, ◌++◌, arith,
  any, update, find, String, str_eq, All, Bool-cases, Option-cases, inl, inr, if◌then◌else◌,
}
use help_me_bid_backend.Models.{Ipo}
use help_me_bid_backend.Scraper.Records.{NormalizedIpo, as_column_values}
use help_me_bid_backend.Scraper.Validator.Sound.{DistinctIds}
use help_me_bid_backend.Ipos.Upsert.{
  Upsert, Batch, is_row, has_changes, diff, touched, changed, new_row, insert_record, change_record,
  upsert_record, upsert_records, snapshot_if, IpoSnapshot,
}
use help_me_bid_backend.Ipos.Flush.{start, flush, upsert_many, unique_rows, is_storable}
use help_me_bid_backend.Ipos.Columns.{stored_batch}

abbrev KeepsIdentity : (Ipo → Ipo) → Type 0
KeepsIdentity f = (i : Ipo) → ((f i).source ≡ i.source) × ((f i).source_ipo_id ≡ i.source_ipo_id)

any-append : (p : Ipo → Bool) (xs ys : List Ipo) → any p (xs ++ ys) ≡ (any p xs || any p ys)
any-append p [] ys = refl
any-append p (x ∷ xs) ys = ground (arith, any-append p xs ys)

module _ (p : Ipo → Bool) (f : Ipo → Ipo) (keep : KeepsIdentity f) where
  taken-update :
      (s t : String) (rows : List Ipo) → any (is_row s t) (update p f rows) ≡ any (is_row s t) rows
  taken-update s t [] = refl
  taken-update s t (i ∷ rows) = ground (arith, keep i, taken-update s t rows)

  unique-update : (rows : List Ipo) → unique_rows (update p f rows) ≡ unique_rows rows
  unique-update [] = refl
  unique-update (i ∷ rows) =
      ground (arith, keep i, taken-update i.source i.source_ipo_id rows, unique-update rows)

  unique-append :
      (added rows : List Ipo) → unique_rows (added ++ update p f rows) ≡ unique_rows (added ++ rows)
  unique-append [] rows = unique-update rows
  unique-append (i ∷ added) rows = ground (
    arith,
    any-append (is_row i.source i.source_ipo_id) added rows,
    any-append (is_row i.source i.source_ipo_id) added (update p f rows),
    taken-update i.source i.source_ipo_id rows,
    unique-append added rows,
  )

any_of_find : (p : Ipo → Bool) (rows : List Ipo) → find p rows ≡ none → any p rows ≡ false
any_of_find p [] h = refl
any_of_find p (i ∷ rows) h = ground (arith, any_of_find p rows)

-- No record of the list has the identity of a row that the batch has added.
abbrev Fresh : Upsert → List Ipo → List NormalizedIpo → Type 0
Fresh u added rs = All (λ r. any (is_row u.source r.source_ipo_id) added ≡ false) rs

Fresh-cons :
    (u : Upsert) (id : ℕ) (r : NormalizedIpo) (added : List Ipo) (rs : List NormalizedIpo)
    → All (λ q. str_eq r.source_ipo_id q.source_ipo_id ≡ false) rs
    → Fresh u added rs
    → Fresh u (new_row u id r ∷ added) rs
Fresh-cons u id r added [] h k = tt
Fresh-cons u id r added (q ∷ rs) h k =
    (ground (arith, h.0, k.0), Fresh-cons u id r added rs h.1 k.1)

Fresh-start : (u : Upsert) (rs : List NormalizedIpo) → Fresh u [] rs
Fresh-start u [] = tt
Fresh-start u (r ∷ rs) = (refl, Fresh-start u rs)

abbrev all_rows : Batch → List Ipo
all_rows b = b.added ++ b.rows

module _ (u : Upsert) (r : NormalizedIpo) (b : Batch) where
  insert_unique :
      any (is_row u.source r.source_ipo_id) b.added ≡ false
      → find (is_row u.source r.source_ipo_id) b.rows ≡ none
      → unique_rows (all_rows b) ≡ true
      → unique_rows (all_rows (insert_record u r b)) ≡ true
  insert_unique fresh new h = ground (
    arith,
    fresh,
    h,
    any-append (is_row u.source r.source_ipo_id) b.added b.rows,
    any_of_find (is_row u.source r.source_ipo_id) b.rows new,
  )

  added-snapshot_if :
      (write : Bool) (s : IpoSnapshot) → all_rows (snapshot_if write s b) ≡ all_rows b
  added-snapshot_if true s = refl
  added-snapshot_if false s = refl

-- What a turn of the loop leaves: the rows stay unique, and the new rows are the old ones or one
-- more.
module _ (u : Upsert) (r : NormalizedIpo) (rs : List NormalizedIpo) (b : Batch) where
  abbrev Ready : Batch → Type 0
  Ready b = (unique_rows (all_rows b) ≡ true) × Fresh u b.added rs

  change-Ready : (current : Ipo) → Ready b → Ready (change_record u r current b)
  change-Ready current h = elim (Bool-cases u.write_snapshots) [
    | inl writes ↦ rw writes (
      unique-append (is_row u.source r.source_ipo_id) (changed u r) (λ i. (refl, refl)) b.added
            b.rows
          ∙ h.0,
      h.1,
    )
    | inr skips ↦ rw skips (
      unique-append (is_row u.source r.source_ipo_id) (changed u r) (λ i. (refl, refl)) b.added
            b.rows
          ∙ h.0,
      h.1,
    )
  ]

  upsert_record-Ready :
      any (is_row u.source r.source_ipo_id) b.added ≡ false
      → All (λ q. str_eq r.source_ipo_id q.source_ipo_id ≡ false) rs
      → Ready b
      → Ready (upsert_record u r b)
  unfolding upsert_record
  upsert_record-Ready fresh distinct h =
      elim (Option-cases (find (is_row u.source r.source_ipo_id) b.rows)) [
        | inl new ↦
            rw (new, upsert_record)
              (insert_unique u r b fresh new h.0, Fresh-cons u b.next_id r b.added rs distinct h.1)
        | inr (current, found) ↦
            elim (Bool-cases (has_changes (diff current.columns (as_column_values r)))) [
              | inl moved ↦ rw (found, moved, upsert_record) (change-Ready current h)
              | inr same ↦
                  rw (found, same, upsert_record)
                    (
                      unique-append (is_row u.source r.source_ipo_id) (touched u r)
                            (λ i. (refl, refl)) b.added b.rows
                          ∙ h.0,
                      h.1,
                    )
            ]
      ]

upsert_records_unique :
    (u : Upsert) (rs : List NormalizedIpo) (b : Batch)
    → DistinctIds rs
    → unique_rows (all_rows b) ≡ true
    → Fresh u b.added rs
    → unique_rows (all_rows (upsert_records u rs b)) ≡ true
unfolding upsert_records
upsert_records_unique u [] b d h k = h
upsert_records_unique u (r ∷ rs) b d h k =
    let (unique, fresh) = upsert_record-Ready u r rs b k.0 d.0 (h, k.1) in
    upsert_records_unique u rs (upsert_record u r b) d.1 unique fresh

flush_unique :
    (b : Batch)
    → unique_rows (all_rows b) ≡ true
    → flush b ≡ (if is_storable b then some (stored_batch b) else none)
unfolding flush
flush_unique b h = rw h refl

-- On a table that meets its constraints, and for a batch in which no two records have one
-- identity, as the validator leaves it, the upsert never meets the unique constraint: it succeeds
-- exactly when the types of the columns take the rows and the snapshots that its loop leaves and
-- what they keep of the rows meets the CHECK constraints; and the tables get what the columns keep.
pub upsert_many_lem :
    (u : Upsert) (rs : List NormalizedIpo) (rows : List Ipo) (next_id : ℕ)
    → DistinctIds rs
    → unique_rows rows ≡ true
    → 1 ≤ length rs
    → let b = upsert_records u rs (start rows next_id) in
      upsert_many u rs rows next_id ≡ (if is_storable b then some (stored_batch b) else none)
unfolding upsert_many
upsert_many_lem u [] rows next_id d h k = absurd (omega (arith, k))
upsert_many_lem u (r ∷ rs) rows next_id d h k =
    flush_unique (upsert_records u (r ∷ rs) (start rows next_id))
      (upsert_records_unique u (r ∷ rs) (start rows next_id) d h (Fresh-start u (r ∷ rs)))
