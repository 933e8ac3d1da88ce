-- ===== src/Ipos/Upsert/Totals.antt =====
-- The counters of `PersistenceResult` (app/repositories/ipo.py).
use help_me_bid_backend.Base.{
  ℕ, suc, ◌+◌, ◌≡◌, refl, ap, ◌∙◌, subst, Bool, true, false, none, some, List, [], ◌∷◌, arith,
  length, ◌++◌, ◌&&◌, update, Bool-cases, Option-cases, inl, inr, if◌then◌else◌, find,
}
use mathlib.Core.Option.{some-injective}
use help_me_bid_backend.Models.{Ipo}
use help_me_bid_backend.Scraper.Records.{NormalizedIpo, as_column_values}
use help_me_bid_backend.Ipos.Upsert.{
  Upsert, Batch, is_row, has_changes, diff, touched, changed, insert_record, keep_record,
  change_record, upsert_record, upsert_records, snapshot_if, IpoSnapshot, build_snapshot,
}
use help_me_bid_backend.Ipos.Flush.{start, flush, upsert_many, unique_rows, is_storable}
use help_me_bid_backend.Ipos.Columns.{stored_rows, stored_snapshots, stored_batch}

length-update :
    (p : Ipo → Bool) (f : Ipo → Ipo) (rows : List Ipo) → length (update p f rows) ≡ length rows
length-update p f [] = refl
length-update p f (i ∷ rows) = ap suc (length-update p f rows)

-- What the counters say of a batch after n records, on a table that had m rows.
pub record IsTally (write : Bool) (m n : ℕ) (b : Batch) : Type 0 where
  pub records : b.result.inserted + b.result.updated + b.result.unchanged ≡ n
  pub new_rows : length b.added ≡ b.result.inserted
  pub old_rows : length b.rows ≡ m
  pub history : length b.snapshots ≡ b.result.snapshots
  pub per_update : b.result.snapshots ≡ (if write then b.result.updated else 0)

-- A changed row before its snapshot is written, and after.
snapshot_if-IsTally :
    (write : Bool) (m n : ℕ) (snapshot : IpoSnapshot) (rows : List Ipo) (b : Batch)
    → IsTally write m n b
    → length rows ≡ m
    → IsTally write m (suc n) (
        snapshot_if write snapshot
          (record b { rows = rows; result = record b.result { updated = suc b.result.updated } }))
snapshot_if-IsTally true m n snapshot rows b h e = record {
  records = omega (arith, h.records);
  new_rows = h.new_rows;
  old_rows = e;
  history = ap suc h.history;
  per_update = ap suc h.per_update;
}
snapshot_if-IsTally false m n snapshot rows b h e = record {
  records = omega (arith, h.records);
  new_rows = h.new_rows;
  old_rows = e;
  history = h.history;
  per_update = h.per_update;
}

module _ (u : Upsert) (m n : ℕ) (r : NormalizedIpo) (b : Batch)
    (h : IsTally u.write_snapshots m n b) where
  insert-IsTally : IsTally u.write_snapshots m (suc n) (insert_record u r b)
  insert-IsTally = record {
    records = omega (arith, h.records);
    new_rows = ap suc h.new_rows;
    old_rows = h.old_rows;
    history = h.history;
    per_update = h.per_update;
  }

  keep-IsTally : IsTally u.write_snapshots m (suc n) (keep_record u r b)
  keep-IsTally = record {
    records = omega (arith, h.records);
    new_rows = h.new_rows;
    old_rows = length-update (is_row u.source r.source_ipo_id) (touched u r) b.rows ∙ h.old_rows;
    history = h.history;
    per_update = h.per_update;
  }

  change-IsTally :
      (current : Ipo) → IsTally u.write_snapshots m (suc n) (change_record u r current b)
  change-IsTally current =
      let rows =
        length-update (is_row u.source r.source_ipo_id) (changed u r) b.rows ∙ h.old_rows in
      snapshot_if-IsTally u.write_snapshots m n
        (build_snapshot (changed u r current) (diff current.columns (as_column_values r))
          u.scrape_run_id)
        (update (is_row u.source r.source_ipo_id) (changed u r) b.rows) b h rows

  upsert_record-IsTally : IsTally u.write_snapshots m (suc n) (upsert_record u r b)
  unfolding upsert_record
  upsert_record-IsTally = elim (Option-cases (find (is_row u.source r.source_ipo_id) b.rows)) [
    | inl new ↦ rw (new, upsert_record) insert-IsTally
    | inr (current, found) ↦
        elim (Bool-cases (has_changes (diff current.columns (as_column_values r)))) [
          | inl moved ↦ rw (found, moved, upsert_record) (change-IsTally current)
          | inr same ↦ rw (found, same, upsert_record) keep-IsTally
        ]
  ]

upsert_records-IsTally :
    (u : Upsert) (m n : ℕ) (rs : List NormalizedIpo) (b : Batch)
    → IsTally u.write_snapshots m n b
    → IsTally u.write_snapshots m (n + length rs) (upsert_records u rs b)
unfolding upsert_records
upsert_records-IsTally u m n [] b h =
    subst (λ k. IsTally u.write_snapshots m k b) {x = n} {y = n + 0} (omega arith) h
upsert_records-IsTally u m n (r ∷ rs) b h =
    let after = upsert_record u r b in
    subst (λ k. IsTally u.write_snapshots m k (upsert_records u rs after)) {x = suc n + length rs}
      {y = n + suc (length rs)} (omega arith)
      (upsert_records-IsTally u m (suc n) rs after (upsert_record-IsTally u m n r b h))

length-stored_rows : (rows : List Ipo) → length (stored_rows rows) ≡ length rows
length-stored_rows [] = refl
length-stored_rows (i ∷ rows) = ap suc (length-stored_rows rows)

length-stored_snapshots : (ss : List IpoSnapshot) → length (stored_snapshots ss) ≡ length ss
length-stored_snapshots [] = refl
length-stored_snapshots (s ∷ ss) = ap suc (length-stored_snapshots ss)

stored-IsTally :
    (write : Bool) (m n : ℕ) (b : Batch) → IsTally write m n b → IsTally write m n (stored_batch b)
stored-IsTally write m n b h = record {
  records = h.records;
  new_rows = length-stored_rows b.added ∙ h.new_rows;
  old_rows = length-stored_rows b.rows ∙ h.old_rows;
  history = length-stored_snapshots b.snapshots ∙ h.history;
  per_update = h.per_update;
}

IsTally-of_some :
    (write : Bool) (m n : ℕ) (b b' : Batch)
    → IsTally write m n b
    → some b ≡ some b'
    → IsTally write m n b'
IsTally-of_some write m n b b' h e = subst (IsTally write m n) (some-injective b b' e) h

IsTally-of_flush :
    (write : Bool) (m n : ℕ) (b b' : Batch)
    → IsTally write m n b
    → flush b ≡ some b'
    → IsTally write m n b'
unfolding flush
IsTally-of_flush write m n b b' h e =
    elim (Bool-cases (unique_rows (b.added ++ b.rows) && is_storable b)) [
      | inl passes ↦
          IsTally-of_some write m n (stored_batch b) b' (stored-IsTally write m n b h)
            (subst (λ c. (if c then some (stored_batch b) else none) ≡ some b') passes e)
      | inr fails ↦ ground (arith, fails, e)
    ]

start-IsTally :
    (write : Bool) (rows : List Ipo) (next_id : ℕ)
    → IsTally write (length rows) 0 (start rows next_id)
start-IsTally true rows next_id = record {
  records = refl;
  new_rows = refl;
  old_rows = refl;
  history = refl;
  per_update = refl;
}
start-IsTally false rows next_id = record {
  records = refl;
  new_rows = refl;
  old_rows = refl;
  history = refl;
  per_update = refl;
}

loop-IsTally :
    (u : Upsert) (rs : List NormalizedIpo) (rows : List Ipo) (next_id : ℕ)
    → IsTally u.write_snapshots (length rows) (length rs) (upsert_records u rs (start rows next_id))
loop-IsTally u rs rows next_id =
    subst
      (λ k. IsTally u.write_snapshots (length rows) k (upsert_records u rs (start rows next_id)))
      {x = 0 + length rs} {y = length rs} (omega arith)
      (upsert_records-IsTally u (length rows) 0 rs (start rows next_id)
        (start-IsTally u.write_snapshots rows next_id))

-- After an upsert that succeeds every record has been counted once, as inserted, updated or
-- unchanged; there is one new row for each insertion, and as many old rows as before; and one
-- snapshot has been written for each update, or none at all when snapshots are switched off.
pub upsert_many-IsTally :
    (u : Upsert) (rs : List NormalizedIpo) (rows : List Ipo) (next_id : ℕ) (b : Batch)
    → upsert_many u rs rows next_id ≡ some b
    → IsTally u.write_snapshots (length rows) (length rs) b
unfolding upsert_many flush
upsert_many-IsTally u [] rows next_id b e =
    IsTally-of_some u.write_snapshots (length rows) 0 (start rows next_id) b
      (start-IsTally u.write_snapshots rows next_id) e
upsert_many-IsTally u (r ∷ rs) rows next_id b e =
    IsTally-of_flush u.write_snapshots (length rows) (length (r ∷ rs))
      (upsert_records u (r ∷ rs) (start rows next_id)) b (loop-IsTally u (r ∷ rs) rows next_id) e
