-- ===== src/Ipos/Upsert/Merge.antt =====
-- What `upsert_many` (app/repositories/ipo.py) writes to a row that is there already.
use help_me_bid_backend.Base.{
  Bool, not, ℕ, ◌≡◌, refl, ap, sym, subst, true, false, Option, none, some, arith, is_some, eq_iff,
  Bool-cases, inl, inr, ◌==◌,
}
use help_me_bid_backend.Base.Int.{ℤ, eqb_ℤ, eq_of_parts}
use help_me_bid_backend.Models.{
  Field, Column, Values, name, ipo_type, exchange, source_status, open_date, close_date,
  allotment_date, listing_date, price_min, price_max, lot_size, issue_size_crore, gmp,
  gmp_percentage, gmp_low, gmp_high, estimated_listing_price, subscription_times, rating, pe_ratio,
  has_anchor_investors,
}
use help_me_bid_backend.Ipos.Columns.{stored_value, stored_cell, stored_columns}
use help_me_bid_backend.Ipos.Upsert.{same_value, change_of, assigned, diff, apply_changes}

same_decimal : (a b : ℤ) → eqb_ℤ a b ≡ true → a ≡ b
same_decimal a b h = eq_of_parts a b (ground (arith, h))

same_number : (a b : ℕ) → (a == b) ≡ true → a ≡ b
same_number a b h = ground (arith, h)

pub same_value_eq : (f : Field) (a b : Column f) → same_value f a b ≡ true → a ≡ b
same_value_eq name a b h = (eq_iff a b).0 h
same_value_eq ipo_type a b h = (eq_iff a b).0 h
same_value_eq exchange a b h = (eq_iff a b).0 h
same_value_eq source_status a b h = (eq_iff a b).0 h
same_value_eq open_date a b h = same_number a b h
same_value_eq close_date a b h = same_number a b h
same_value_eq allotment_date a b h = same_number a b h
same_value_eq listing_date a b h = same_number a b h
same_value_eq price_min a b h = same_decimal a b h
same_value_eq price_max a b h = same_decimal a b h
same_value_eq lot_size a b h = same_decimal a b h
same_value_eq issue_size_crore a b h = same_decimal a b h
same_value_eq gmp a b h = same_decimal a b h
same_value_eq gmp_percentage a b h = same_decimal a b h
same_value_eq gmp_low a b h = same_decimal a b h
same_value_eq gmp_high a b h = same_decimal a b h
same_value_eq estimated_listing_price a b h = same_decimal a b h
same_value_eq subscription_times a b h = same_decimal a b h
same_value_eq rating a b h = same_decimal a b h
same_value_eq pe_ratio a b h = same_decimal a b h
same_value_eq has_anchor_investors a b h = ground (arith, h)

-- The source's value where it gives one, and the stored one where it gives none.
abbrev pub latest : Values → Values → Values
latest values current f = elim (values f) [ none ↦ current f | some new ↦ some new ]

assigned_moved :
    (f : Field) (old : Option (Column f)) (new : Column f)
    → assigned f old (change_of f old (some new)) ≡ some new
assigned_moved f none new = refl
assigned_moved f (some a) new = elim (Bool-cases (same_value f a new)) [
  | inl same ↦ rw same (ap some (same_value_eq f a new same))
  | inr moved ↦ rw moved refl
]

assigned_lem :
    (f : Field) (old given : Option (Column f))
    → assigned f old (change_of f old given) ≡ elim given [ none ↦ old | some new ↦ some new ]
assigned_lem f old none = refl
assigned_lem f old (some new) = assigned_moved f old new

-- Writing the changes that `_diff` found gives, in every tracked column, the source's value where
-- it has one and the stored value where it has none: nothing known is erased, nothing new is lost.
pub apply_changes-diff :
    (current values : Values) → apply_changes (diff current values) current ≡ latest values current
unfolding apply_changes diff
apply_changes-diff current values i f = assigned_lem f (current f) (values f) i

-- Reading a new value again, where the column keeps it in another form.
abbrev pub moves_again : (f : Field) → Option (Column f) → Bool
moves_again f none = false
moves_again f (some new) = not (same_value f (stored_value f new) new)

change_of_stored :
    (f : Field) (old given : Option (Column f))
    → is_some (change_of f (stored_cell f (elim given [ none ↦ old | some new ↦ some new ])) given)
      ≡ moves_again f given
change_of_stored f old none = refl
change_of_stored f old (some new) = elim (Bool-cases (same_value f (stored_value f new) new)) [
  | inl same ↦ rw same refl
  | inr moved ↦ rw moved refl
]

-- When a scrape's values have been written and stored, reading the same values again finds a change
-- in a field exactly when the source gives it a value that the column keeps in another form, as one
-- with more than two decimals.
pub diff-stored_columns :
    (current values : Values) (f : Field)
    → is_some (diff (stored_columns (apply_changes (diff current values) current)) values f)
      ≡ moves_again f (values f)
unfolding diff
diff-stored_columns current values f =
    subst (λ c. is_some (diff (stored_columns c) values f) ≡ moves_again f (values f))
      (sym (apply_changes-diff current values)) (change_of_stored f (current f) (values f))
