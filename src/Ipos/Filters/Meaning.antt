-- ===== src/Ipos/Filters/Meaning.antt =====
-- What the filters of a request mean.
use help_me_bid_backend.Base.{
  ℕ, ◌≤◌, ◌≡◌, ◌∙◌, ◌↔◌, refl, sym, true, false, Bool, Option, none, some, arith, eq_iff, String,
  str_eq, leb, ◌&&◌,
}
use help_me_bid_backend.Base.Int.{ℤ, ◌≤ℤ◌, leb_ℤ}
use help_me_bid_backend.Models.{
  Ipo, ipo_type, exchange, open_date, close_date, listing_date, gmp, gmp_percentage, lot_size,
  issue_size_crore, subscription_times, price_min, price_max,
}
use help_me_bid_backend.Ipos.Status.{IpoStatus, derive_status, ipo_status_expression}
use help_me_bid_backend.Ipos.Lifecycle.{derive_status-expression}
use help_me_bid_backend.Ipos.Filters.{
  DateFilter, RangeFilter, IpoFilterParams, known, where_given, same_status, date_passes,
  range_passes, passes,
}

-- If something is asked for, the column has a value, and it is as asked.
abbrev pub Asked {ℓ κ} : {A : Type ℓ} {B : Type κ} → (A → B → Type 0) → Option A → Option B → Type 0
Asked P none column = Unit
Asked P (some a) none = ⊥
Asked P (some a) (some v) = P a v

pub record DateAsked (f : DateFilter) (column : Option ℕ) : Type 0 where
  pub in_resolved : Asked (λ r d. ((r.0) ≤ d) × (d ≤ r.1)) f.resolved column
  pub not_before : Asked (λ low d. low ≤ d) f.earliest column
  pub not_after : Asked (λ high d. d ≤ high) f.latest column

pub record RangeAsked (f : RangeFilter) (low_column high_column : Option ℤ) : Type 0 where
  pub at_least : Asked (λ low v. low ≤ℤ v) f.least low_column
  pub at_most : Asked (λ high v. v ≤ℤ high) f.most high_column

-- The row is one that the request asks for; its status is the one that its label shows.
pub record IsAsked (today : ℕ) (f : IpoFilterParams) (i : Ipo) : Type 0 where
  pub status : Asked (λ s t. t ≡ s) f.status (some (derive_status i today))
  pub of_type : Asked (λ t v. v ≡ t) f.of_type (i.columns ipo_type)
  pub on_exchange : Asked (λ e v. v ≡ e) f.on_exchange (i.columns exchange)
  pub opens : DateAsked f.opens (i.columns open_date)
  pub closes : DateAsked f.closes (i.columns close_date)
  pub lists : DateAsked f.lists (i.columns listing_date)
  pub premium : RangeAsked f.premium (i.columns gmp) (i.columns gmp)
  pub percentage : RangeAsked f.percentage (i.columns gmp_percentage) (i.columns gmp_percentage)
  pub lot : RangeAsked f.lot (i.columns lot_size) (i.columns lot_size)
  pub issue_size : RangeAsked f.issue_size (i.columns issue_size_crore) (i.columns issue_size_crore)
  pub subscription :
      RangeAsked f.subscription (i.columns subscription_times) (i.columns subscription_times)
  pub price : RangeAsked f.price (i.columns price_max) (i.columns price_min)

given_iff {ℓ κ} :
    {A : Type ℓ} {B : Type κ} (P : A → B → Type 0) (test : A → B → Bool)
    → ((a : A) (b : B) → (test a b ≡ true) ↔ P a b)
    → (asked : Option A) (column : Option B)
    → (where_given asked (λ a. known (test a) column) ≡ true) ↔ Asked P asked column
given_iff P test h none column = (λ e. tt, λ e. refl)
given_iff P test h (some a) none = (λ e. ground (arith, e), λ e. absurd e)
given_iff P test h (some a) (some b) = h a b

both : {a b : Bool} → a ≡ true → b ≡ true → (a && b) ≡ true
both p q = rw (p, q) refl

first : (a b : Bool) → (a && b) ≡ true → a ≡ true
first true b e = refl
first false b e = e

rest : (a b : Bool) → (a && b) ≡ true → b ≡ true
rest true b e = e
rest false b e = ground (arith, e)

resolved_iff :
    (asked : Option (ℕ × ℕ)) (column : Option ℕ)
    → (where_given asked (λ r. known (leb r.0) column && known (λ d. leb d r.1) column) ≡ true)
      ↔ Asked (λ r d. ((r.0) ≤ d) × (d ≤ r.1)) asked column
resolved_iff none column = (λ e. tt, λ e. refl)
resolved_iff (some r) none = (λ e. ground (arith, e), λ e. absurd e)
resolved_iff (some r) (some d) =
    (λ e. (ground (arith, e), ground (arith, e)), λ e. ground (arith, e))

date_iff : (f : DateFilter) (c : Option ℕ) → (date_passes f c ≡ true) ↔ DateAsked f c
date_iff f c =
    let (a, a') = resolved_iff f.resolved c in
    let (b, b') =
      given_iff (λ low d. low ≤ d) (λ low. leb low) (λ low d. ground arith) f.earliest c in
    let (d, d') =
      given_iff (λ high d. d ≤ high) (λ high d. leb d high) (λ high d. ground arith) f.latest c in
    (
      λ e. record {
        in_resolved = a (first _ _ (first _ _ e));
        not_before = b (rest _ _ (first _ _ e));
        not_after = d (rest _ _ e);
      },
      λ h. both (both (a' h.in_resolved) (b' h.not_before)) (d' h.not_after),
    )

range_iff : (f : RangeFilter) (c d : Option ℤ) → (range_passes f c d ≡ true) ↔ RangeAsked f c d
range_iff f c d =
    let (a, a') =
      given_iff (λ low v. low ≤ℤ v) (λ low. leb_ℤ low) (λ low v. ground arith) f.least c in
    let (b, b') =
      given_iff (λ high v. v ≤ℤ high) (λ high v. leb_ℤ v high) (λ high v. ground arith) f.most d in
    (
      λ e. record { at_least = a (first _ _ e); at_most = b (rest _ _ e) },
      λ h. both (a' h.at_least) (b' h.at_most),
    )

same_status_iff : (s t : IpoStatus) → (same_status t s ≡ true) ↔ (t ≡ s)
same_status_iff s t = ground arith

status_iff :
    (asked : Option IpoStatus) (i : Ipo) (today : ℕ)
    → (where_given asked (λ s. same_status (ipo_status_expression today i) s) ≡ true)
      ↔ Asked (λ s t. t ≡ s) asked (some (derive_status i today))
status_iff none i today = (λ e. tt, λ e. refl)
status_iff (some s) i today =
    let (f, g) = same_status_iff s (ipo_status_expression today i) in
    let same = derive_status-expression i today in (λ e. same ∙ f e, λ e. g (sym same ∙ e))

text_iff :
    (asked column : Option String)
    → (where_given asked (λ t. known (λ v. str_eq v t) column) ≡ true)
      ↔ Asked (λ t v. v ≡ t) asked column
text_iff asked column =
    given_iff (λ t v. v ≡ t) (λ t v. str_eq v t) (λ t v. eq_iff v t) asked column

-- A row passes the filters exactly when it is asked for: each bound that is given is met by a known
-- value, the price band reaches into the asked range, and the status that its label shows on the
-- day is the one asked for.
pub passes_iff :
    (today : ℕ) (f : IpoFilterParams) (i : Ipo) → (passes today f i ≡ true) ↔ IsAsked today f i
unfolding passes
passes_iff today f i =
    let (a, a') = status_iff f.status i today in
    let (b, b') = text_iff f.of_type (i.columns ipo_type) in
    let (c, c') = text_iff f.on_exchange (i.columns exchange) in
    let (d, d') = date_iff f.opens (i.columns open_date) in
    let (e, e') = date_iff f.closes (i.columns close_date) in
    let (g, g') = date_iff f.lists (i.columns listing_date) in
    let (h, h') = range_iff f.premium (i.columns gmp) (i.columns gmp) in
    let (j, j') = range_iff f.percentage (i.columns gmp_percentage) (i.columns gmp_percentage) in
    let (k, k') = range_iff f.lot (i.columns lot_size) (i.columns lot_size) in
    let (l, l') =
      range_iff f.issue_size (i.columns issue_size_crore) (i.columns issue_size_crore) in
    let (m, m') =
      range_iff f.subscription (i.columns subscription_times) (i.columns subscription_times) in
    let (n, n') = range_iff f.price (i.columns price_max) (i.columns price_min) in
    (
      λ all.
          let p11 = first _ _ all in
          let p10 = first _ _ p11 in
          let p9 = first _ _ p10 in
          let p8 = first _ _ p9 in
          let p7 = first _ _ p8 in
          let p6 = first _ _ p7 in
          let p5 = first _ _ p6 in
          let p4 = first _ _ p5 in
          let p3 = first _ _ p4 in
          let p2 = first _ _ p3 in
          record {
            status = a (first _ _ p2);
            of_type = b (rest _ _ p2);
            on_exchange = c (rest _ _ p3);
            opens = d (rest _ _ p4);
            closes = e (rest _ _ p5);
            lists = g (rest _ _ p6);
            premium = h (rest _ _ p7);
            percentage = j (rest _ _ p8);
            lot = k (rest _ _ p9);
            issue_size = l (rest _ _ p10);
            subscription = m (rest _ _ p11);
            price = n (rest _ _ all);
          },
      λ r.
          both
            (both
              (both
                (both
                  (both
                    (both
                      (both
                        (both
                          (both (both (both (a' r.status) (b' r.of_type)) (c' r.on_exchange))
                            (d' r.opens))
                          (e' r.closes))
                        (g' r.lists))
                      (h' r.premium))
                    (j' r.percentage))
                  (k' r.lot))
                (l' r.issue_size))
              (m' r.subscription))
            (n' r.price),
    )
