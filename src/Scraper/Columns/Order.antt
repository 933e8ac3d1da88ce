-- ===== src/Scraper/Columns/Order.antt =====
-- The order of the candidates of `map_columns`
-- (app/services/scraper/field_map.py) .
use native.Mathlib.Nat.{mul-le-mul_right, le_of_mul-le-mul_left}
use help_me_bid_backend.Base.{
  ◌*◌, ◌≤◌, ◌<◌, ◌≡◌, subst, Bool, true, false, List, [], ◌∷◌, arith, inl, inr, Bool-cases, All,
  if◌then◌else◌,
}
use help_me_bid_backend.Scraper.Columns.{Score, leb_score, ColumnMatch, insert, sort}

leb_score_total : (a b : Score) → leb_score a b ≡ false → leb_score b a ≡ true
leb_score_total a b h = ground arith

leb_score_trans :
    (a b c : Score)
    → 0 < b.over
    → leb_score a b ≡ true
    → leb_score b c ≡ true
    → leb_score a c ≡ true
leb_score_trans a b c h k l =
    let p : a.hundredths * b.over ≤ b.hundredths * a.over = ground arith in
    let q : b.hundredths * c.over ≤ c.hundredths * b.over = ground arith in
    let r : b.over * (a.hundredths * c.over) ≤ b.over * (c.hundredths * a.over) =
      omega (arith, mul-le-mul_right c.over p, mul-le-mul_right a.over q) in
    let s : a.hundredths * c.over ≤ c.hundredths * a.over = le_of_mul-le-mul_left r h in
    ground (arith, s)

-- Best first.
abbrev pub IsSorted : List ColumnMatch → Type 0
IsSorted [] = Unit
IsSorted (c ∷ cs) = All (λ (d : ColumnMatch). leb_score d.score c.score ≡ true) cs × IsSorted cs

abbrev pub IsScored : ColumnMatch → Type 0
IsScored c = 0 < c.score.over

module _ (P : ColumnMatch → Type 0) where
  All-insert : (c : ColumnMatch) (cs : List ColumnMatch) → P c → All P cs → All P (insert c cs)
  unfolding insert
  All-insert c [] p h = (p, tt)
  All-insert c (d ∷ ds) p (q, h) = elim (Bool-cases (leb_score d.score c.score)) [
    | inl below ↦ rw below (p, (q, h))
    | inr above ↦ rw above (q, All-insert c ds p h)
  ]

  pub All-sort : (cs : List ColumnMatch) → All P cs → All P (sort cs)
  unfolding sort
  All-sort [] h = tt
  All-sort (c ∷ cs) (p, h) = All-insert c (sort cs) p (All-sort cs h)

  All-of_insert : (c : ColumnMatch) (cs : List ColumnMatch) → All P (insert c cs) → P c × All P cs
  unfolding insert
  All-of_insert c [] (p, h) = (p, tt)
  All-of_insert c (d ∷ ds) h =
      let at : Bool → Type 0 = λ b. All P (if b then c ∷ d ∷ ds else d ∷ insert c ds) in
      elim (Bool-cases (leb_score d.score c.score)) [
        | inl below ↦ subst at below h
        | inr above ↦
            let (q, k) = subst at above h in let (p, l) = All-of_insert c ds k in (p, (q, l))
      ]

  pub All-of_sort : (cs : List ColumnMatch) → All P (sort cs) → All P cs
  unfolding sort
  All-of_sort [] h = tt
  All-of_sort (c ∷ cs) h = let (p, k) = All-of_insert c (sort cs) h in (p, All-of_sort cs k)

-- What lies below a candidate lies below a better one.
beneath_better :
    (c d : ColumnMatch) (cs : List ColumnMatch)
    → IsScored d
    → leb_score d.score c.score ≡ true
    → All (λ (x : ColumnMatch). leb_score x.score d.score ≡ true) cs
    → All (λ (x : ColumnMatch). leb_score x.score c.score ≡ true) cs
beneath_better c d [] s h k = tt
beneath_better c d (x ∷ cs) s h (k, l) =
    (leb_score_trans x.score d.score c.score s k h, beneath_better c d cs s h l)

insert-IsSorted :
    (c : ColumnMatch) (cs : List ColumnMatch)
    → IsScored c
    → All IsScored cs
    → IsSorted cs
    → IsSorted (insert c cs)
unfolding insert
insert-IsSorted c [] p s h = (tt, tt)
insert-IsSorted c (d ∷ ds) p (q, s) (k, h) = elim (Bool-cases (leb_score d.score c.score)) [
  | inl below ↦ rw below ((below, beneath_better c d ds q below k), (k, h))
  | inr above ↦ rw above (
    All-insert (λ (x : ColumnMatch). leb_score x.score d.score ≡ true) c ds
        (leb_score_total d.score c.score above) k,
    insert-IsSorted c ds p s h,
  )
]

pub sort-IsSorted : (cs : List ColumnMatch) → All IsScored cs → IsSorted (sort cs)
unfolding sort
sort-IsSorted [] h = tt
sort-IsSorted (c ∷ cs) (p, h) =
    insert-IsSorted c (sort cs) p (All-sort IsScored cs h) (sort-IsSorted cs h)
