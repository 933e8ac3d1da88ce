-- ===== src/Ipos/Pages/Cover.antt =====
-- The pages of a query (app/repositories/ipo.py, app/schemas/common.py) against all its rows.
use help_me_bid_backend.Base.{
  ℕ, zero, suc, ◌+◌, ◌-◌, ◌*◌, ◌/◌, ◌≤◌, ◌<◌, ◌≡◌, ◌↔◌, refl, sym, ap, ◌∙◌, subst, true, List, [],
  ◌∷◌, ◌++◌, length, arith, inl, inr, Bool-cases, ◌==◌,
}
use help_me_bid_backend.Base.Division.{div_window}
use help_me_bid_backend.Ipos.Pages.{take, drop, offset, page_of, pages_for, build}

module _ {ℓ} {A : Type ℓ} where
  take_nil : (n : ℕ) → take {A = A} n [] ≡ []
  unfolding take
  take_nil zero = refl
  take_nil (suc n) = refl

  take-append : (m n : ℕ) (xs : List A) → take m xs ++ take n (drop m xs) ≡ take (m + n) xs
  unfolding take drop
  take-append zero n xs = ap (λ k. take k xs) {x = n} {y = 0 + n} (omega arith)
  take-append (suc m) zero [] = sym (take_nil (suc m + 0))
  take-append (suc m) (suc n) [] = sym (take_nil (suc m + suc n))
  take-append (suc m) n (x ∷ xs) =
      ap (x ∷◌) (take-append m n xs)
      ∙ ap (λ k. take k (x ∷ xs)) {x = suc (m + n)} {y = suc m + n} (omega arith)

  take_all : (n : ℕ) (xs : List A) → length xs ≤ n → take n xs ≡ xs
  unfolding take
  take_all zero [] h = refl
  take_all zero (x ∷ xs) h = ground (arith, h)
  take_all (suc n) [] h = refl
  take_all (suc n) (x ∷ xs) h = ap (x ∷◌) (take_all n xs (omega (arith, h)))

  length-take-drop :
      (m n : ℕ) (xs : List A) → (0 < length (take n (drop m xs))) ↔ ((0 < n) × (m < length xs))
  unfolding take drop
  length-take-drop zero zero xs = ground arith
  length-take-drop zero (suc n) [] = ground arith
  length-take-drop zero (suc n) (x ∷ xs) = ground arith
  length-take-drop (suc m) zero [] = ground arith
  length-take-drop (suc m) (suc n) [] = ground arith
  length-take-drop (suc m) n (x ∷ xs) =
      let (f, g) = length-take-drop m n xs in
      (λ h. ((f h).0, omega (arith, (f h).1)), λ h. g (h.0, omega (arith, h.1)))

-- A page number is within the pages exactly when a row comes after the pages before it.
pages_for_iff :
    (page_size total page : ℕ)
    → 1 ≤ page_size
    → (page < pages_for page_size total) ↔ (page * page_size < total)
pages_for_iff page_size total page h = elim (Bool-cases (total == 0)) [
  | inl none' ↦ rw none' (λ k. ground (arith, k, none'), λ k. ground (arith, k, none'))
  | inr some' ↦
      let q = (total + page_size - 1) / page_size in
      let (low, high) = (div_window (total + page_size - 1) page_size q h).0 refl in
      rw some' (λ k. grind (arith, k, low), λ k. grind (arith, k, high, some'))
]

-- The rows of the first pages, one page after the other.
abbrev pub first_pages {ℓ} : {A : Type ℓ} → ℕ → ℕ → List A → List A
first_pages page_size zero rows = []
first_pages page_size (suc n) rows = first_pages page_size n rows ++ page_of (suc n) page_size rows

first_pages_lem {ℓ} :
    {A : Type ℓ} (page_size n : ℕ) (rows : List A)
    → first_pages page_size n rows ≡ take (n * page_size) rows
unfolding page_of take
first_pages_lem page_size zero rows =
    ap (λ k. take k rows) {x = 0} {y = 0 * page_size} (omega arith)
first_pages_lem page_size (suc n) rows =
    let at : offset (suc n) page_size ≡ n * page_size =
      ap (λ k. k * page_size) {x = suc n - 1} {y = n} (omega arith) in
    let page = ap (λ k. take page_size (drop k rows)) at in
    let before = first_pages_lem page_size n rows in
    (λ i. before i ++ page i)
    ∙ take-append (n * page_size) page_size rows
    ∙ ap (λ k. take k rows) {x = n * page_size + page_size} {y = suc n * page_size} (grind arith)

-- The pages that the metadata counts, one after the other, are exactly the rows of the query: no
-- row is repeated or left out, for every page size of at least one.
pub build_covers {ℓ} :
    {A : Type ℓ} (page page_size : ℕ) (rows : List A)
    → 1 ≤ page_size
    → first_pages page_size (build page page_size (length rows)).total_pages rows ≡ rows
unfolding build
build_covers page page_size rows h =
    let pages = pages_for page_size (length rows) in
    first_pages_lem page_size pages rows
    ∙ take_all (pages * page_size) rows
        (ground (arith, (pages_for_iff page_size (length rows) pages h).1))

-- The metadata of a page says that there is a next one exactly when the query for it has a row.
pub build_next_iff {ℓ} :
    {A : Type ℓ} (page page_size : ℕ) (rows : List A)
    → 1 ≤ page_size
    → ((build page page_size (length rows)).has_next ≡ true)
      ↔ (0 < length (page_of (page + 1) page_size rows))
unfolding build page_of
build_next_iff page page_size rows h =
    let (f, g) = pages_for_iff page_size (length rows) page h in
    let (a, b) = length-take-drop (offset (page + 1) page_size) page_size rows in
    let at : offset (page + 1) page_size ≡ page * page_size =
      ap (λ k. k * page_size) {x = page + 1 - 1} {y = page} (omega arith) in
    (
      λ k. b (h, subst (λ n. n < length rows) (sym at) (f (ground (arith, k)))),
      λ k. ground (arith, g (subst (λ n. n < length rows) at (a k).1)),
    )
