-- ===== src/Scraper/Normalizer/Bounds.antt =====
-- What every normalised record is good for (app/services/scraper/normalizer.py).
use help_me_bid_backend.Base.{
  ℕ, ◌≤◌, ◌≡◌, refl, subst, String, true, Option, none, some, List, [], ◌∷◌, arith, inl, inr,
  Bool-cases, Option-cases, ltb, leb, ◌&&◌, ◌==◌, is_some,
}
use Prim.Native.Char.{Char}
use help_me_bid_backend.Scraper.Records.{NormalizedIpo}
use help_me_bid_backend.Scraper.Stages.{ExtractedRecord}
use help_me_bid_backend.Scraper.Normalizer.Identity.{
  link_text, long_name, name_of, extract_name, extract_detail_url, extract_source_id,
}
use help_me_bid_backend.Scraper.Normalizer.{identified, named, normalize}
use help_me_bid_backend.Base.Int.{ℤ, pos, negsuc}
use help_me_bid_backend.Store.{truncate}
use help_me_bid_backend.Ipos.Flush.{band_ordered, positive}
use help_me_bid_backend.Scraper.Normalizer.Cells.{Readers, given, and_then, or_else, get}
use help_me_bid_backend.Scraper.Columns.{cell}
use help_me_bid_backend.Scraper.Normalizer.Values.{
  ordered_band, band_of, parse_price_band, price_band, keep_positive, at_most_five, positive_int,
  sum, extract_rating, glyph_rating, number_rating,
}

ordered_band-ordered :
    (q : Readers) (a b : Option ℤ)
    → band_ordered (ordered_band q a b).0 (ordered_band q a b).1 ≡ true
ordered_band-ordered q none b = refl
ordered_band-ordered q (some a) none = refl
ordered_band-ordered q (some a) (some b) = ground arith

same_band : (v : Option ℤ) → band_ordered v v ≡ true
same_band none = refl
same_band (some a) = ground arith

band_of-ordered :
    (q : Readers) (r : Option (String × String)) (t : String)
    → band_ordered (band_of q r t).0 (band_of q r t).1 ≡ true
band_of-ordered q none t = same_band (q.parse_decimal t)
band_of-ordered q (some (low, high)) t =
    ordered_band-ordered q (q.decimal_of low) (q.decimal_of high)

price_band-ordered :
    (q : Readers) (v : Option String) → band_ordered (price_band q v).0 (price_band q v).1 ≡ true
unfolding parse_price_band
price_band-ordered q none = refl
price_band-ordered q (some v) = elim (Bool-cases (q.texts.is_null_token (q.texts.strip_html v))) [
  | inl blank ↦ rw blank refl
  | inr text ↦
      rw text (band_of-ordered q (q.price_range (q.texts.strip_html v)) (q.texts.strip_html v))
]

keep_positive-positive : (q : Readers) (v : Option ℤ) → positive (keep_positive q v) ≡ true
keep_positive-positive q none = refl
keep_positive-positive q (some n) = ground arith

positive_int-positive : (q : Readers) (v : Option String) → positive (positive_int q v) ≡ true
unfolding positive_int
positive_int-positive q v = keep_positive-positive q (and_then v q.parse_int)

-- A rating is a number of one to five stars.
abbrev pub IsRating : Option ℤ → Type 0
IsRating none = Unit
IsRating (some v) = (n : ℕ) × (v ≡ pos n) × (1 ≤ n) × (n ≤ 5)

at_most_five-IsRating : (q : Readers) (n : ℕ) → 1 ≤ n → IsRating (some (pos (at_most_five q n)))
at_most_five-IsRating q n h = (at_most_five q n, refl, ground arith, ground arith)

number_rating-IsRating : (q : Readers) (v : Option ℤ) → IsRating (number_rating q v)
number_rating-IsRating q none = tt
number_rating-IsRating q (some (negsuc n)) = tt
number_rating-IsRating q (some (pos n)) = elim (Bool-cases (ltb 0 n && leb n 10)) [
  | inl within ↦ rw (within, IsRating) (at_most_five-IsRating q n (ground (arith, within)))
  | inr outside ↦ rw (outside, IsRating) tt
]

glyph_rating-IsRating :
    (q : Readers) (text : String) (glyphs : List String) (v : Option ℤ)
    → IsRating v
    → IsRating (glyph_rating q text glyphs v)
glyph_rating-IsRating q text [] v h = h
glyph_rating-IsRating q text (g ∷ gs) v h = elim (Bool-cases (q.count text g == 0)) [
  | inl absent ↦ rw (absent, IsRating) (glyph_rating-IsRating q text gs v h)
  | inr present ↦
      rw (present, IsRating) (at_most_five-IsRating q (q.count text g) (ground (arith, present)))
]

extract_rating-IsRating : (q : Readers) (v : Option String) → IsRating (extract_rating q v)
unfolding extract_rating
extract_rating-IsRating q v = elim (Option-cases (given q v)) [
  | inl blank ↦ rw (blank, IsRating) tt
  | inr (raw, known) ↦
      rw (known, IsRating)
        (glyph_rating-IsRating q (q.texts.strip_html raw) ("🔥" ∷ "⭐" ∷ "★" ∷ [])
          (number_rating q (q.parse_int (q.texts.strip_html raw)))
          (number_rating-IsRating q (q.parse_int (q.texts.strip_html raw))))
]

-- Both ends of a band are known, or neither.
abbrev IsWhole : Option ℤ × Option ℤ → Type 0
IsWhole band = is_some band.0 ≡ is_some band.1

ordered_band-IsWhole : (q : Readers) (a b : Option ℤ) → IsWhole (ordered_band q a b)
ordered_band-IsWhole q none b = refl
ordered_band-IsWhole q (some a) none = refl
ordered_band-IsWhole q (some a) (some b) = ground arith

price_band-IsWhole : (q : Readers) (v : Option String) → IsWhole (price_band q v)
unfolding parse_price_band
price_band-IsWhole q none = refl
price_band-IsWhole q (some v) = elim (Bool-cases (q.texts.is_null_token (q.texts.strip_html v))) [
  | inl blank ↦ rw (blank, IsWhole) refl
  | inr text ↦ elim (Option-cases (q.price_range (q.texts.strip_html v))) [
    | inl single ↦ rw (text, single, IsWhole) refl
    | inr ((low, high), band) ↦
        rw (text, band, IsWhole) (ordered_band-IsWhole q (q.decimal_of low) (q.decimal_of high))
  ]
]

-- What the columns of a record can hold.
pub record IsNormal (n : NormalizedIpo) : Type 0 where
  pub whole : is_some n.price_min ≡ is_some n.price_max
  pub band : band_ordered n.price_min n.price_max ≡ true
  pub lot : positive n.lot_size ≡ true
  pub rating : IsRating n.rating
  pub estimate : n.estimated_listing_price ≡ sum n.price_max n.gmp
  pub name : (c d : Char) × (s : String) × (n.name ≡ String.◌∷◌ c (String.◌∷◌ d s))

abbrev pub Normal : Option NormalizedIpo → Type 0
Normal none = Unit
Normal (some n) = IsNormal n

-- A name of at least two characters.
abbrev IsName : Option String → Type 0
IsName none = Unit
IsName (some n) = (c d : Char) × (s : String) × (n ≡ String.◌∷◌ c (String.◌∷◌ d s))

long_name-IsName : (q : Readers) (text : String) → IsName (long_name q text)
unfolding truncate
long_name-IsName q String.[] = tt
long_name-IsName q (String.◌∷◌ c String.[]) = tt
long_name-IsName q (String.◌∷◌ c (String.◌∷◌ d s)) = (c, d, truncate 253 s, refl)

module _ (q : Readers) where
  name_of-IsName : (v : Option String) → IsName (name_of q v)
  name_of-IsName v = elim (Option-cases (given q v)) [
    | inl blank ↦ rw (blank, IsName) tt
    | inr (raw, known) ↦ rw (known) (long_name-IsName q (link_text q raw))
  ]

  or_else-IsName : (a b : Option String) → IsName a → IsName b → IsName (or_else a b)
  or_else-IsName none b h k = k
  or_else-IsName (some a) b h k = h

  extract_name-IsName : (r : ExtractedRecord) → IsName (extract_name q r)
  unfolding extract_name
  extract_name-IsName r =
      or_else-IsName (name_of q (get q "name" r)) (name_of q (cell "name" r.unmapped))
        (name_of-IsName (get q "name" r)) (name_of-IsName (cell "name" r.unmapped))

  identified-Normal :
      (reference : ℕ) (r : ExtractedRecord) (name : String) (url id : Option String)
      → IsName (some name)
      → Normal (identified q reference r name url id)
  identified-Normal reference r name url none h = tt
  identified-Normal reference r name url (some id) h = record {
    whole = price_band-IsWhole q (get q "price" r);
    band = price_band-ordered q (get q "price" r);
    lot = positive_int-positive q (get q "lot_size" r);
    rating = extract_rating-IsRating q (get q "rating" r);
    estimate = refl;
    name = h;
  }

  named-Normal :
      (reference : ℕ) (base_url : String) (r : ExtractedRecord) (name : Option String)
      → IsName name
      → Normal (named q reference base_url r name)
  named-Normal reference base_url r none h = tt
  named-Normal reference base_url r (some name) h =
      let url = extract_detail_url q base_url r in
      identified-Normal reference r name url (extract_source_id q r url name) h

-- A record that is normalised has a name of at least two characters; both ends of its price band or
-- neither, in order; a lot size that is positive where it is known; a rating of one to five where
-- it is known; and the estimated listing price is the upper end and the premium, where both are known.
pub normalize-IsNormal :
    (q : Readers) (reference : ℕ) (base_url : String) (r : ExtractedRecord) (n : NormalizedIpo)
    → normalize q reference base_url r ≡ some n
    → IsNormal n
unfolding normalize
normalize-IsNormal q reference base_url r n h =
    subst Normal h
      (named-Normal q reference base_url r (extract_name q r) (extract_name-IsName q r))
