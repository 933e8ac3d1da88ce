-- ===== src/Workers/Times/Written.antt =====
-- The daily windows, from their text in the settings to the scheduler (app/core/config.py).
use Prim.Native.Char.{Char, code}
use mathlib.Core.Option.{some-injective}
use help_me_bid_backend.Base.{
  ℕ, zero, suc, ◌/◌, ◌%◌, ◌≤◌, ◌<◌, ◌≡◌, refl, sym, subst, ◌==◌, ◌&&◌, leb, String, true, false,
  Option, none, some, List, [], ◌∷◌, arith, inl, inr, Bool-cases, All, if◌then◌else◌,
}
use help_me_bid_backend.Base.Int.{ℤ, pos, negsuc}
use help_me_bid_backend.Store.{truncate}
use help_me_bid_backend.Workers.Times.{
  partition, digit, digit_of, two_digits, entry, checked, cons_some, pair_of, after_three,
  validate_time, validate_schedule_times, scrape_windows, written_windows,
}

-- No digit is a colon.
digit_of_not_colon :
    (cs : List Char) (n : ℕ)
    → All (λ (c : Char). (code c == 58) ≡ false) cs
    → (code (digit_of cs n) == 58) ≡ false
digit_of_not_colon [] n h = refl
digit_of_not_colon (c ∷ cs) zero (p, h) = p
digit_of_not_colon (c ∷ cs) (suc n) (p, h) = digit_of_not_colon cs n h

digit_not_colon : (n : ℕ) → (code (digit n) == 58) ≡ false
digit_not_colon n =
    digit_of_not_colon ("0" ∷ "1" ∷ "2" ∷ "3" ∷ "4" ∷ "5" ∷ "6" ∷ "7" ∷ "8" ∷ "9" ∷ []) n
      (refl, (refl, (refl, (refl, (refl, (refl, (refl, (refl, (refl, (refl, tt))))))))))

partition-entry : (h m : ℕ) → partition 58 (entry h m) ≡ (two_digits h "", two_digits m "")
unfolding partition
partition-entry h m = rw (digit_not_colon (h / 10), digit_not_colon (h % 10)) refl

-- What an entry that passes is.
abbrev IsWindow : Option ℤ → Option ℤ → String → Type 0
IsWindow a b e =
    (h : ℕ) × (m : ℕ) × (a ≡ some (pos h))
    × (b ≡ some (pos m))
    × (h ≤ 23)
    × (m ≤ 59)
    × (e ≡ entry h m)

checked-IsWindow : (a b : Option ℤ) (e : String) → checked a b ≡ some e → IsWindow a b e
checked-IsWindow (some (pos h)) (some (pos m)) e k = elim (Bool-cases (leb h 23 && leb m 59)) [
  | inl within ↦ (
    h,
    m,
    refl,
    refl,
    ground arith,
    ground arith,
    let passed = subst (λ b. (if b then some (entry h m) else none) ≡ some e) within k in
        sym (some-injective (entry h m) e passed),
  )
  | inr outside ↦ absurd (ground (arith, k, outside))
]
checked-IsWindow none b e k = cc
checked-IsWindow (some (negsuc h)) b e k = cc
checked-IsWindow (some (pos h)) none e k = cc
checked-IsWindow (some (pos h)) (some (negsuc m)) e k = cc

cons_some_parts :
    (x : Option String) (xs : Option (List String)) (ys : List String)
    → cons_some x xs ≡ some ys
    → (y : String) × (zs : List String) × (x ≡ some y) × (xs ≡ some zs) × (ys ≡ y ∷ zs)
cons_some_parts (some y) (some zs) ys k = (y, zs, refl, refl, sym (some-injective (y ∷ zs) ys k))
cons_some_parts (some y) none ys k = cc
cons_some_parts none xs ys k = cc

-- `int` reads two digits.
abbrev pub ReadsDigits : (String → Option ℤ) → Type 0
ReadsDigits int = (n : ℕ) → n < 100 → int (two_digits n "") ≡ some (pos n)

module _ (int : String → Option ℤ) (law : ReadsDigits int) where
  validate_time-IsWindow :
      (raw e : String)
      → validate_time int raw ≡ some e
      → IsWindow (int (partition 58 raw).0) (int (partition 58 raw).1) e
  unfolding validate_time
  validate_time-IsWindow raw e k =
      checked-IsWindow (int (partition 58 raw).0) (int (partition 58 raw).1) e k

  validate_time-entry :
      (h m : ℕ) → h ≤ 23 → m ≤ 59 → validate_time int (entry h m) ≡ some (entry h m)
  unfolding validate_time
  validate_time-entry h m p q =
      let within : (leb h 23 && leb m 59) ≡ true = ground arith in
      rw (partition-entry h m, law h (omega arith), law m (omega arith), within) refl

  window-entry :
      (h m : ℕ)
      → h ≤ 23
      → m ≤ 59
      → pair_of (int (truncate 2 (entry h m))) (int (after_three (entry h m))) ≡ some (pos h, pos m)
  unfolding truncate
  window-entry h m p q = rw (law h (omega arith), law m (omega arith)) refl

  validate_time_again :
      (raw e : String)
      → validate_time int raw ≡ some e
      → (validate_time int e ≡ some e)
        × (pair_of (int (truncate 2 e)) (int (after_three e))
            ≡ pair_of (int (partition 58 raw).0) (int (partition 58 raw).1))
  validate_time_again raw e k =
      let (h, m, a, b, p, q, written) = validate_time-IsWindow raw e k in
      (
        subst (λ t. validate_time int t ≡ some t) (sym written) (validate_time-entry h m p q),
        rw (written, a, b) (window-entry h m p q),
      )

  -- The times of the settings, once they are checked and normalised, pass the check again without
  -- a change, and the scheduler's windows are the hours and minutes that were written.
  pub validate_schedule_times_again :
      (times normalized : List String)
      → validate_schedule_times int times ≡ some normalized
      → (validate_schedule_times int normalized ≡ some normalized)
        × (scrape_windows int normalized ≡ written_windows int times)
  unfolding validate_schedule_times scrape_windows
  validate_schedule_times_again [] normalized k =
      let empty : normalized ≡ [] = sym (some-injective [] normalized k) in rw empty (refl, refl)
  validate_schedule_times_again (raw ∷ times) normalized k =
      let (e, es, accepted, rest, made) =
        cons_some_parts (validate_time int raw) (validate_schedule_times int times) normalized k in
      let (again, windows) = validate_time_again raw e accepted in
      let (agains, all) = validate_schedule_times_again times es rest in
      subst
        (λ ts.
          (validate_schedule_times int ts ≡ some ts)
          × (scrape_windows int ts ≡ written_windows int (raw ∷ times)))
        (sym made) (rw (again, agains) refl, rw (windows, all) refl)
