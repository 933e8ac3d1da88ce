-- ===== src/Scraper/Extraction/Chain.antt =====
-- Which attempt the chain of extractors returns (app/services/scraper/extractor.py).
use help_me_bid_backend.Base.{
  ◌≡◌, refl, sym, ap, ◌∙◌, subst, true, false, Option, none, some, List, [], ◌∷◌, arith, inl, inr,
  ◌⊎◌, Bool-cases, All, if◌then◌else◌,
}
use help_me_bid_backend.Scraper.Stages.{RawPayload, ExtractionResult, Exception, Result, ok, err}
use help_me_bid_backend.Scraper.Extraction.{
  Strategy, clears_bar, is_less, closest, or_nothing, try_strategies, Parsers, strategies, extract,
}

not_less_trans :
    (r c x : ExtractionResult) → is_less r c ≡ false → is_less c x ≡ false → is_less r x ≡ false
not_less_trans r c x h k = ground arith

not_less_self : (r : ExtractionResult) → is_less r r ≡ false
not_less_self r = ground arith

less_antisym : (a b : ExtractionResult) → is_less a b ≡ true → is_less b a ≡ false
less_antisym a b h = ground arith

-- The strategy takes the payload only to make an attempt that is no better.
abbrev pub IsBeaten : RawPayload → ExtractionResult → Strategy → Type 0
IsBeaten p r s =
    s.can_handle p ≡ true
    → (x : ExtractionResult) × (s.extract p ≡ ok x) × (clears_bar x ≡ false) × (is_less r x ≡ false)

-- A strategy takes the payload and makes the attempt.
abbrev pub Attempted : RawPayload → List Strategy → ExtractionResult → Type 0
Attempted p [] r = ⊥
Attempted p (s ∷ ss) r = ((s.can_handle p ≡ true) × (s.extract p ≡ ok r)) ⊎ Attempted p ss r

abbrev pub PassesBy : RawPayload → Strategy → Type 0
PassesBy p s = s.can_handle p ≡ false

-- Where a result of the chain is from: an attempt, or none when no strategy takes the payload.
abbrev pub Origin : RawPayload → Option ExtractionResult → List Strategy → ExtractionResult → Type 0
Origin p none ss r = Attempted p ss r ⊎ All (PassesBy p) ss × (r ≡ or_nothing none)
Origin p (some b) ss r = Attempted p ss r ⊎ (r ≡ b)

abbrev pub Best : RawPayload → List Strategy → ExtractionResult → Type 0
Best p ss r = Origin p none ss r × ((clears_bar r ≡ true) ⊎ All (IsBeaten p r) ss)

-- The attempts so far are no better either.
abbrev Covers : Option ExtractionResult → ExtractionResult → Type 0
Covers none r = Unit
Covers (some b) r = is_less r b ≡ false

abbrev BestSoFar :
    RawPayload → Option ExtractionResult → List Strategy → Result ExtractionResult → Type 0
BestSoFar p best ss (err x) = Unit
BestSoFar p best ss (ok r) =
    Origin p best ss r × ((clears_bar r ≡ true) ⊎ Covers best r × All (IsBeaten p r) ss)

closest-Covers :
    (best : Option ExtractionResult) (x r : ExtractionResult)
    → is_less r (closest best x) ≡ false
    → Covers best r × (is_less r x ≡ false)
closest-Covers none x r h = (tt, h)
closest-Covers (some b) x r h = elim (Bool-cases (is_less b x)) [
  | inl better ↦
      let k : is_less r x ≡ false = subst (λ t. is_less r (if t then x else b) ≡ false) better h in
      (not_less_trans r x b k (less_antisym b x better), k)
  | inr worse ↦
      let k : is_less r b ≡ false = subst (λ t. is_less r (if t then x else b) ≡ false) worse h in
      (k, not_less_trans r b x k worse)
]

Result-cases :
    (m : Result ExtractionResult)
    → ((x : Exception) × (m ≡ err x)) ⊎ ((r : ExtractionResult) × (m ≡ ok r))
Result-cases (err x) = inl (x, refl)
Result-cases (ok r) = inr (r, refl)

module _ (p : RawPayload) (s : Strategy) (ss : List Strategy) where
  first_attempt :
      (best : Option ExtractionResult) (r : ExtractionResult)
      → s.can_handle p ≡ true
      → s.extract p ≡ ok r
      → Origin p best (s ∷ ss) r
  first_attempt none r handled e = inl (inl (handled, e))
  first_attempt (some b) r handled e = inl (inl (handled, e))

  later_attempt :
      (best : Option ExtractionResult) (r : ExtractionResult)
      → Attempted p ss r
      → Origin p best (s ∷ ss) r
  later_attempt none r h = inl (inr h)
  later_attempt (some b) r h = inl (inr h)

  closest_from :
      (best : Option ExtractionResult) (x r : ExtractionResult)
      → s.can_handle p ≡ true
      → s.extract p ≡ ok x
      → r ≡ closest best x
      → Origin p best (s ∷ ss) r
  closest_from none x r handled e h = inl (inl (handled, e ∙ ap ok (sym h)))
  closest_from (some b) x r handled e h = elim (Bool-cases (is_less b x)) [
    | inl better ↦
        let same : r ≡ x = subst (λ t. r ≡ (if t then x else b)) better h in
        inl (inl (handled, e ∙ ap ok (sym same)))
    | inr worse ↦ inr (subst (λ t. r ≡ (if t then x else b)) worse h)
  ]

  passed_from_best :
      (best : Option ExtractionResult) (r : ExtractionResult)
      → s.can_handle p ≡ false
      → Origin p best ss r
      → Origin p best (s ∷ ss) r
  passed_from_best none r k (inl h) = inl (inr h)
  passed_from_best none r k (inr (h, e)) = inr ((k, h), e)
  passed_from_best (some b) r k (inl h) = inl (inr h)
  passed_from_best (some b) r k (inr e) = inr e

module _ (p : RawPayload) (s : Strategy) (ss : List Strategy) (best : Option ExtractionResult) where
  tried_from :
      (x r : ExtractionResult)
      → s.can_handle p ≡ true
      → s.extract p ≡ ok x
      → Origin p (some (closest best x)) ss r
      → Origin p best (s ∷ ss) r
  tried_from x r handled e (inl h) = later_attempt p s ss best r h
  tried_from x r handled e (inr h) = closest_from p s ss best x r handled e h

  tried_next :
      (x : ExtractionResult) (m : Result ExtractionResult)
      → s.can_handle p ≡ true
      → s.extract p ≡ ok x
      → clears_bar x ≡ false
      → BestSoFar p (some (closest best x)) ss m
      → BestSoFar p best (s ∷ ss) m
  tried_next x (err y) handled e k h = tt
  tried_next x (ok r) handled e k (o, inl clear) = (tried_from x r handled e o, inl clear)
  tried_next x (ok r) handled e k (o, inr (c, h)) =
      let (covers, beaten) = closest-Covers best x r c in
      (tried_from x r handled e o, inr (covers, (λ _. (x, e, k, beaten), h)))

  passed_over :
      (m : Result ExtractionResult)
      → s.can_handle p ≡ false
      → BestSoFar p best ss m
      → BestSoFar p best (s ∷ ss) m
  passed_over (err y) k h = tt
  passed_over (ok r) k (o, inl clear) = (passed_from_best p s ss best r k o, inl clear)
  passed_over (ok r) k (o, inr (c, h)) =
      (passed_from_best p s ss best r k o, inr (c, (λ handled. ground (arith, k, handled), h)))

or_nothing-Covers : (best : Option ExtractionResult) → Covers best (or_nothing best)
or_nothing-Covers none = tt
or_nothing-Covers (some b) = not_less_self b

nothing_from :
    (p : RawPayload) (best : Option ExtractionResult) → Origin p best [] (or_nothing best)
nothing_from p none = inr (tt, refl)
nothing_from p (some b) = inr refl

try_strategies_best :
    (p : RawPayload) (best : Option ExtractionResult) (ss : List Strategy)
    → BestSoFar p best ss (try_strategies p best ss)
unfolding try_strategies
try_strategies_best p best [] = (nothing_from p best, inr (or_nothing-Covers best, tt))
try_strategies_best p best (s ∷ ss) = elim (Bool-cases (s.can_handle p)) [
  | inr no' ↦
      rw (no', BestSoFar)
        (passed_over p s ss best (try_strategies p best ss) no' (try_strategies_best p best ss))
  | inl handled ↦ elim (Result-cases (s.extract p)) [
    | inl (x, e) ↦ rw (handled, e, BestSoFar) tt
    | inr (r, e) ↦ elim (Bool-cases (clears_bar r)) [
      | inl clear ↦
          rw (handled, e, clear, BestSoFar) (first_attempt p s ss best r handled e, inl clear)
      | inr weak ↦
          rw (handled, e, weak, BestSoFar)
            (tried_next p s ss best r (try_strategies p (some (closest best r)) ss) handled e weak
              (try_strategies_best p (some (closest best r)) ss))
    ]
  ]
]

weaken :
    (p : RawPayload) (ss : List Strategy) (m : Result ExtractionResult) (r : ExtractionResult)
    → BestSoFar p none ss m
    → m ≡ ok r
    → Best p ss r
weaken p ss m r h e =
    let (o, found) = subst (BestSoFar p none ss) e h in
    elim found [ inl clear ↦ (o, inl clear) | inr (c, k) ↦ (o, inr k) ]

-- A result of the chain, if no strategy raises, is the attempt of one of its strategies that takes
-- the payload, or the empty result when none does. Either it clears the bar of 0.35 and has rows; or
-- no strategy's attempt does, and it is the best of them: no strategy that takes the payload has a
-- higher confidence, or more records at the same one.
pub extract-Best :
    (q : Parsers) (p : RawPayload) (r : ExtractionResult)
    → extract q p ≡ ok r
    → Best p (strategies q) r
unfolding extract
extract-Best q p r h =
    weaken p (strategies q) (extract q p) r (try_strategies_best p none (strategies q)) h
