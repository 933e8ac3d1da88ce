-- ===== src/RateLimit/Window.antt =====
-- What the limiter of app/core/middleware.py admits.
use help_me_bid_backend.Base.{
  ℕ, ◌+◌, ◌-◌, ◌*◌, ◌/◌, ◌≤◌, ◌<◌, ◌≡◌, ◌≢◌, ◌↔◌, refl, ap, sym, ◌∙◌, subst, true, Bool, ltb, leb,
  not, String, List, [], ◌∷◌, length, length-append, filter, arith, All, Bool-cases, inl, inr,
  str_eq,
}
use help_me_bid_backend.Dates.{second}
use help_me_bid_backend.RateLimit.{
  window, Hits, Verdict, admitted, index_error, limited, expire, refuse, admit, hits_of, with_hits,
  is_idle, prune, after_admit, dispatch,
}

-- No hit is later than the instant, and they are in order.
abbrev pub InOrder : ℕ → List ℕ → Type 0
InOrder now [] = Unit
InOrder now (h ∷ hits) = (h ≤ now) × All (λ g. h ≤ g) hits × InOrder now hits

abbrev pub within : ℕ → ℕ → Bool
within now h = leb now (h + window)

filter-within :
    (now h : ℕ) (hits : List ℕ)
    → now ≤ h + window
    → All (λ g. h ≤ g) hits
    → filter (within now) hits ≡ hits
filter-within now h [] e a = refl
filter-within now h (g ∷ hits) e a = ground (arith, filter-within now h hits e a.1, a.0)

expire_lem :
    (now : ℕ) (hits : List ℕ) → InOrder now hits → expire now hits ≡ filter (within now) hits
unfolding expire
expire_lem now [] h = refl
expire_lem now (g ∷ hits) h = ground (arith, expire_lem now hits h.2, filter-within now g hits)

refuse_lem : (now : ℕ) (hits : List ℕ) → refuse now hits ≢ admitted
refuse_lem now [] e = ground (arith, e)
refuse_lem now (h ∷ hits) e = ground (arith, e)

admit_below :
    (limit now : ℕ) (hits : List ℕ)
    → length (expire now hits) < limit
    → (admit limit now hits).0 ≡ admitted
unfolding admit
admit_below limit now hits h = ground (arith, h)

admit_above :
    (limit now : ℕ) (hits : List ℕ)
    → leb limit (length (expire now hits)) ≡ true
    → admit limit now hits ≡ (refuse now (expire now hits), expire now hits)
unfolding admit
admit_above limit now hits h = rw h refl

-- A request is admitted exactly when fewer than `limit` of the requests that were admitted for its
-- key lie in the last sixty seconds, for hits in the order of time and a limit of at least one.
pub admit_iff :
    (limit now : ℕ) (hits : List ℕ)
    → 1 ≤ limit
    → InOrder now hits
    → ((admit limit now hits).0 ≡ admitted) ↔ (length (filter (within now) hits) < limit)
admit_iff limit now hits p h =
    let same = ap length (expire_lem now hits h) in
    (
      λ e. elim (Bool-cases (leb limit (length (expire now hits)))) [
        | inl many ↦ absurd (
            refuse_lem now (expire now hits)
              (sym (ap (λ r. r.0) (admit_above limit now hits many)) ∙ e))
        | inr few ↦ ground (arith, few, same)
      ],
      λ few. admit_below limit now hits (omega (arith, few, same)),
    )

-- No key has more hits than the limit.
abbrev pub IsBounded : ℕ → Hits → Type 0
IsBounded limit all = All (λ e. length e.1 ≤ limit) all

length-expire : (now : ℕ) (hits : List ℕ) → length (expire now hits) ≤ length hits
unfolding expire
length-expire now [] = omega arith
length-expire now (h ∷ hits) = ground (arith, length-expire now hits)

admit_bounded :
    (limit now : ℕ) (hits : List ℕ) → length hits ≤ limit → length (admit limit now hits).1 ≤ limit
unfolding admit
admit_bounded limit now hits h =
    ground (arith, length-expire now hits, length-append (expire now hits) (now ∷ []))

hits_of_bounded :
    (limit : ℕ) (key : String) (all : Hits) → IsBounded limit all → length (hits_of key all) ≤ limit
hits_of_bounded limit key [] h = omega arith
hits_of_bounded limit key ((k, hits) ∷ all) h =
    ground (arith, h.0, hits_of_bounded limit key all h.1)

with_hits-IsBounded :
    (limit : ℕ) (key : String) (hits : List ℕ) (all : Hits)
    → length hits ≤ limit
    → IsBounded limit all
    → IsBounded limit (with_hits key hits all)
with_hits-IsBounded limit key hits [] h a = (h, tt)
with_hits-IsBounded limit key hits ((k, old) ∷ all) h a = elim (Bool-cases (str_eq k key)) [
  | inl same ↦ rw same (h, a.1)
  | inr other ↦ rw other (a.0, with_hits-IsBounded limit key hits all h a.1)
]

All-filter :
    (limit : ℕ) (p : String × List ℕ → Bool) (all : Hits)
    → IsBounded limit all
    → IsBounded limit (filter p all)
All-filter limit p [] h = tt
All-filter limit p (e ∷ all) h = elim (Bool-cases (p e)) [
  | inl yes' ↦ rw yes' (h.0, All-filter limit p all h.1)
  | inr no' ↦ rw no' (All-filter limit p all h.1)
]

prune-IsBounded :
    (limit now : ℕ) (all : Hits) → IsBounded limit all → IsBounded limit (prune now all)
unfolding prune
prune-IsBounded limit now all h = elim (Bool-cases (ltb (length all) 1_000)) [
  | inl few ↦ rw few h
  | inr many ↦ rw many (All-filter limit (λ e. not (is_idle now e.1)) all h)
]

after_admit-IsBounded :
    (limit now : ℕ) (key : String) (answer : Verdict × List ℕ) (all : Hits)
    → length answer.1 ≤ limit
    → IsBounded limit all
    → IsBounded limit (after_admit now key answer all).1
after_admit-IsBounded limit now key (admitted, hits) all h a =
    prune-IsBounded limit now (with_hits key hits all) (with_hits-IsBounded limit key hits all h a)
after_admit-IsBounded limit now key (index_error, hits) all h a =
    with_hits-IsBounded limit key hits all h a
after_admit-IsBounded limit now key (limited n, hits) all h a =
    with_hits-IsBounded limit key hits all h a

-- A request, refused or not and at any time, leaves no key with more recorded hits than the limit
-- if none had more before.
pub dispatch-IsBounded :
    (limit now : ℕ) (key : String) (all : Hits)
    → IsBounded limit all
    → IsBounded limit (dispatch limit now key all).1
unfolding dispatch
dispatch-IsBounded limit now key all h =
    after_admit-IsBounded limit now key (admit limit now (hits_of key all)) all
      (admit_bounded limit now (hits_of key all) (hits_of_bounded limit key all h)) h

-- The oldest hit, if there is one, lies in the window.
abbrev Recent : ℕ → List ℕ → Type 0
Recent now [] = Unit
Recent now (h ∷ hits) = (h ≤ now) × (now ≤ h + window)

expire_head : (now : ℕ) (hits : List ℕ) → InOrder now hits → Recent now (expire now hits)
unfolding expire
expire_head now [] h = tt
expire_head now (g ∷ hits) h = elim (Bool-cases (ltb (g + window) now)) [
  | inl old ↦ rw old (expire_head now hits h.2)
  | inr recent ↦ rw recent (h.0, ground (arith, recent))
]

expired_after :
    (limit now later retry_after : ℕ) (kept : List ℕ)
    → 1 ≤ limit
    → length kept ≤ limit
    → Recent now kept
    → refuse now kept ≡ limited retry_after
    → now + retry_after * second ≤ later
    → length (expire later kept) < limit
unfolding expire
expired_after limit now later retry_after [] p b h e w = omega (arith, p)
expired_after limit now later retry_after (g ∷ kept) p b h e w =
    let n : (window - (now - g)) / second + 1 ≡ retry_after = ground (arith, e) in
    let old : ltb (g + window) later ≡ true = ground (arith, n, w, h.0, h.1) in
    rw old (omega (arith, length-expire later kept, b))

-- A key that was refused, and that sends nothing for at least as long as it was told to wait, is
-- then admitted, for hits in the order of time, no more than the limit, and a limit of at least
-- one.
pub admit_after :
    (limit now later retry_after : ℕ) (hits : List ℕ)
    → 1 ≤ limit
    → length hits ≤ limit
    → InOrder now hits
    → (admit limit now hits).0 ≡ limited retry_after
    → now + retry_after * second ≤ later
    → (admit limit later (admit limit now hits).1).0 ≡ admitted
admit_after limit now later retry_after hits p b h e w =
    elim (Bool-cases (leb limit (length (expire now hits)))) [
      | inl many ↦
          let at = admit_above limit now hits many in
          let kept = expire now hits in
          subst (λ r. (admit limit later r.1).0 ≡ admitted) (sym at)
            (admit_below limit later kept (
              expired_after limit now later retry_after kept p
                (omega (arith, length-expire now hits, b)) (expire_head now hits h)
                (sym (ap (λ r. r.0) at) ∙ e) w))
      | inr few ↦ ground (arith, e, sym (admit_below limit now hits (ground (arith, few))))
    ]
