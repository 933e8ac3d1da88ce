-- ===== src/Ipos/Status.antt =====
-- The lifecycle stage of an issue: `derive_status` of app/services/ipo.py, and
-- `ipo_status_expression` of app/repositories/ipo.py as the database evaluates it. A comparison
-- with NULL is NULL, which is `none` here.
use help_me_bid_backend.Base.{
  ℕ, ◌==◌, ◌&&◌, Bool, true, false, Option, none, some, not, leb, ltb, is_some, if◌then◌else◌,
}
use help_me_bid_backend.Models.{Ipo, open_date, close_date, listing_date}

-- `IPOStatus` of app/db/enums.py
pub data IpoStatus : Type 0 where
  upcoming opened closing_today closed listed unknown : IpoStatus

-- `date is not None and test(date)`
abbrev known_and : (ℕ → Bool) → Option ℕ → Bool
known_and test none = false
known_and test (some d) = test d

abbrev missing_or : (ℕ → Bool) → Option ℕ → Bool
missing_or test none = true
missing_or test (some d) = test d

unfoldable pub derive_status : Ipo → ℕ → IpoStatus
derive_status ipo today =
    if known_and (λ d. leb d today) (ipo.columns listing_date)
    then listed
    else if known_and (λ d. d == today) (ipo.columns close_date)
    then closing_today
    else if known_and (λ d. ltb d today) (ipo.columns close_date)
    then closed
    else if known_and (λ d. leb d today) (ipo.columns open_date)
        && missing_or (λ d. leb today d) (ipo.columns close_date)
    then opened
    else if known_and (λ d. ltb today d) (ipo.columns open_date)
    then upcoming
    else unknown

-- The truth values of SQL.
abbrev Truth : Type 0
Truth = Option Bool

abbrev compared : (ℕ → Bool) → Option ℕ → Truth
compared test none = none
compared test (some d) = some (test d)

abbrev is_not_null : Option ℕ → Truth
is_not_null d = some (is_some d)

abbrev is_null : Option ℕ → Truth
is_null d = some (not (is_some d))

abbrev and_sql : Truth → Truth → Truth
and_sql (some false) _ = some false
and_sql (some true) b = b
and_sql none (some false) = some false
and_sql none _ = none

abbrev or_sql : Truth → Truth → Truth
or_sql (some true) _ = some true
or_sql (some false) b = b
or_sql none (some true) = some true
or_sql none _ = none

-- `WHEN condition THEN value ELSE rest`: NULL does not satisfy a condition.
abbrev when : Truth → IpoStatus → IpoStatus → IpoStatus
when (some true) value rest = value
when (some false) value rest = rest
when none value rest = rest

unfoldable pub ipo_status_expression : ℕ → Ipo → IpoStatus
ipo_status_expression today ipo =
    when
      (and_sql (is_not_null (ipo.columns listing_date))
        (compared (λ d. leb d today) (ipo.columns listing_date)))
      listed
      (when
        (and_sql (is_not_null (ipo.columns close_date))
          (compared (λ d. d == today) (ipo.columns close_date)))
        closing_today
        (when
          (and_sql (is_not_null (ipo.columns close_date))
            (compared (λ d. ltb d today) (ipo.columns close_date)))
          closed
          (when
            (and_sql
              (and_sql (is_not_null (ipo.columns open_date))
                (compared (λ d. leb d today) (ipo.columns open_date)))
              (or_sql (is_null (ipo.columns close_date))
                (compared (λ d. leb today d) (ipo.columns close_date))))
            opened
            (when
              (and_sql (is_not_null (ipo.columns open_date))
                (compared (λ d. ltb today d) (ipo.columns open_date)))
              upcoming unknown))))
