-- ===== src/RateLimit/Tests.antt =====
-- Three requests of one client against a limit of two (app/core/middleware.py).
use help_me_bid_backend.Base.{ℕ, ◌*◌, ◌<◌, ◌≡◌, ◌↔◌, refl, arith, List, [], ◌∷◌, length, filter}
use help_me_bid_backend.Dates.{second}
use help_me_bid_backend.RateLimit.{Hits, admitted, limited, expire, admit, prune, dispatch}
use help_me_bid_backend.RateLimit.Window.{within, admit_iff, admit_after}

limiter : Unit {0}
unfolding expire admit prune dispatch
limiter = tt

-- At 10 and 20 seconds.
abbrev two_hits : List ℕ
two_hits = 10 * second ∷ 20 * second ∷ []

abbrev one_client : Hits
one_client = ("1.2.3.4:/auth/login", two_hits) ∷ []

-- At 30 seconds the third request waits for the first hit to leave the window.
third_waits : (dispatch 2 (30 * second) "1.2.3.4:/auth/login" one_client).0 ≡ limited 41
unfolding limiter
third_waits = refl

other_client : (dispatch 2 (30 * second) "5.6.7.8:/auth/login" one_client).0 ≡ admitted
unfolding limiter
other_client = refl

admit_iff_example :
    ((admit 2 (75 * second) two_hits).0 ≡ admitted)
    ↔ (length (filter (within (75 * second)) two_hits) < 2)
admit_iff_example =
    admit_iff 2 (75 * second) two_hits (omega arith)
      (omega arith, (omega arith, tt), (omega arith, tt, tt))

refused : (admit 2 (30 * second) two_hits).0 ≡ limited 41
unfolding limiter
refused = refl

admit_after_example : (admit 2 (71 * second) (admit 2 (30 * second) two_hits).1).0 ≡ admitted
admit_after_example =
    admit_after 2 (30 * second) (71 * second) 41 two_hits (omega arith) (omega arith)
      (omega arith, (omega arith, tt), (omega arith, tt, tt)) refused (omega arith)
