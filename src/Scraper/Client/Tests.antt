-- ===== src/Scraper/Client/Tests.antt =====
-- A fetch that meets a transport error, then a 503, then a success; and one that is refused.
use help_me_bid_backend.Base.{ℕ, zero, suc, ◌≡◌, refl, [], ◌∷◌}
use help_me_bid_backend.Scraper.Stages.{ok, err, unexpected}
use help_me_bid_backend.Scraper.Client.{
  Response, Reply, transport_error, request_error, answered, Source, fetch, fetch_from, payload_of,
  refused,
}
use help_me_bid_backend.Scraper.Client.Retries.{IsSettled, fetch-IsSettled}

abbrev answer : ℕ → Response
answer status = record { status_code = status; text = "{}"; content_type = "application/json" }

abbrev flaky : ℕ → Reply
flaky zero = transport_error
flaky (suc zero) = transport_error
flaky (suc (suc zero)) = answered (answer 503)
flaky (suc (suc (suc n))) = answered (answer 200)

abbrev source : Source
source = record {
  max_retries = 3;
  url = "u";
  reply = flaky;
  now = λ n. n;
  hash = λ s. "h";
  str = λ n. "n";
}

checks : Unit {0}
unfolding fetch fetch_from
checks = tt

third_succeeds :
    fetch source
    ≡ record { result = ok (payload_of source 3 (answer 200)); requests = 3; waits = 1 ∷ 2 ∷ [] }
unfolding checks
third_succeeds = refl

-- With one retry the second attempt is the last, and its status is an error.
second_is_last : fetch (record source { max_retries = 1 }) ≡ record {
  result = err (refused (record source { max_retries = 1 }) (answer 503));
  requests = 2;
  waits = 1 ∷ [];
}
unfolding checks
second_is_last = refl

missing_is_final :
    fetch (record source { reply = λ n. answered (answer 404) })
    ≡ record { result = err (refused source (answer 404)); requests = 1; waits = [] }
unfolding checks
missing_is_final = refl

-- A 505 is not tried again, and neither is a reply of too many redirects.
unsupported_is_final : (fetch (record source { reply = λ n. answered (answer 505) })).requests ≡ 1
unfolding checks
unsupported_is_final = refl

redirects_escape :
    fetch (record source { reply = λ n. request_error "redirects" })
    ≡ record { result = err (unexpected "redirects"); requests = 1; waits = [] }
unfolding checks
redirects_escape = refl

fetch-IsSettled_example : IsSettled source 1 (fetch source)
fetch-IsSettled_example = fetch-IsSettled source
