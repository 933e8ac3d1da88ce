-- ===== src/Scraper/Client.antt =====
-- `ScraperHTTPClient.fetch` of app/services/scraper/client.py. The HTTP library is the list of
-- its replies: `reply n` answers the n-th attempt. Beside the result, a fetch has the number of
-- requests made and the waits between them, in units of the back-off setting.
mod Tests
pub mod Retries
use Prim.Native.Nat.{◌^◌}
use Prim.Native.String.{◌++◌ as ◌^^◌}
use help_me_bid_backend.Base.{
  ℕ, zero, suc, ◌+◌, ◌-◌, ◌==◌, ◌&&◌, ◌||◌, leb, ltb, String, Bool, List, [], ◌∷◌, if◌then◌else◌,
}
use help_me_bid_backend.Scraper.Stages.{
  RawPayload, Exception, fetch_error, unexpected, Result, ok, err,
}

pub record Response : Type 0 where
  pub status_code : ℕ
  pub text : String
  pub content_type : String

-- `request_error` is any other exception of the library, as for too many redirects or a body that
-- cannot be decoded: it escapes from `fetch`.
pub data Reply : Type 0 where
  transport_error : Reply
  request_error : (message : String) → Reply
  answered : Response → Reply

-- What a fetch takes from outside: the setting, the URL, the library's replies, the clock, the
-- hash, and `str` of a number.
pub record Source : Type 0 where
  pub max_retries : ℕ
  pub url : String
  pub reply : ℕ → Reply
  pub now : ℕ → ℕ
  pub hash : String → String
  pub str : ℕ → String

-- `RETRYABLE_STATUS`
abbrev pub is_retryable : ℕ → Bool
is_retryable s = s == 408 || s == 425 || s == 429 || s == 500 || s == 502 || s == 503 || s == 504

-- `response.is_success` of the library: a status from 200 to 299.
abbrev pub is_success : Response → Bool
is_success r = leb 200 r.status_code && leb r.status_code 299

abbrev pub payload_of : Source → ℕ → Response → RawPayload
payload_of s attempt r = record {
  url = s.url;
  content = r.text;
  content_type = r.content_type;
  http_status = r.status_code;
  fetched_at = s.now attempt;
  content_hash = s.hash r.text;
}

pub record Fetch : Type 0 where
  pub result : Result RawPayload
  pub requests : ℕ
  pub waits : List ℕ

abbrev pub refused : Source → Response → Exception
refused s r = fetch_error ("Upstream returned HTTP " ^^ (s.str r.status_code ^^ (" for " ^^ s.url)))

abbrev pub exhausted : Source → Exception
exhausted s =
    fetch_error
      ("Failed to fetch " ^^ (s.url ^^ (" after " ^^ (s.str (s.max_retries + 1) ^^ " attempts"))))

abbrev pub ended : ℕ → Result RawPayload → Fetch
ended attempt result = record { result = result; requests = attempt; waits = [] }

-- The end of a turn that did not settle the fetch: the wait, unless it was the last attempt, and
-- what the attempts that are left bring.
abbrev pub after_wait : Source → ℕ → Fetch → Fetch
after_wait s attempt rest =
    if ltb attempt (s.max_retries + 1)
    then record rest { waits = 2 ^ (attempt - 1) ∷ rest.waits }
    else rest

-- The attempts from the given one on, of which there are `left`.
unfoldable pub fetch_from : Source → (left attempt : ℕ) → Fetch
fetch_from s zero attempt = ended (attempt - 1) (err (exhausted s))
fetch_from s (suc left) attempt =
    let rest = after_wait s attempt (fetch_from s left (suc attempt)) in
    elim (s.reply attempt) [
      | transport_error ↦ rest
      | request_error m ↦ ended attempt (err (unexpected m))
      | answered r ↦
          if is_retryable r.status_code && ltb attempt (s.max_retries + 1)
          then rest
          else ended attempt
              (if is_success r then ok (payload_of s attempt r) else err (refused s r))
    ]

unfoldable pub fetch : Source → Fetch
unfolding fetch_from
fetch s = fetch_from s (s.max_retries + 1) 1
