-- ===== src/Scraper/Client/Retries.antt =====
-- How the retry loop of `ScraperHTTPClient.fetch` (app/services/scraper/client.py) ends.
use Prim.Native.Nat.{◌^◌}
use help_me_bid_backend.Base.{
  ℕ, zero, suc, ◌+◌, ◌-◌, ◌≤◌, ◌<◌, ◌≡◌, refl, ap, subst, ltb, ◌&&◌, Bool, true, false, String,
  List, [], ◌∷◌, arith, inl, inr, ◌⊎◌, Bool-cases, if◌then◌else◌,
}
use help_me_bid_backend.Scraper.Stages.{RawPayload, Result, ok, err, unexpected}
use help_me_bid_backend.Scraper.Client.{
  Response, Reply, transport_error, request_error, answered, Source, Fetch, is_retryable,
  is_success, payload_of, refused, exhausted, ended, after_wait, fetch_from, fetch,
}

-- The attempt is followed by another, if there is one.
abbrev pub is_transient : Source → ℕ → Bool
is_transient s n = elim (s.reply n) [
  | transport_error ↦ true
  | request_error m ↦ false
  | answered r ↦ is_retryable r.status_code && ltb n (s.max_retries + 1)
]

-- What the fetch makes of the reply that ends it.
abbrev pub verdict : Source → ℕ → Reply → Result RawPayload
verdict s n transport_error = err (exhausted s)
verdict s n (request_error m) = err (unexpected m)
verdict s n (answered r) = if is_success r then ok (payload_of s n r) else err (refused s r)

-- Waits that double, from the one after the given attempt.
unfoldable pub backoffs : (attempt count : ℕ) → List ℕ
backoffs attempt zero = []
backoffs attempt (suc n) = 2 ^ (attempt - 1) ∷ backoffs (suc attempt) n

-- The attempt `last` ended the fetch, which began with the attempt `attempt`.
pub record IsSettled (s : Source) (attempt : ℕ) (f : Fetch) : Type 0 where
  pub last : ℕ
  pub begun : attempt ≤ last
  pub within : last ≤ s.max_retries + 1
  pub requests : f.requests ≡ last
  pub earlier : (n : ℕ) → attempt ≤ n → n < last → is_transient s n ≡ true
  pub final : last < s.max_retries + 1 → is_transient s last ≡ false
  pub result : f.result ≡ verdict s last (s.reply last)
  pub waits : f.waits ≡ backoffs attempt (last - attempt)

-- The fetch ends with the first attempt.
ended-IsSettled :
    (s : Source) (attempt : ℕ) (result : Result RawPayload)
    → attempt ≤ s.max_retries + 1
    → (attempt < s.max_retries + 1 → is_transient s attempt ≡ false)
    → result ≡ verdict s attempt (s.reply attempt)
    → IsSettled s attempt (ended attempt result)
unfolding backoffs
ended-IsSettled s attempt result h final e = record {
  last = attempt;
  begun = omega arith;
  within = h;
  requests = refl;
  earlier = λ n low high. absurd (omega (arith, low, high));
  final = final;
  result = e;
  waits = let none_left : attempt - attempt ≡ 0 = omega arith in rw none_left refl;
}

-- One more attempt in front.
after_wait-IsSettled :
    (s : Source) (attempt : ℕ) (rest : Fetch)
    → attempt < s.max_retries + 1
    → is_transient s attempt ≡ true
    → IsSettled s (suc attempt) rest
    → IsSettled s attempt (after_wait s attempt rest)
unfolding backoffs
after_wait-IsSettled s attempt rest h retried r =
    let more : ltb attempt (s.max_retries + 1) ≡ true = ground arith in
    rw more (record {
      last = r.last;
      begun = omega (arith, r.begun);
      within = r.within;
      requests = r.requests;
      earlier = λ n low high. elim (Bool-cases (ltb attempt n)) [
        | inl later ↦ r.earlier n (ground arith) high
        | inr first ↦
            let same : attempt ≡ n = ground arith in
            subst (λ k. is_transient s k ≡ true) same retried
      ];
      final = r.final;
      result = r.result;
      waits =
          let one_more : r.last - attempt ≡ suc (r.last - suc attempt) = omega (arith, r.begun) in
          rw one_more (ap (λ ws. 2 ^ (attempt - 1) ∷ ws) r.waits);
    })

Reply-cases :
    (r : Reply)
    → (r ≡ transport_error)
      ⊎ ((m : String) × (r ≡ request_error m))
      ⊎ ((a : Response) × (r ≡ answered a))
Reply-cases transport_error = inl refl
Reply-cases (request_error m) = inr (inl (m, refl))
Reply-cases (answered a) = inr (inr (a, refl))

module _ (s : Source) (attempt : ℕ) where
  answered_last :
      (a : Response)
      → attempt ≤ s.max_retries + 1
      → s.reply attempt ≡ answered a
      → is_transient s attempt ≡ false
      → IsSettled s attempt
          (ended attempt (if is_success a then ok (payload_of s attempt a) else err (refused s a)))
  answered_last a h e final =
      ended-IsSettled s attempt
        (if is_success a then ok (payload_of s attempt a) else err (refused s a)) h (λ _. final)
        (rw e refl)

  escaped_last :
      (m : String)
      → attempt ≤ s.max_retries + 1
      → s.reply attempt ≡ request_error m
      → IsSettled s attempt (ended attempt (err (unexpected m)))
  escaped_last m h e =
      ended-IsSettled s attempt (err (unexpected m)) h (λ _. rw (e, is_transient) refl) (rw e refl)

  fetch_from_last :
      attempt ≡ s.max_retries + 1 → IsSettled s attempt (fetch_from s (suc zero) attempt)
  unfolding fetch_from
  fetch_from_last h =
      let over : ltb attempt (s.max_retries + 1) ≡ false = ground arith in
      let back : suc attempt - 1 ≡ attempt = omega arith in
      elim (Reply-cases (s.reply attempt)) [
        | inl e ↦
            rw (e, over, back, fetch_from)
              (ended-IsSettled s attempt (err (exhausted s)) (omega arith)
                (λ k. absurd (omega (arith, k))) (rw e refl))
        | inr (inl (m, e)) ↦ rw (e, fetch_from) (escaped_last m (omega arith) e)
        | inr (inr (a, e)) ↦
            let final : (is_retryable a.status_code && ltb attempt (s.max_retries + 1)) ≡ false =
              ground arith in
            rw (e, final, fetch_from) (answered_last a (omega arith) e (rw (e, is_transient) final))
      ]

  fetch_from_more :
      (left : ℕ)
      → attempt < s.max_retries + 1
      → IsSettled s (suc attempt) (fetch_from s left (suc attempt))
      → IsSettled s attempt (fetch_from s (suc left) attempt)
  unfolding fetch_from
  fetch_from_more left h ih =
      let again = fetch_from s left (suc attempt) in
      let more : ltb attempt (s.max_retries + 1) ≡ true = ground arith in
      elim (Reply-cases (s.reply attempt)) [
        | inl e ↦
            rw (e, fetch_from)
              (after_wait-IsSettled s attempt again h (rw (e, is_transient) refl) ih)
        | inr (inl (m, e)) ↦ rw (e, fetch_from) (escaped_last m (omega arith) e)
        | inr (inr (a, e)) ↦ elim (Bool-cases (is_retryable a.status_code)) [
          | inl retried ↦
              let again_at : (is_retryable a.status_code && ltb attempt (s.max_retries + 1))
                  ≡ true =
                ground arith in
              rw (e, again_at, fetch_from)
                (after_wait-IsSettled s attempt again h (rw (e, retried, more, is_transient) refl)
                  ih)
          | inr settled ↦
              rw (e, settled, fetch_from)
                (answered_last a (omega arith) e (rw (e, settled, is_transient) refl))
        ]
      ]

fetch_from-IsSettled :
    (s : Source) (left attempt : ℕ)
    → attempt + left ≡ s.max_retries + 1
    → IsSettled s attempt (fetch_from s (suc left) attempt)
fetch_from-IsSettled s zero attempt h = fetch_from_last s attempt (omega arith)
fetch_from-IsSettled s (suc left) attempt h =
    fetch_from_more s attempt (suc left) (omega arith)
      (fetch_from-IsSettled s left (suc attempt) (omega arith))

-- A fetch makes at least one request and at most one more than the configured retries. Every
-- request but the last met a transport error or one of the statuses 408, 425, 429, 500, 502, 503
-- and 504; the last one did not, unless no attempt was left, so another status, a 501 or a 505 as
-- well as a 404, ends it; and so does another exception of the library, which escapes. The result
-- is the last reply's: its payload when it was a success, an error otherwise. It waits once between
-- two requests, and each wait is twice the one before.
pub fetch-IsSettled : (s : Source) → IsSettled s 1 (fetch s)
unfolding fetch
fetch-IsSettled s =
    let one_more : s.max_retries + 1 ≡ suc s.max_retries = omega arith in
    rw one_more (fetch_from-IsSettled s s.max_retries 1 (omega arith))
