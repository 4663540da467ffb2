-- ===== src/Http/RateLimit/Tests.antt =====
-- Tests of the token buckets of typescript/src/http/rate-limit.ts, and the theorems at them.
use licensing.Common.{ℕ, ◌≤◌, ◌*◌, ◌≡◌, refl, String, false, none, some, List, [], ◌∷◌, arith}
use licensing.Http.{HttpMethod, HandlerRequest}
use licensing.Http.RateLimit.{
  RateLimitOptions, bucket_of, refill, retry_after, take_token, default_key, rate_limit,
}
use licensing.Http.RateLimit.Bound.{serve, rate_limit-bound}
use licensing.Http.RateLimit.Retry.{retry_after-enough}
use licensing.Table

-- Two requests at once, and half a token per second.
abbrev slow : RateLimitOptions
slow = record { burst = 2; refill_per_sec = 500; key_fn = default_key; skip_public = false }

abbrev request_from : String → HandlerRequest
request_from address = record {
  method = HttpMethod.get;
  path = "/health";
  query = [];
  headers = [];
  body = none;
  remote_addr = address;
  subject = none;
}

abbrev trace : List (ℕ × HandlerRequest)
trace =
    (5000, request_from "a")
    ∷ (5100, request_from "b")
    ∷ (5200, request_from "a")
    ∷ (5300, request_from "a")
    ∷ (7200, request_from "a")
    ∷ []

served : (serve slow "a" trace (0, [])).0 ≡ 3
unfolding serve rate_limit take_token bucket_of refill retry_after Table.get Table.set
served = refl

rate_limit-bound_example : (serve slow "a" trace (0, [])).0 * 1000000 ≤ 3100000
unfolding Table.get
rate_limit-bound_example =
    rate_limit-bound slow "a" trace [] 5000 7200 (5200 ∷ 5300 ∷ 7200 ∷ []) refl refl refl
      (omega arith, (omega arith, (omega arith, refl)))

-- A tenth of a token is left: after two seconds the bucket has a whole one.
retry_after-enough_example :
    (take_token slow 7200 (some (record { tokens = 100000; last_refill_ms = 5200 }))).0 ≡ none
unfolding take_token
retry_after-enough_example =
    retry_after-enough slow 5200 2 7200 (some (record { tokens = 0; last_refill_ms = 5000 }))
      (record { tokens = 100000; last_refill_ms = 5200 }) (omega arith) (omega arith) refl
      (omega arith)
