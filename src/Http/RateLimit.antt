-- ===== src/Http/RateLimit.antt =====
-- Token buckets: typescript/src/http/rate-limit.ts, for a whole number of tokens in the burst and
-- a rate in whole thousandths of a token per second. The float `tokens` is exact here: it is counted
-- in millionths of a token, of which a millisecond refills `refill_per_sec`.
pub mod Bound
pub mod Retry
mod Tests
use Prim.Native.Nat.{min, max}
use licensing.Common.{
  ℕ, ◌+◌, ◌-◌, ◌*◌, ◌/◌, String, Bool, ◌&&◌, ◌==◌, Option, none, some, [], ◌∷◌, if◌then◌else◌, ltb,
  opt_text_eq,
}
use licensing.Id.Digits.{decimal_text}
use licensing.Errors.{Result, ok}
use licensing.Table
use licensing.Table.{Table}
use licensing.Http.{HandlerRequest, HandlerResponse, Handler}
use licensing.Http.Envelope.{err_response}

-- `Bucket`: millionths of a token, and the instant of the last refill.
pub record Bucket : Type 0 where
  pub tokens : ℕ
  pub last_refill_ms : ℕ

-- `RateLimitOptions`, with the clock and the store passed on their own; both numbers are positive,
-- and `refill_per_sec` counts thousandths of a token: 500 is half a token per second.
pub record RateLimitOptions : Type 0 where
  pub burst : ℕ
  pub refill_per_sec : ℕ
  pub key_fn : HandlerRequest → String
  pub skip_public : Bool

-- `defaultKey`
abbrev pub default_key : HandlerRequest → String
default_key req = req.remote_addr

-- The bucket of a key, a full one for a key that has none.
unfoldable pub bucket_of : RateLimitOptions → ℕ → Option Bucket → Bucket
bucket_of opts now none = record { tokens = opts.burst * 1000000; last_refill_ms = now }
bucket_of opts now (some bucket) = bucket

-- `refilled`, in millionths.
unfoldable pub refill : RateLimitOptions → ℕ → Bucket → ℕ
refill opts now prev =
    min (opts.burst * 1000000) (prev.tokens + (now - prev.last_refill_ms) * opts.refill_per_sec)

-- `Math.max(1, Math.ceil((1 - refilled) / refillPerSec))`
unfoldable pub retry_after : RateLimitOptions → ℕ → ℕ
retry_after opts refilled =
    let per_sec = 1000 * opts.refill_per_sec in
    max 1 ((1000000 - refilled + (per_sec - 1)) / per_sec)

-- One request on a bucket: whether it passes, or after how many seconds to come back, and the bucket
-- that is stored.
unfoldable pub take_token : RateLimitOptions → ℕ → Option Bucket → Option ℕ × Bucket
unfolding bucket_of refill retry_after
take_token opts now existing =
    let refilled = refill opts now (bucket_of opts now existing) in
    if ltb refilled 1000000
    then (some (retry_after opts refilled), record { tokens = refilled; last_refill_ms = now })
    else (none, record { tokens = refilled - 1000000; last_refill_ms = now })

-- `err(429, 'RateLimited', …)`
abbrev pub rate_limited : ℕ → HandlerResponse
rate_limited seconds =
    err_response 429 "RateLimited" "request rate limit exceeded"
      (("Retry-After", decimal_text seconds) ∷ [])

-- The middleware that `rateLimit` builds, at the instant `now`, before the handler `next`.
unfoldable pub rate_limit :
    {S : Type 0}
    → RateLimitOptions
    → ℕ
    → HandlerRequest
    → Handler S
    → S × Table Bucket
    → Result HandlerResponse × (S × Table Bucket)
rate_limit opts now req next (s, store) =
    let through = next req s in
    let (refused, bucket) = take_token opts now (Table.get (opts.key_fn req) store) in
    let stored = Table.set (opts.key_fn req) bucket store in
    if opts.skip_public && opt_text_eq (Table.get "x-licensing-route-public" req.headers) (some "1")
    then (through.0, (through.1, store))
    else elim refused [
      | some seconds ↦ (ok (rate_limited seconds), (s, stored))
      | none ↦ (through.0, (through.1, stored))
    ]
