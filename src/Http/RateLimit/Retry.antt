-- ===== src/Http/RateLimit/Retry.antt =====
-- The `Retry-After` of typescript/src/http/rate-limit.ts is long enough.
use Prim.Native.Nat.{max}
use native.Mathlib.Nat.{div-add-mod, mod-lt, le-max_right, mul-le-mul_right, mul_comm, mul_assoc}
use licensing.Common.{ℕ, ◌+◌, ◌-◌, ◌*◌, ◌/◌, ◌≤◌, ◌<◌, ◌≡◌, none, some, Option, arith, ap}
use licensing.Http.RateLimit.{Bucket, RateLimitOptions, bucket_of, refill, retry_after, take_token}

-- A quotient that is rounded up.
le-ceil_mul : (x d : ℕ) → 0 < d → x ≤ (x + (d - 1)) / d * d
le-ceil_mul x d h =
    let n = x + (d - 1) in omega (arith, div-add-mod n d, mod-lt n h, mul_comm d (n / d))

-- The wait covers what is missing of a token.
retry_after-covers :
    (opts : RateLimitOptions) (refilled : ℕ)
    → 0 < opts.refill_per_sec
    → 1000000 ≤ refilled + retry_after opts refilled * 1000 * opts.refill_per_sec
unfolding retry_after
retry_after-covers opts refilled h =
    let per_sec = 1000 * opts.refill_per_sec in
    let rounded = (1000000 - refilled + (per_sec - 1)) / per_sec in
    omega (
      arith,
      le-ceil_mul (1000000 - refilled) per_sec (omega arith),
      mul-le-mul_right per_sec (le-max_right 1 rounded),
      mul_assoc (max 1 rounded) 1000 opts.refill_per_sec,
    )

-- A refusal keeps the refilled bucket.
refused-cases :
    (opts : RateLimitOptions) (now seconds : ℕ) (existing : Option Bucket) (bucket : Bucket)
    → take_token opts now existing ≡ (some seconds, bucket)
    → (bucket.last_refill_ms ≡ now) × (seconds ≡ retry_after opts bucket.tokens)
unfolding take_token
refused-cases opts now seconds existing bucket h = ground arith

refill-min :
    (opts : RateLimitOptions) (later : ℕ) (bucket : Bucket)
    → 0 < opts.burst
    → 1000000 ≤ bucket.tokens + (later - bucket.last_refill_ms) * opts.refill_per_sec
    → 1000000 ≤ refill opts later bucket
unfolding refill
refill-min opts later bucket b h = omega arith

take_token-passes :
    (opts : RateLimitOptions) (later : ℕ) (bucket : Bucket)
    → 1000000 ≤ refill opts later bucket
    → (take_token opts later (some bucket)).0 ≡ none
unfolding take_token bucket_of
take_token-passes opts later bucket h = ground arith

-- With a positive burst and a positive refill_per_sec, in thousandths of a token, a request
-- that comes at least the seconds of the Retry-After later than the refused one, on the bucket
-- that the refusal stored, passes.
pub retry_after-enough :
    (opts : RateLimitOptions) (now seconds later : ℕ) (existing : Option Bucket) (bucket : Bucket)
    → 0 < opts.burst
    → 0 < opts.refill_per_sec
    → take_token opts now existing ≡ (some seconds, bucket)
    → now + seconds * 1000 ≤ later
    → (take_token opts later (some bucket)).0 ≡ none
retry_after-enough opts now seconds later existing bucket b r h wait =
    let (at, told) = refused-cases opts now seconds existing bucket h in
    let covered = retry_after-covers opts bucket.tokens r in
    let waited : seconds * 1000 ≤ later - bucket.last_refill_ms = omega (arith, at, wait) in
    let paid = mul-le-mul_right opts.refill_per_sec waited in
    let same = ap (λ (t : ℕ). t * 1000 * opts.refill_per_sec) told in
    take_token-passes opts later bucket
      (refill-min opts later bucket b (omega (arith, covered, paid, same)))
