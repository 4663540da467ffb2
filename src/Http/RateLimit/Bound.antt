-- ===== src/Http/RateLimit/Bound.antt =====
-- How many requests a bucket of typescript/src/http/rate-limit.ts lets through.
use native.Mathlib.Nat.{min-le_right, add-mul}
use licensing.Common.{
  String, ◌==◌, eq_iff, false, Bool-cases, if◌then◌else◌, ℕ, suc, ◌+◌, ◌-◌, ◌*◌, ◌≤◌, ◌≡◌, refl,
  sym, ap, ◌∙◌, Option, none, some, List, [], ◌∷◌, arith, inl, inr,
}
use licensing.Errors.{ok}
use licensing.Table
use licensing.Table.{Table}
use licensing.Http.{HandlerRequest, Handler}
use licensing.Http.Envelope.{no_content}
use licensing.Http.RateLimit.{rate_limit, Bucket, RateLimitOptions, refill, take_token}

-- Requests of one key at the given instants, one after the other: how many pass.
unfoldable pub admitted : RateLimitOptions → Option Bucket → List ℕ → ℕ
admitted opts bucket [] = 0
admitted opts bucket (now ∷ later) =
    let (refused, next) = take_token opts now bucket in
    let rest = admitted opts (some next) later in elim refused [ none ↦ suc rest | some _ ↦ rest ]

-- The instants do not go back, and the last one is `finish`.
abbrev pub RunsTo : ℕ → ℕ → List ℕ → Type 0
RunsTo start finish [] = start ≡ finish
RunsTo start finish (now ∷ later) = (start ≤ now) × RunsTo now finish later

refill-le :
    (opts : RateLimitOptions) (now : ℕ) (bucket : Bucket)
    → refill opts now bucket ≤ bucket.tokens + (now - bucket.last_refill_ms) * opts.refill_per_sec
unfolding refill
refill-le opts now bucket = omega (
  arith,
  min-le_right (opts.burst * 1000000)
      (bucket.tokens + (now - bucket.last_refill_ms) * opts.refill_per_sec),
)

-- What a request costs, in millionths of a token.
abbrev cost : Option ℕ → ℕ
cost none = 1000000
cost (some seconds) = 0

-- A request that passes takes a token, and time brings no more than its share.
take_token-bound :
    (opts : RateLimitOptions) (now : ℕ) (bucket : Bucket)
    → let (refused, next) = take_token opts now (some bucket) in
      (next.last_refill_ms ≡ now)
      × (cost refused + next.tokens
          ≤ bucket.tokens + (now - bucket.last_refill_ms) * opts.refill_per_sec)
unfolding take_token
take_token-bound opts now bucket = ground (arith, refill-le opts now bucket)

RunsTo-le : (start finish : ℕ) (instants : List ℕ) → RunsTo start finish instants → start ≤ finish
RunsTo-le start finish [] h = omega arith
RunsTo-le start finish (now ∷ later) h = omega (arith, RunsTo-le now finish later h.1)

-- The time from `a` to `c`, through `b`, at `r` a unit.
share_split : (a b c r : ℕ) → a ≤ b → b ≤ c → (b - a) * r + (c - b) * r ≡ (c - a) * r
share_split a b c r h k = sym (add-mul (b - a) (c - b) r) ∙ ap (λ (t : ℕ). t * r) (omega arith)

-- What passes from a bucket is paid by its tokens and by the time that goes by.
admitted-le :
    (opts : RateLimitOptions) (bucket : Bucket) (finish : ℕ) (instants : List ℕ)
    → RunsTo bucket.last_refill_ms finish instants
    → admitted opts (some bucket) instants * 1000000
      ≤ bucket.tokens + (finish - bucket.last_refill_ms) * opts.refill_per_sec
unfolding admitted
admitted-le opts bucket finish [] h = omega arith
admitted-le opts bucket finish (now ∷ later) h =
    let step = take_token-bound opts now bucket in
    let next = (take_token opts now (some bucket)).1 in
    let rest = admitted-le opts next finish later (rw (step.0) h.1) in
    let through =
      share_split bucket.last_refill_ms now finish opts.refill_per_sec h.0
        (RunsTo-le now finish later h.1) in
    ground (arith, step, rest, through)

-- The handler behind the middleware, which counts the requests of one key.
abbrev counting : RateLimitOptions → String → Handler ℕ
counting opts key req n = (ok no_content, if opts.key_fn req == key then suc n else n)

-- Requests of any keys, each at its instant, through the middleware.
unfoldable pub serve :
    RateLimitOptions → String → List (ℕ × HandlerRequest) → ℕ × Table Bucket → ℕ × Table Bucket
serve opts key [] w = w
serve opts key ((now, req) ∷ later) w =
    serve opts key later (rate_limit opts now req (counting opts key) w).1

-- The instants of the requests of a key.
abbrev pub instants_of : RateLimitOptions → String → List (ℕ × HandlerRequest) → List ℕ
instants_of opts key [] = []
instants_of opts key ((now, req) ∷ later) =
    let rest = instants_of opts key later in if opts.key_fn req == key then now ∷ rest else rest

rate_limit-counting :
    (opts : RateLimitOptions) (key : String) (now : ℕ) (req : HandlerRequest) (n : ℕ)
    (store : Table Bucket)
    → opts.skip_public ≡ false
    → let k = opts.key_fn req in
      let (refused, bucket) = take_token opts now (Table.get k store) in
      (rate_limit opts now req (counting opts key) (n, store)).1 ≡ (
        (elim refused [ none ↦ (if k == key then suc n else n) | some _ ↦ n ]),
        Table.set k bucket store,
      )
unfolding rate_limit
rate_limit-counting opts key now req n store h = ground arith

-- The requests of a key depend on its bucket only.
serve-admitted :
    (opts : RateLimitOptions) (key : String) (trace : List (ℕ × HandlerRequest)) (n : ℕ)
    (store : Table Bucket)
    → opts.skip_public ≡ false
    → (serve opts key trace (n, store)).0
      ≡ n + admitted opts (Table.get key store) (instants_of opts key trace)
unfolding serve admitted
serve-admitted opts key [] n store h = omega arith
serve-admitted opts key ((now, req) ∷ later) n store h =
    let k = opts.key_fn req in
    let bucket = (take_token opts now (Table.get k store)).1 in
    let step = rate_limit-counting opts key now req n store h in
    let kept = Table.get-set k key bucket store in
    let ih = λ (m : ℕ). serve-admitted opts key later m (Table.set k bucket store) h in
    elim (Bool-cases (opts.key_fn req == key)) [
      | inl same ↦
          let found = ap (λ (j : String). Table.get j store) ((eq_iff k key).0 same) in
          ap (λ (v : ℕ × Table Bucket). (serve opts key later v).0) step
          ∙ ground (arith, kept, found, ih n, ih (suc n))
      | inr other ↦
          ap (λ (v : ℕ × Table Bucket). (serve opts key later v).0) step
          ∙ ground (arith, kept, ih n, ih (suc n))
    ]

-- Of any sequence of requests at instants that do not go back, with any keys, the middleware
-- with skip_public off lets through at most burst, and refill_per_sec thousandths for each
-- second between the first and the last, of the requests of a key that has no bucket at the
-- start.
pub rate_limit-bound :
    (opts : RateLimitOptions) (key : String) (trace : List (ℕ × HandlerRequest))
    (store : Table Bucket) (begin finish : ℕ) (later : List ℕ)
    → opts.skip_public ≡ false
    → Table.get key store ≡ none
    → instants_of opts key trace ≡ begin ∷ later
    → RunsTo begin finish later
    → (serve opts key trace (0, store)).0 * 1000000
      ≤ opts.burst * 1000000 + (finish - begin) * opts.refill_per_sec
unfolding admitted take_token
rate_limit-bound opts key trace store begin finish later skip absent instants h =
    let full : Bucket = record { tokens = opts.burst * 1000000; last_refill_ms = begin } in
    let run = serve-admitted opts key trace 0 store skip in
    let paid = admitted-le opts full finish (begin ∷ later) (omega arith, h) in
    let shown : admitted opts (Table.get key store) (instants_of opts key trace)
        ≡ admitted opts (some full) (begin ∷ later) =
      rw (absent, instants) refl in
    omega (arith, run, shown, paid)
