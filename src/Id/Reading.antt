-- ===== src/Id/Reading.antt =====
-- `Clock` of typescript/src/id.ts. A reading may differ from call to call: it is a function of the
-- moment, the number of readings made before it.
use licensing.Common.{ℕ}
use licensing.Types.{Instant}
use licensing.Id.Iso.{iso_from_ms}

pub record Clock : Type 0 where
  pub now_ms : ℕ → ℕ
  pub now_iso : ℕ → Instant

-- `systemClock`, over the readings of `Date.now`.
unfoldable pub system_clock : (ℕ → ℕ) → Clock
system_clock date_now = record { now_ms = date_now; now_iso = λ t. iso_from_ms (date_now t) }

-- `createFixedClock`, with the milliseconds that `Date.parse` reads in `iso`.
unfoldable pub fixed_clock : Instant → ℕ → Clock
fixed_clock iso ms = record { now_ms = λ _. ms; now_iso = λ _. iso }
