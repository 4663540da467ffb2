-- ===== src/Lifecycle/Status.antt =====
-- `effectiveStatus` of typescript/src/lifecycle.ts over time.
use licensing.Common.{
  ℕ, ◌≤◌, ◌≡◌, true, Option, none, some, arith, inl, inr, Bool-cases, text_lt, text_lt_trans,
}
use licensing.Types.{License, LicenseStatus, Instant}
use licensing.Storage.Licenses.{license_patched}
use licensing.Lifecycle.{is_past, is_ahead, timed_status, effective_status, status_patch}

-- How far a license has run out: an active license, one in grace, an expired one.
abbrev pub lapse : LicenseStatus → ℕ
lapse LicenseStatus.grace = 1
lapse LicenseStatus.expired = 2
lapse _ = 0

-- What has passed stays past, and what is ahead was ahead before.
pub is_past-later :
    (bound : Option Instant) (t u : Instant)
    → text_lt t u ≡ true
    → is_past bound t ≡ true
    → is_past bound u ≡ true
unfolding is_past
is_past-later none t u h e = cc
is_past-later (some b) t u h e = elim (Bool-cases (text_lt u b)) [
  | inl ahead ↦ absurd (ground (arith, text_lt_trans t u b h ahead))
  | inr past ↦ ground arith
]

pub is_ahead-earlier :
    (bound : Option Instant) (t u : Instant)
    → text_lt t u ≡ true
    → is_ahead bound u ≡ true
    → is_ahead bound t ≡ true
unfolding is_ahead
is_ahead-earlier none t u h e = cc
is_ahead-earlier (some b) t u h e = text_lt_trans t u b h e

timed_status-later :
    (l : License) (t u : Instant)
    → lapse l.status ≤ 1
    → text_lt t u ≡ true
    → lapse (timed_status l t) ≤ lapse (timed_status l u)
unfolding timed_status
timed_status-later l t u live h =
    ground (arith, is_past-later l.expires_at t u h, is_ahead-earlier l.grace_until t u h)

-- At a later instant a license has run out at least as far as at an earlier one, in the order
-- active, grace, expired.
pub effective_status-monotone :
    (l : License) (t u : Instant)
    → text_lt t u ≡ true
    → lapse (effective_status l t) ≤ lapse (effective_status l u)
unfolding effective_status
effective_status-monotone l t u h =
    ground (arith, λ (live : lapse l.status ≤ 1). timed_status-later l t u live h)

-- The status that a tick has made is the one that the license then has at the same instant.
pub effective_status-patched :
    (l : License) (t now : Instant)
    → effective_status (license_patched l (status_patch (effective_status l now)) t) now
      ≡ effective_status l now
unfolding effective_status timed_status
effective_status-patched l t now = ground arith
