-- ===== src/Storage/Monad.antt =====
-- The state of the memory adapter and the actions on it. An action may throw; what it wrote before
-- stays written, so the world comes back beside an error too.
use licensing.Common.{ℕ, ◌+◌, Bool, Option, none, some, if◌then◌else◌}
use licensing.Table.{Table}
use licensing.Types.{
  License, LicenseScope, LicenseTemplate, LicenseUsage, LicenseKey, AuditLogEntry, TrialIssuance,
  Instant, UuidV7,
}
use licensing.Errors.{Error, Result, ok, err, ms_out_of_range}
use licensing.Id.{Clock, iso_from_ms, uuid_v7_text}
use licensing.Common.{[], ltb}

-- `State`: one `Map` from id to row for each entity.
pub record State : Type 0 where
  pub licenses : Table License
  pub scopes : Table LicenseScope
  pub templates : Table LicenseTemplate
  pub usages : Table LicenseUsage
  pub keys : Table LicenseKey
  pub audit : Table AuditLogEntry
  pub trial_issuances : Table TrialIssuance

-- `emptyState`
unfoldable pub empty_state : State
empty_state = record {
  licenses = [];
  scopes = [];
  templates = [];
  usages = [];
  keys = [];
  audit = [];
  trial_issuances = [];
}

-- The fields of `MemoryStorage`, with what it takes from outside: how often a clock has been read,
-- and the random bytes, byte `i` of draw `n` being `random n i`.
pub record World : Type 0 where
  pub state : State
  pub tx_depth : ℕ
  pub clock : Clock
  pub moment : ℕ
  pub random : ℕ → ℕ → ℕ
  pub draws : ℕ

abbrev pub Action : Type 0 → Type 0
Action A = World → Result A × World

module _ {A : Type 0} where
  abbrev pub pure : A → Action A
  pure a w = (ok a, w)

  abbrev pub throw : Error → Action A
  throw e w = (err e, w)

  abbrev pub gets : (State → A) → Action A
  gets f w = (ok (f w.state), w)

  -- A value that must be there, or the error to throw.
  abbrev pub or_throw : Option A → Error → Action A
  or_throw none e w = (err e, w)
  or_throw (some a) e w = (ok a, w)

infixl 5 ◌>>=◌ ◌>>◌
abbrev pub ◌>>=◌ : {A B : Type 0} → Action A → (A → Action B) → Action B
◌>>=◌ m f w = let (r, w') = m w in elim r [ ok a ↦ f a w' | err e ↦ (err e, w') ]

abbrev pub ◌>>◌ : {A B : Type 0} → Action A → Action B → Action B
m >> k = m >>= λ _. k

abbrev pub throw_if : Bool → Error → Action (Unit {0})
throw_if b e w = (if b then err e else ok tt, w)

-- The error that a scan of the rows came to, if any.
abbrev pub throw_found : Option Error → Action (Unit {0})
throw_found none w = (ok tt, w)
throw_found (some e) w = (err e, w)

abbrev pub modify : (State → State) → Action (Unit {0})
modify f w = (ok tt, record w { state = f w.state })

-- `clock.nowMs()` and `clock.nowIso()` of a given clock.
abbrev pub now_ms : Clock → Action ℕ
now_ms c w = (ok (c.now_ms w.moment), record w { moment = w.moment + 1 })

abbrev pub now_iso : Clock → Action Instant
now_iso c w = (ok (c.now_iso w.moment), record w { moment = w.moment + 1 })

-- The adapter's own `nowIso`, from the milliseconds of its clock.
unfoldable pub adapter_now_iso : Action Instant
adapter_now_iso w = (do ms ← now_ms w.clock; pure (iso_from_ms ms)) w

-- The random half of `newUuidV7`: ten fresh bytes beside the timestamp.
unfoldable pub draw_uuid : ℕ → Action UuidV7
draw_uuid ms w = (ok (uuid_v7_text ms (w.random w.draws)), record w { draws = w.draws + 1 })

-- `newUuidV7(this.clock)`
unfoldable pub new_uuid_v7 : Action UuidV7
unfolding draw_uuid
new_uuid_v7 w =
    (do ms ← now_ms w.clock; throw_if (ltb 0xffffffffffff ms) (ms_out_of_range ms); draw_uuid ms) w
