-- ===== src/UsageService/Seats.antt =====
-- The seat limit of `registerUsage`, and what a registration does to the number of active seats.
use licensing.Common.{
  ℕ, ◌+◌, ◌≤◌, ◌<◌, ◌≡◌, String, Bool, true, Option, none, some, arith, inl, inr, ◌∙◌, ap,
  Option-cases, Bool-cases, leb, eq_refl, length, filter,
}
use licensing.Table
use licensing.Table.Keyed.{count-set-le, count-set_new}
use licensing.Types.{License, LicenseUsage, UuidV7, Instant}
use licensing.Errors.{ok}
use licensing.Id.{Clock, uuid_v7_text}
use licensing.Storage.Monad.{State, World}
use licensing.Storage.Usages.{usage_matches, usage_row}
use licensing.Storage.Tx.Laws.{enter, with_transaction-commit}
use licensing.UsageService.{
  RegisterUsageInput, RegisterUsageResult, usable_error, register_body, register_usage, active_of,
  take_seat, seat_input,
}
use licensing.UsageService.Pages.{active_count, UsagesKeyed}
use licensing.UsageService.Register.{TookSeat, take_seat-full, take_seat-free, write_seat-TookSeat}
use licensing.UsageService.Body.{
  existing_seat, register_body-ok, register_body-again, register_body-new,
}

-- No identifier that the adapter can still draw stands among the usages.
abbrev pub IsFresh : World → Type 0
IsFresh w =
    (ms draw : ℕ)
    → w.draws ≤ draw
    → Table.get (uuid_v7_text ms (w.random draw)) w.state.usages ≡ none

-- The test for an active seat of the license.
abbrev is_seat : RegisterUsageInput → LicenseUsage → Bool
is_seat input = usage_matches (active_of (some input.license_id) none)

row_passes :
    (input : RegisterUsageInput) (t : Instant) (id : UuidV7) (now : Instant)
    → is_seat input (usage_row (seat_input input t) id now) ≡ true
unfolding usage_matches
row_passes input t id now = simp eq_refl

count_after :
    {input : RegisterUsageInput} {w : World} {usage : LicenseUsage} {after : State}
    → TookSeat input w usage after
    → active_count after input.license_id
      ≡ length (filter (is_seat input) (Table.values (Table.set usage.id usage w.state.usages)))
count_after {input} seat = ap (λ t. length (filter (is_seat input) (Table.values t))) seat.written

module _ (c : Clock) (input : RegisterUsageInput) (actor : Option String) (w : World)
    (keyed : UsagesKeyed w.state) where
  abbrev after : State
  after = (register_usage c input actor w).1.state

  -- What a registration that made a seat has done.
  pub record MadeSeat (res : RegisterUsageResult) : Type 0 where
    pub license : License
    pub found : Table.get input.license_id w.state.licenses ≡ some license
    pub usable : usable_error license.status ≡ none
    pub absent : existing_seat w.state input ≡ none
    pub free : active_count w.state input.license_id < license.max_usages
    pub seat : TookSeat input (enter w) res.usage after

  took_seat :
      (license : License) (res : RegisterUsageResult)
      → (take_seat c input actor license (enter w)).0 ≡ ok res
      → (active_count w.state input.license_id < license.max_usages)
        × TookSeat input (enter w) res.usage (take_seat c input actor license (enter w)).1.state
  took_seat license res h =
      elim (Bool-cases (leb license.max_usages (active_count w.state input.license_id))) [
        | inl full ↦ absurd (ground (arith, take_seat-full c input actor license (enter w) keyed))
        | inr room ↦
            let free : active_count w.state input.license_id < license.max_usages = ground arith in
            let q = take_seat-free c input actor license (enter w) keyed free in
            (free, rw q (write_seat-TookSeat c input actor license _ (enter w) res (rw q at h)).1)
      ]

  pub register_usage-MadeSeat :
      (res : RegisterUsageResult)
      → (register_usage c input actor w).0 ≡ ok res
      → res.created ≡ true
      → MadeSeat res
  unfolding register_usage
  register_usage-MadeSeat res h made =
      let (depth, body, committed) =
        with_transaction-commit (register_body c input actor) w res h in
      let (license, found, usable) = register_body-ok c input actor (enter w) res body in
      elim (Option-cases (existing_seat w.state input)) [
        | inr (usage, e) ↦ absurd (
            ground (
              arith,
              register_body-again c input actor (enter w) license found keyed usable usage e,
            ))
        | inl e ↦
            let q = register_body-new c input actor (enter w) license found keyed usable e in
            let (free, seat) = took_seat license res (rw q at body) in
            record {
              license = license;
              found = found;
              usable = usable;
              absent = e;
              free = free;
              seat = rw (committed, q) seat;
            }
      ]

  -- If every usage stands under its own identifier and registerUsage returns a new seat, then
  -- the license is stored, it had a free seat before, and after it there are no more active
  -- seats than max_usages, however many pages the count goes through.
  pub register_usage_within_limit :
      (res : RegisterUsageResult)
      → (register_usage c input actor w).0 ≡ ok res
      → res.created ≡ true
      → (license : License) × (Table.get input.license_id w.state.licenses ≡ some license)
        × (active_count w.state input.license_id < license.max_usages)
        × (active_count after input.license_id ≤ license.max_usages)
  register_usage_within_limit res h made =
      let m = register_usage-MadeSeat res h made in
      (
        m.license,
        m.found,
        m.free,
        omega (
          arith,
          count_after m.seat,
          m.free,
          count-set-le (is_seat input) res.usage.id res.usage w.state.usages,
        ),
      )

  -- If every usage stands under its own identifier and no identifier still to be drawn is
  -- taken, a registerUsage that returns a new seat adds exactly one active seat to the license,
  -- and the returned row is stored under its identifier with the license and the fingerprint
  -- asked for.
  pub register_usage_adds_one :
      IsFresh w
      → (res : RegisterUsageResult) → (register_usage c input actor w).0 ≡ ok res
      → res.created ≡ true
      → (active_count after input.license_id ≡ active_count w.state input.license_id + 1)
        × (Table.get res.usage.id after.usages ≡ some res.usage)
        × (res.usage.license_id ≡ input.license_id)
        × (res.usage.fingerprint ≡ input.fingerprint)
  register_usage_adds_one fresh res h made =
      let m = register_usage-MadeSeat res h made in
      let seat = m.seat in
      let drawn = seat.fresh in
      let absent : Table.get res.usage.id w.state.usages ≡ none =
        rw drawn.text (fresh drawn.ms drawn.draw drawn.unused) in
      let passes : is_seat input res.usage ≡ true =
        rw (seat.row) (row_passes input seat.registered_at res.usage.id seat.now) in
      (
        count_after seat
            ∙ count-set_new (is_seat input) res.usage.id res.usage w.state.usages absent passes,
        ap (Table.get res.usage.id) seat.written
            ∙ Table.get-set_self res.usage.id res.usage w.state.usages,
        ap (λ (r : LicenseUsage). r.license_id) seat.row,
        ap (λ (r : LicenseUsage). r.fingerprint) seat.row,
      )
