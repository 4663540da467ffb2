-- ===== src/Storage/Tests.antt =====
-- Writes, pages and transactions on a small world, and the theorems at them.
use licensing.Common.{
  eq_iff, ◌==◌, ◌≢◌, sym, ap, ◌∙◌, ◌≡◌, refl, none, some, [], ◌∷◌, arith, List, false,
}
use mathlib.Core.Bool.{false≢true}
use licensing.Table
use licensing.Types.{LicenseStatus, LicenseUsage, UsageStatus, end}
use licensing.Fixtures.{license_of, usage_of, world_of, one_taken}
use licensing.Errors.{err, license_not_found}
use licensing.Storage.Monad.{World}
use licensing.Storage.Shapes.{LicenseInput, LicensePatch, LicenseUsageInput, LicenseUsagePatch}
use licensing.Storage.Paging.{CursorTuple, sort}
use licensing.Storage.Paging.Sort.{HasDistinctKeys}
use licensing.Storage.Paging.Walk.{walk, walk_all}
use licensing.Storage.Licenses.{create_license, update_license, no_license_patch}
use licensing.Storage.Usages.{usage_cursor, create_usage, update_usage}
use licensing.Storage.Tx.{with_transaction}
use licensing.Storage.Unique.Licenses.{
  HasUniqueLicenseKeys, create_license-HasUniqueLicenseKeys, update_license-HasUniqueLicenseKeys,
}
use licensing.Storage.Unique.Usages.{
  HasUniqueSeats, create_usage-HasUniqueSeats, update_usage-HasUniqueSeats,
}

abbrev demo : World
demo = world_of (license_of LicenseStatus.active 2) one_taken

abbrev other_license : LicenseInput
other_license = record {
  scope_id = none;
  template_id = none;
  licensable_type = "user";
  licensable_id = "u2";
  license_key = "LIC-1111-1111-1111-1111-1111";
  status = LicenseStatus.pending;
  max_usages = 1;
  is_trial = none;
  activated_at = none;
  expires_at = none;
  grace_until = none;
  meta = end;
}

abbrev other_seat : LicenseUsageInput
other_seat = record {
  license_id = "l1";
  fingerprint = "fp-b";
  status = UsageStatus.active;
  registered_at = "2026-03-01T00:00:00.000000Z";
  revoked_at = none;
  client_meta = end;
}

abbrev released : LicenseUsagePatch
released = record {
  status = some UsageStatus.revoked;
  revoked_at = some (some "2026-03-01T00:00:00.000000Z");
  last_seen_at = none;
  client_meta = none;
}

demo-HasUniqueLicenseKeys : HasUniqueLicenseKeys demo.state
unfolding Table.get
demo-HasUniqueLicenseKeys i j a b h k e = grind (arith, eq_iff "l1" i, eq_iff "l1" j)

demo-HasUniqueSeats : HasUniqueSeats demo.state
unfolding Table.get
demo-HasUniqueSeats i j a b h k e = grind (arith, eq_iff "seat-a" i, eq_iff "seat-a" j)

create_license-HasUniqueLicenseKeys_example :
    HasUniqueLicenseKeys (create_license other_license demo).1.state
create_license-HasUniqueLicenseKeys_example =
    create_license-HasUniqueLicenseKeys other_license demo demo-HasUniqueLicenseKeys

abbrev new_key : LicensePatch
new_key = record no_license_patch { license_key = some "LIC-2222-2222-2222-2222-2222" }

update_license-HasUniqueLicenseKeys_example :
    HasUniqueLicenseKeys (update_license "l1" new_key demo).1.state
unfolding Table.get
update_license-HasUniqueLicenseKeys_example =
    update_license-HasUniqueLicenseKeys "l1" new_key demo (refl, refl, tt) demo-HasUniqueLicenseKeys

create_usage-HasUniqueSeats_example : HasUniqueSeats (create_usage other_seat demo).1.state
create_usage-HasUniqueSeats_example =
    create_usage-HasUniqueSeats other_seat demo demo-HasUniqueSeats

update_usage-HasUniqueSeats_example : HasUniqueSeats (update_usage "seat-a" released demo).1.state
unfolding Table.get
update_usage-HasUniqueSeats_example =
    update_usage-HasUniqueSeats "seat-a" released demo (refl, refl, tt) demo-HasUniqueSeats

-- A patch of a license that is not there, in a transaction.
abbrev lost : World
lost = (with_transaction (update_license "l2" new_key) demo).1

lost-thrown : (with_transaction (update_license "l2" new_key) demo).0 ≡ err (license_not_found "l2")
unfolding with_transaction update_license Table.get
lost-thrown = refl

lost-state : lost.state ≡ demo.state
unfolding with_transaction update_license Table.get
lost-state = refl

abbrev three : List LicenseUsage
three = usage_of "a" "fp-a" ∷ usage_of "c" "fp-c" ∷ usage_of "b" "fp-b" ∷ []

ids_apart : (a b : CursorTuple) → (a.id == b.id) ≡ false → a ≢ b
ids_apart a b h e = false≢true (sym h ∙ (eq_iff a.id b.id).1 (ap (λ (c : CursorTuple). c.id) e))

three-HasDistinctKeys : HasDistinctKeys usage_cursor three
three-HasDistinctKeys =
    ((ids_apart _ _ refl, (ids_apart _ _ refl, tt)), ((ids_apart _ _ refl, tt), (tt, tt)))

-- Three rows of one instant in pages of one.
walk_all_example : walk usage_cursor three 1 4 none ≡ some (sort usage_cursor three)
walk_all_example = walk_all usage_cursor three 1 4 three-HasDistinctKeys (omega arith)
