-- ===== src/Lib.antt =====
-- Verification of the licensing library's TypeScript core: the memory storage adapter, the license
-- lifecycle, the seats, the license keys, the templates, the JSON that tokens carry, the replay ledger,
-- and the router and rate limit of the HTTP layer. Paths are from the repository's root.
--
-- The program keeps licenses, seats (usages) on them, templates, scopes, signing keys, an audit log
-- and trial issuances in a storage adapter. The services open a transaction, read rows, check, write
-- rows and append audit rows. The adapter mints identifiers from a clock and random bytes, keeps the
-- unique constraints, and lists rows in pages behind cursors.
--
-- Files.
--   Types, Errors       typescript/src/types.ts and errors.ts: entities, JSON values, errors.
--   Id                  typescript/src/id.ts: clocks, isoFromMs, newUuidV7 as texts.
--   Table               JavaScript's Map in insertion order, the store of every entity; Table/Keyed:
--                       rows under their identifiers and counts; Table/Unique: unique constraints.
--   Storage             typescript/src/storage/types.ts and storage/memory: Monad has the state and the
--                       actions, Shapes the inputs, patches and filters, Paging the lists in pages,
--                       Licenses, Usages, Scopes, Templates, Keys, Audit, Trials the methods, Tx
--                       withTransaction, Unique the unique constraints as invariants.
--   Lifecycle           typescript/src/lifecycle.ts: effectiveStatus, the transitions, tick; Legal has
--                       the table of legal transitions, Writes what they write.
--   LicenseKey          typescript/src/license-key.ts: generation, normalization and shape.
--   LicenseService      typescript/src/license-service.ts: createLicense, findLicenseByKey and
--                       rotateLicenseKey; Rotation, Frees and the Revoked files its
--                       revoked seats.
--   Resolve             typescript/src/templates/resolve.ts: the merge of a template and its ancestors.
--   TemplateService     typescript/src/template-service.ts: createTemplate and createLicenseFromTemplate;
--                       Meta the fields of a license's meta.
--   UsageService        typescript/src/usage-service.ts: registerUsage, revokeUsage, and in Sweep
--                       sweepInactiveUsages.
--   Http                typescript/src/http: RateLimit the token buckets of rate-limit.ts, with Bound
--                       and Retry; Router the routes of router.ts; Envelope the responses; Uri the
--                       decodeURIComponent that paths go through.
--   JtiLedger           typescript/src/client/jti-ledger.ts: the replay ledger; Refinement its abstract map.
--   Json                typescript/src/canonical-json.ts and strict-json.ts: Strings, Numbers, Canonical
--                       the serializer, Strict the parser, RoundTrip from the one to the other, Lengths,
--                       Turns and Total how the parser ends, Once the keys of its objects.
--   Common, Fixtures    shared names and list lemmas; a small world for the tests.
-- Functions have the source's names with underscores (create_license is createLicense of the adapter,
-- create_licensed is createLicense of the service).
--
-- Modelling. An action takes the world (the tables, the transaction depth, the adapter's clock and how
-- often clocks were read, the random bytes and how many draws were made) to a result and the next
-- world; what it wrote before it threw stays written unless a transaction puts the tables back. A
-- clock is any function of the reading. Texts are compared by code points, which is JavaScript's order
-- on the ASCII texts of instants and identifiers. Counts and durations are natural numbers; a JSON
-- number that is none is its text. A field that a patch or filter leaves out is none. The text of a
-- cursor is modelled by the pair that decodeCursor reads in it, none for an absent, empty or malformed
-- one. Loops that go from page to page run on one more turn than there are usages, which
-- count_active_usages_lem, find_active_usage_lem, sweep_inactive_usages-dry_run and, for the pages that
-- rotateLicenseKey revokes while it reads them, revoke_pages-returns show to be enough; out_of_fuel is
-- no error of the program. A rate limit's refill is a whole number of thousandths of a token per
-- second. The strict parser has two units of fuel for each unit of its text and two more: each call
-- but one in two takes a unit off the text.
--
-- Not modelled: the SQL adapters, the HTTP handlers, tokens and cryptography, the client, the command
-- line; the scope service, statistics, the rounding of floats in rate limits; the interleaving of
-- asynchronous calls; cloneState of the memory adapter, since tables are values here and a transaction
-- that throws has the old ones at hand;
-- the range of dates that JavaScript can print.
pub mod Common
pub mod Table
pub mod Types
pub mod Errors
pub mod Id
pub mod Storage
pub mod LicenseKey
pub mod Lifecycle
pub mod Resolve
pub mod Http
pub mod JtiLedger
pub mod Json
pub mod TemplateService
pub mod UsageService
pub mod LicenseService
pub mod Fixtures
