-- ===== src/TemplateService/Licenses.antt =====
-- What a license takes from its template: `createLicenseFromTemplate` of
-- typescript/src/template-service.ts.
use licensing.Common.{
  String, ℕ, ◌+◌, ◌*◌, ◌≡◌, refl, sym, ap, ◌∙◌, Option, none, some, if◌then◌else◌, get_or, ltb,
  arith, inl, inr, Option-cases, Bool-cases,
}
use licensing.Table
use licensing.Types.{License, LicenseTemplate, Instant, end}
use licensing.Errors.{ok}
use licensing.Id.{Clock, iso_from_ms}
use licensing.Lifecycle.{TransitionOptions}
use licensing.Storage.Monad.{World, Action, pure, ◌>>=◌}
use licensing.Storage.Frame.{>>=-eq-ok}
use licensing.LicenseService.{create_licensed}
use licensing.LicenseService.Created.{create_licensed-stored}
use licensing.Resolve.{get_field}
use licensing.Resolve.Merge.{HasDistinctFields}
use licensing.TemplateService.Meta.{or_else, template_field, get_field-merged_meta}
use licensing.TemplateService.{
  CreateLicenseFromTemplateInput, shifted, compute_expires_at, compute_grace_until, unless_unset,
  create_input, create_license_from_template,
}

-- The instant a positive number of seconds after another.
abbrev pub instant_after : (Instant → Option ℕ) → Instant → ℕ → Option Instant
instant_after parse from seconds = elim (parse from) [
  | none ↦ none
  | some ms ↦ if ltb 0 seconds then some (iso_from_ms (ms + seconds * 1000)) else none
]

abbrev pub grace_after : (Instant → Option ℕ) → Option Instant → ℕ → Option Instant
grace_after parse none seconds = none
grace_after parse (some from) seconds = instant_after parse from seconds

module _ (parse : Instant → Option ℕ) (seconds : ℕ) (w : World) (t : Option Instant) where
  shifted-returns :
      (from : Instant)
      → let r = (if ltb 0 seconds then shifted parse from seconds else pure none) w in
        r.0 ≡ ok t → (t ≡ instant_after parse from seconds) × (r.1 ≡ w)
  unfolding shifted
  shifted-returns from h = elim (Bool-cases (ltb 0 seconds)) [
    | inl positive ↦ elim (Option-cases (parse from)) [
      | inl bad ↦ absurd (ground (arith, positive, bad, h))
      | inr (ms, e) ↦ ground (arith, positive, e, h)
    ]
    | inr zero_seconds ↦ elim (Option-cases (parse from)) [
      | inl bad ↦ ground (arith, zero_seconds, bad, h)
      | inr (ms, e) ↦ ground (arith, zero_seconds, e, h)
    ]
  ]

  -- What the two computations return, and that they change nothing.
  compute_expires_at-returns :
      (now : Instant)
      → (compute_expires_at parse now seconds w).0 ≡ ok t
      → (t ≡ instant_after parse now seconds) × ((compute_expires_at parse now seconds w).1 ≡ w)
  unfolding compute_expires_at
  compute_expires_at-returns now h = shifted-returns now h

  compute_grace_until-returns :
      (from : Option Instant)
      → (compute_grace_until parse from seconds w).0 ≡ ok t
      → (t ≡ grace_after parse from seconds) × ((compute_grace_until parse from seconds w).1 ≡ w)
  unfolding compute_grace_until
  compute_grace_until-returns none h = (ground (arith, h), refl)
  compute_grace_until-returns (some from) h = shifted-returns from h

unless_unset-returns :
    (v : Option (Option Instant)) (m : Action (Option Instant)) (w : World)
    (t expected : Option Instant)
    → ((m w).0 ≡ ok t → (t ≡ expected) × ((m w).1 ≡ w))
    → (unless_unset v m w).0 ≡ ok t
    → (t ≡ get_or v expected) × ((unless_unset v m w).1 ≡ w)
unless_unset-returns none m w t expected k h = k h
unless_unset-returns (some v) m w t expected k h = (ground (arith, h), refl)

-- The dates of a license that is made at `now`.
abbrev pub expected_expiry :
    (Instant → Option ℕ)
    → LicenseTemplate
    → CreateLicenseFromTemplateInput
    → Instant
    → Option Instant
expected_expiry parse template input now =
    get_or input.expires_at (instant_after parse now template.trial_duration_sec)

abbrev pub expected_grace :
    (Instant → Option ℕ)
    → LicenseTemplate
    → CreateLicenseFromTemplateInput
    → Instant
    → Option Instant
expected_grace parse template input now =
    get_or input.grace_until
      (grace_after parse (expected_expiry parse template input now) template.grace_duration_sec)

-- An action that can only return `x`, and does nothing.
abbrev Returns : {A : Type 0} → Action A → World → A → Type 0
Returns {A} m v x = (a : A) → (m v).0 ≡ ok a → (a ≡ x) × ((m v).1 ≡ v)

two_steps :
    {A B C : Type 0} (m : Action A) (k : A → Action B) (last : A → B → Action C) (v : World) (c : C)
    (x : A) (y : B)
    → Returns m v x
    → Returns (k x) v y
    → ((m >>= λ a. k a >>= last a) v).0 ≡ ok c
    → (m >>= λ a. k a >>= last a) v ≡ last x y v
two_steps m k last v c x y first second h =
    let (a, a_ok, rest, whole) = >>=-eq-ok m (λ a. k a >>= last a) v c h in
    let (a_is, kept) = first a a_ok in
    let moved = ap (λ u. (k a >>= last a) u) kept ∙ ap (λ z. (k z >>= last z) v) a_is in
    let (b, b_ok, rest', whole') =
      >>=-eq-ok (k x) (last x) v c (sym (ap (λ r. r.0) moved) ∙ rest) in
    let (b_is, kept') = second b b_ok in
    whole ∙ moved ∙ whole' ∙ ap (last x b) kept' ∙ ap (λ z. last x z v) b_is

-- The stored template is found, and the clock read once, before the license is created.
create_license_from_template-steps :
    (parse : Instant → Option ℕ) (c : Clock) (input : CreateLicenseFromTemplateInput)
    (opts : TransitionOptions) (template : LicenseTemplate) (license : License) (w : World)
    → Table.get input.template_id w.state.templates ≡ some template
    → (create_license_from_template parse c input opts w).0 ≡ ok license
    → let now = c.now_iso w.moment in
      let fields =
        create_input template input
          (expected_expiry parse template input now)
          (expected_grace parse template input now) in
      create_license_from_template parse c input opts w
      ≡ create_licensed c fields opts (record w { moment = w.moment + 1 })
unfolding create_license_from_template
create_license_from_template-steps parse c input opts template license w found h =
    let now = c.now_iso w.moment in
    let v : World = record w { moment = w.moment + 1 } in
    let expiry =
      unless_unset input.expires_at (compute_expires_at parse now template.trial_duration_sec) in
    let grace = λ (e : Option Instant).
      unless_unset input.grace_until (compute_grace_until parse e template.grace_duration_sec) in
    let last = λ (e g : Option Instant). create_licensed c (create_input template input e g) opts in
    let begun : create_license_from_template parse c input opts w
        ≡ (expiry >>= λ e. grace e >>= last e) v =
      ground (arith, found) in
    let e = expected_expiry parse template input now in
    begun
    ∙ two_steps expiry grace last v license e (expected_grace parse template input now)
        (λ t.
          unless_unset-returns input.expires_at
            (compute_expires_at parse now template.trial_duration_sec) v t
            (instant_after parse now template.trial_duration_sec)
            (compute_expires_at-returns parse template.trial_duration_sec v t now))
        (λ t.
          unless_unset-returns input.grace_until
            (compute_grace_until parse e template.grace_duration_sec) v t
            (grace_after parse e template.grace_duration_sec)
            (compute_grace_until-returns parse template.grace_duration_sec v t e))
        (sym (ap (λ r. r.0) begun) ∙ h)

-- If no field of the caller's meta stands twice, a createLicenseFromTemplate of a stored
-- template that returns stores the license it returns, with the template's identifier, the
-- caller's scope, seats and dates where they are given, null included, and otherwise the
-- template's scope and seats, an expiry the trial's seconds after the clock's instant, if there
-- are any, and a grace the grace's seconds after the expiry, and in meta at every key the
-- caller's value, where there is none the template's offline limit and its entitlements, if it
-- has any, and nothing else.
pub create_license_from_template-stored :
    (parse : Instant → Option ℕ) (c : Clock) (input : CreateLicenseFromTemplateInput)
    (opts : TransitionOptions) (template : LicenseTemplate) (license : License) (w : World)
    → HasDistinctFields (get_or input.meta end)
    → Table.get input.template_id w.state.templates ≡ some template
    → (create_license_from_template parse c input opts w).0 ≡ ok license
    → let now = c.now_iso w.moment in
      let after = (create_license_from_template parse c input opts w).1.state in
      (license.template_id ≡ some template.id)
      × (license.scope_id ≡ get_or input.scope_id template.scope_id)
      × (license.max_usages ≡ get_or input.max_usages template.max_usages)
      × (license.expires_at ≡ expected_expiry parse template input now)
      × (license.grace_until ≡ expected_grace parse template input now)
      × ((key : String)
          → get_field key license.meta
            ≡ or_else (get_field key (get_or input.meta end)) (template_field template key))
      × (Table.get license.id after.licenses ≡ some license)
create_license_from_template-stored parse c input opts template license w distinct found h =
    let now = c.now_iso w.moment in
    let v : World = record w { moment = w.moment + 1 } in
    let fields =
      create_input template input (expected_expiry parse template input now)
        (expected_grace parse template input now) in
    let same = create_license_from_template-steps parse c input opts template license w found h in
    let (key, id, at, row, stored) =
      create_licensed-stored c fields opts license v (sym (ap (λ r. r.0) same) ∙ h) in
    (
      ap (λ (l : License). l.template_id) row,
      ap (λ (l : License). l.scope_id) row,
      ap (λ (l : License). l.max_usages) row,
      ap (λ (l : License). l.expires_at) row,
      ap (λ (l : License). l.grace_until) row,
      (λ key.
          ap (λ (l : License). get_field key l.meta) row
          ∙ get_field-merged_meta template input.meta key distinct),
      (ap (λ r. Table.get license.id r.1.state.licenses) same
          ∙ ap (λ (l : License). Table.get l.id (create_licensed c fields opts v).1.state.licenses)
              row
          ∙ stored),
    )
