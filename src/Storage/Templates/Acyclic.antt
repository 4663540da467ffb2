-- ===== src/Storage/Templates/Acyclic.antt =====
-- The parents of the templates form no cycle: `walkParentChain` of
-- typescript/src/storage/memory/adapter.ts, and `updateTemplate` that relies on it.
use licensing.Common.{
  ℕ, zero, suc, ◌≤◌, ◌≡◌, ◌∙◌, sym, Option, none, some, List, [], ◌∷◌, ◌++◌, arith, inl, inr, ◌⊎◌,
  ◌==◌, eq_iff, Bool-cases, Option-cases,
}
use mathlib.Core.Path.{subst}
use licensing.Table.{Table}
use licensing.Table
use licensing.Types.{LicenseTemplate, UuidV7, Instant}
use licensing.Errors.{unique_constraint_violation}
use licensing.Id.{iso_from_ms}
use licensing.Storage.Frame.{Failed, Done}
use licensing.Storage.Monad.{State, World, adapter_now_iso}
use licensing.Storage.Shapes.{LicenseTemplatePatch}
use licensing.Storage.Templates.{
  parent_chain, walk_parent_chain, reparent_error, template_patched, update_template,
}

-- The parents from a cursor end at a root after `n` templates.
pub data Rooted (templates : Table LicenseTemplate) : ℕ → Option UuidV7 → Type 0 where
  top : Rooted templates 0 none
  up :
      (n : ℕ) (c : UuidV7) (node : LicenseTemplate)
      → Table.get c templates ≡ some node
      → Rooted templates n node.parent_id
      → Rooted templates (suc n) (some c)

-- From every stored template the parents end at a root.
abbrev pub IsAcyclic : Table LicenseTemplate → Type 0
IsAcyclic templates =
    (c : UuidV7) (node : LicenseTemplate)
    → Table.get c templates ≡ some node
    → (n : ℕ) × Rooted templates n (some c)

module _ (templates : Table LicenseTemplate) (id : UuidV7) (row : LicenseTemplate) where
  -- A walk that does not meet `id` still ends where it did after a write at `id`.
  walk-Rooted :
      (n hops : ℕ) (cursor : Option UuidV7) (visited : List UuidV7)
      → Rooted templates n cursor
      → n ≤ hops
      → parent_chain hops templates cursor id visited ≡ none
      → Rooted (Table.set id row templates) n cursor
  unfolding parent_chain
  walk-Rooted _ hops _ visited top le h = top
  walk-Rooted _ zero _ visited (up n c node e r) le h = absurd (omega arith)
  walk-Rooted _ (suc hops) _ visited (up n c node e r) le h = elim (Bool-cases (c == id)) [
    | inl meets ↦ absurd (ground arith)
    | inr away ↦
        up n c node (Table.get-set id c row templates ∙ ground (arith, eq_iff c id, eq_iff id c))
          (walk-Rooted n hops node.parent_id (visited ++ (c ∷ [])) r (omega arith) (ground arith))
  ]

  -- If the parents of the new row end at a root, those of every other row do.
  other-Rooted :
      (k : ℕ)
      → Rooted (Table.set id row templates) k row.parent_id
      → (n : ℕ) (cursor : Option UuidV7) → Rooted templates n cursor
      → (m : ℕ) × Rooted (Table.set id row templates) m cursor
  other-Rooted k new _ _ top = (0, top)
  other-Rooted k new _ _ (up n c node e r) = elim (Bool-cases (id == c)) [
    | inl here ↦ (suc k, up k c row (Table.get-set id c row templates ∙ ground arith) new)
    | inr away ↦
        let (m, rest) = other-Rooted k new n node.parent_id r in
        (suc m, up m c node (Table.get-set id c row templates ∙ ground arith) rest)
  ]

  -- A write that keeps the parent keeps every walk.
  kept-Rooted :
      (cur : LicenseTemplate)
      → Table.get id templates ≡ some cur
      → row.parent_id ≡ cur.parent_id
      → (n : ℕ) (cursor : Option UuidV7) → Rooted templates n cursor
      → Rooted (Table.set id row templates) n cursor
  kept-Rooted cur found same _ _ top = top
  kept-Rooted cur found same _ _ (up n c node e r) = elim (Bool-cases (id == c)) [
    | inl here ↦ up n c row (Table.get-set id c row templates ∙ ground arith) (
        subst (Rooted (Table.set id row templates) n) (ground (arith, eq_iff id c))
          (kept-Rooted cur found same n node.parent_id r))
    | inr away ↦
        up n c node (Table.get-set id c row templates ∙ ground arith)
          (kept-Rooted cur found same n node.parent_id r)
  ]

abbrev with_template : State → UuidV7 → LicenseTemplate → State
with_template s id row = record s { templates = Table.set id row s.templates }

update_template-cases :
    (id : UuidV7) (p : LicenseTemplatePatch) (w : World)
    → Failed w (update_template id p w)
      ⊎ ((cur : LicenseTemplate) × (now : Instant) × (Table.get id w.state.templates ≡ some cur)
          × (reparent_error w.state.templates id p.parent_id ≡ none)
          × Done w
              (template_patched cur p now)
              (with_template w.state id (template_patched cur p now))
              (update_template id p w))
unfolding update_template adapter_now_iso
update_template-cases id p w = elim (Option-cases (Table.get id w.state.templates)) [
  | inl missing ↦ inl (record {
    error = unique_constraint_violation "pk" id;
    thrown = ground arith;
    state = ground arith;
    frame = ground arith;
  })
  | inr (cur, found) ↦ elim (Option-cases (reparent_error w.state.templates id p.parent_id)) [
    | inr (e, bad) ↦
        inl
          (record { error = e; thrown = ground arith; state = ground arith; frame = ground arith })
    | inl clear ↦ inr (cur, iso_from_ms (w.clock.now_ms w.moment), found, clear, ground arith)
  ]
]

walk_clear :
    (templates : Table LicenseTemplate) (id : UuidV7) (parent : Option UuidV7)
    → reparent_error templates id (some parent) ≡ none
    → parent_chain 64 templates parent id [] ≡ none
unfolding reparent_error walk_parent_chain
walk_clear templates id parent h = ground arith

-- The tables that `updateTemplate` leaves when it wrote the row.
patched-IsAcyclic :
    (id : UuidV7) (p : LicenseTemplatePatch) (templates : Table LicenseTemplate)
    (cur : LicenseTemplate) (now : Instant)
    → IsAcyclic templates
    → ((q : Option UuidV7) → p.parent_id ≡ some q → (n : ℕ) × (n ≤ 64) × Rooted templates n q)
    → Table.get id templates ≡ some cur
    → reparent_error templates id p.parent_id ≡ none
    → (n : ℕ) (cursor : Option UuidV7) → Rooted templates n cursor
    → (m : ℕ) × Rooted (Table.set id (template_patched cur p now) templates) m cursor
patched-IsAcyclic id p templates cur now acyclic short found clear n cursor r =
    let row = template_patched cur p now in
    elim (Option-cases p.parent_id) [
      | inl kept ↦ (n, kept-Rooted templates id row cur found (ground arith) n cursor r)
      | inr (q, new) ↦
          let (k, few, above) = short q new in
          let walk =
            walk-Rooted templates id row k 64 q [] above few
              (walk_clear templates id q (rw new at clear)) in
          other-Rooted templates id row k
            (subst (Rooted (Table.set id row templates) k) (ground arith) walk) n cursor r
    ]

-- If from every stored template the parents end at a root, and the parent that the patch names,
-- when it names one, has at most 64 templates from it to its root, then after updateTemplate
-- the parents still end at a root, whether it returns or throws.
pub update_template-IsAcyclic :
    (id : UuidV7) (p : LicenseTemplatePatch) (w : World)
    → IsAcyclic w.state.templates
    → ((q : Option UuidV7)
        → p.parent_id ≡ some q
        → (n : ℕ) × (n ≤ 64) × Rooted w.state.templates n q)
    → IsAcyclic (update_template id p w).1.state.templates
update_template-IsAcyclic id p w acyclic short = elim (update_template-cases id p w) [
  | inl failed ↦ rw (failed.state) acyclic
  | inr (cur, now, found, clear, done) ↦ rw (done.state) (λ c node e.
      elim (Option-cases (Table.get c w.state.templates)) [
        | inl new ↦
            let e' = sym (Table.get-set id c (template_patched cur p now) w.state.templates) ∙ e in
            absurd (ground (arith, eq_iff id c))
        | inr (old, there) ↦
            let (n, r) = acyclic c old there in
            patched-IsAcyclic id p w.state.templates cur now acyclic short found clear n (some c) r
      ])
]
