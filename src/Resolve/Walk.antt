-- ===== src/Resolve/Walk.antt =====
-- The bounded walk of `resolveTemplate` of typescript/src/templates/resolve.ts.
use licensing.Common.{
  refl, ℕ, zero, suc, ◌≤◌, ◌≡◌, ◌==◌, true, Option, none, some, List, [], ◌∷◌, arith, inl, inr, any,
  length, Bool-cases, Option-cases,
}
use licensing.Types.{LicenseTemplate, UuidV7}
use licensing.Resolve.{walk_ancestors, resolve_template}

-- Each template of the chain is the one that the loader has for the parent of the one before.
abbrev pub IsAncestry :
    (UuidV7 → Option LicenseTemplate) → Option UuidV7 → List LicenseTemplate → Type 0
IsAncestry loader cursor [] = Unit
IsAncestry loader none (t ∷ chain) = ⊥
IsAncestry loader (some c) (t ∷ chain) = (loader c ≡ some t) × IsAncestry loader t.parent_id chain

-- Where the walk ends with `left` more ancestors allowed: it was cut off with none left, or the
-- last template has no parent, or its parent was visited before, or the loader does not have it.
walk_ancestors-bound :
    (loader : UuidV7 → Option LicenseTemplate) (left : ℕ) (visited : List UuidV7)
    (cursor : Option UuidV7)
    → let walked = walk_ancestors loader left visited cursor in
      (length walked.0 ≤ left)
      × (walked.1 ≡ true → length walked.0 ≡ left)
      × IsAncestry loader cursor walked.0
unfolding walk_ancestors
walk_ancestors-bound loader left visited none = (omega arith, λ h. ground arith, tt)
walk_ancestors-bound loader zero visited (some c) = (omega arith, λ h. refl, tt)
walk_ancestors-bound loader (suc left) visited (some c) =
    elim (Bool-cases (any (λ v. v == c) visited)) [
      | inl seen ↦ rw seen (omega arith, λ h. ground arith, tt)
      | inr new ↦ elim (Option-cases (loader c)) [
        | inl missing ↦ rw (new, missing) (omega arith, λ h. ground arith, tt)
        | inr (t, found) ↦
            let (few, full, rest) = walk_ancestors-bound loader left (c ∷ visited) t.parent_id in
            rw (new, found) (omega (arith, few), λ h. ground (arith, full h), (found, rest))
      ]
    ]

-- Whatever the loader returns, resolveTemplate merges at most five ancestors, and it reports a
-- truncation only where it merged five.
pub resolve_template-bound :
    (leaf : LicenseTemplate) (loader : UuidV7 → Option LicenseTemplate)
    → let resolved = resolve_template leaf loader in
      (resolved.inherited_depth ≤ 5) × (resolved.truncated ≡ true → resolved.inherited_depth ≡ 5)
unfolding resolve_template
resolve_template-bound leaf loader =
    let (few, full, chain) = walk_ancestors-bound loader 5 (leaf.id ∷ []) leaf.parent_id in
    (few, full)
