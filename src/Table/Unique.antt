-- ===== src/Table/Unique.antt =====
-- Tables in which no two rows clash: the unique constraints of the memory adapter.
use licensing.Common.{String, ◌≡◌, ◌≢◌, sym, ◌∙◌, some, arith, inl, inr, ◌==◌, eq_iff, Bool-cases}
use mathlib.Core.Path.{subst}
use mathlib.Core.Bool.{false≢true}
use licensing.Table.{Table}
use licensing.Table

module _ {ℓ κ} {V : Type ℓ} (Clash : V → V → Type κ) where
  -- Rows that clash stand under one key.
  abbrev pub IsUnique : Table V → Type (ℓ ⊔ κ)
  IsUnique m =
      (i j : String) (a b : V) → Table.get i m ≡ some a → Table.get j m ≡ some b → Clash a b → i ≡ j

  -- A write keeps the constraint if the row clashes with none that stays.
  pub set-IsUnique :
      (k : String) (v : V) (m : Table V)
      → ((a b : V) → Clash a b → Clash b a)
      → ((j : String) (b : V) → k ≢ j → Table.get j m ≡ some b → ¬ Clash v b)
      → IsUnique m
      → IsUnique (Table.set k v m)
  set-IsUnique k v m symmetric apart unique i j a b f g clash =
      let f' = sym (Table.get-set k i v m) ∙ f in
      let g' = sym (Table.get-set k j v m) ∙ g in
      elim (Bool-cases (k == i)) [
        | inl here ↦ elim (Bool-cases (k == j)) [
          | inl there ↦ sym ((eq_iff k i).0 here) ∙ (eq_iff k j).0 there
          | inr other ↦
              let same : a ≡ v = ground arith in
              absurd (
                apart j b (λ e. false≢true (sym other ∙ (eq_iff k j).1 e)) (ground arith)
                  (subst (λ x. Clash x b) same clash))
        ]
        | inr other ↦ elim (Bool-cases (k == j)) [
          | inl there ↦
              let same : b ≡ v = ground arith in
              absurd (
                apart i a (λ e. false≢true (sym other ∙ (eq_iff k i).1 e)) (ground arith)
                  (subst (λ x. Clash x a) same (symmetric a b clash)))
          | inr away ↦ unique i j a b (ground arith) (ground arith) clash
        ]
      ]
