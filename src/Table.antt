-- ===== src/Table.antt =====
-- JavaScript's `Map` with text keys, in insertion order, and what the tables of the memory adapter
-- rest on: a write to a known key keeps its place.
pub mod Keyed
pub mod Unique
use licensing.Common.{
  String, ◌≡◌, refl, Bool, false, Option, none, some, List, [], ◌∷◌, arith, ◌==◌, eq_iff, eq_refl,
  if◌then◌else◌, any, first, ◌++◌,
}

abbrev pub Table {ℓ} : Type ℓ → Type ℓ
Table V = List (String × V)

module _ {ℓ} {V : Type ℓ} where
  -- `m.get(k)`
  unfoldable pub get : String → Table V → Option V
  get k [] = none
  get k ((j, v) ∷ m) = if j == k then some v else get k m

  -- `m.set(k, v)`
  unfoldable pub set : String → V → Table V → Table V
  set k v [] = (k, v) ∷ []
  set k v ((j, w) ∷ m) = if j == k then (j, v) ∷ m else (j, w) ∷ set k v m

  -- `m.delete(k)`
  unfoldable pub delete : String → Table V → Table V
  delete k [] = []
  delete k ((j, w) ∷ m) = if j == k then m else (j, w) ∷ delete k m

  -- `[...m.values()]`
  unfoldable pub values : Table V → List V
  values [] = []
  values ((j, v) ∷ m) = v ∷ values m

  pub get-set :
      (k j : String) (v : V) (m : Table V)
      → get j (set k v m) ≡ (if k == j then some v else get j m)
  unfolding get set
  get-set k j v [] = refl
  get-set k j v ((i, w) ∷ m) = ground (arith, eq_iff k j, eq_iff i k, eq_iff i j, get-set k j v m)

  pub get-set_self : (k : String) (v : V) (m : Table V) → get k (set k v m) ≡ some v
  get-set_self k v m = simp (get-set, eq_refl)

  -- What a scan of the values does not find, no key holds.
  pub get-any :
      (p : V → Bool) (m : Table V) (k : String) (v : V)
      → any p (values m) ≡ false
      → get k m ≡ some v
      → p v ≡ false
  unfolding get values
  get-any p [] k v h e = cc
  get-any p ((j, w) ∷ m) k v h e = ground (arith, get-any p m k v)

  pub get-first {κ} :
      {B : Type κ} (f : V → Option B) (m : Table V) (k : String) (v : V)
      → first f (values m) ≡ none
      → get k m ≡ some v
      → f v ≡ none
  unfolding get values
  get-first f [] k v h e = cc
  get-first f ((j, w) ∷ m) k v h e = ground (arith, get-first f m k v)

  -- A write to a key that is not there appends the row.
  pub values-set_new :
      (k : String) (v : V) (m : Table V) → get k m ≡ none → values (set k v m) ≡ values m ++ v ∷ []
  unfolding get set values
  values-set_new k v [] h = refl
  values-set_new k v ((j, w) ∷ m) h = ground (arith, values-set_new k v m)
