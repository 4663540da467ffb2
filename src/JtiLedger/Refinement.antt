-- ===== src/JtiLedger/Refinement.antt =====
-- The ledger of typescript/src/client/jti-ledger.ts as a map that forgets the order of its entries.
use licensing.Common.{
  ℕ, ◌≡◌, ◌<◌, refl, ap, ◌∙◌, String, Bool, true, false, Option, none, some, List, [], ◌∷◌, arith,
  ◌==◌, eq_iff, if◌then◌else◌, leb, Option-cases, Bool-cases, inl, inr,
}
use mathlib.Core.Path.{fun_ext}
use licensing.Table
use licensing.Table.{Table}
use licensing.JtiLedger.{Entries, Call, record_use, prune, record_jti_use, prune_expired, answers}

-- Each identifier stands once.
abbrev pub IsDistinct : Entries → Type 0
IsDistinct [] = Unit
IsDistinct ((jti, exp) ∷ entries) = (Table.get jti entries ≡ none) × IsDistinct entries

-- What a pruning keeps of an entry.
abbrev pub unexpired : ℕ → Option ℕ → Option ℕ
unexpired now_sec none = none
unexpired now_sec (some exp) = if leb exp now_sec then none else some exp

get-prune_expired :
    (now_sec : ℕ) (jti : String) (entries : Entries)
    → IsDistinct entries
    → Table.get jti (prune_expired now_sec entries).1 ≡ unexpired now_sec (Table.get jti entries)
unfolding prune_expired Table.get
get-prune_expired now_sec jti [] h = refl
get-prune_expired now_sec jti ((j, exp) ∷ entries) h = elim (Bool-cases (j == jti)) [
  | inl same ↦ ground (
    arith,
    get-prune_expired now_sec jti entries h.1,
    ap (λ (k : String). Table.get k entries) ((eq_iff j jti).0 same),
  )
  | inr other ↦ ground (arith, get-prune_expired now_sec jti entries h.1)
]

prune_expired-IsDistinct :
    (now_sec : ℕ) (entries : Entries)
    → IsDistinct entries
    → IsDistinct (prune_expired now_sec entries).1
unfolding prune_expired
prune_expired-IsDistinct now_sec [] h = tt
prune_expired-IsDistinct now_sec ((j, exp) ∷ entries) h =
    ground
      (arith, get-prune_expired now_sec j entries h.1, prune_expired-IsDistinct now_sec entries h.1)

set-IsDistinct :
    (jti : String) (exp_sec : ℕ) (entries : Entries)
    → IsDistinct entries
    → IsDistinct (Table.set jti exp_sec entries)
unfolding Table.set Table.get
set-IsDistinct jti exp_sec [] h = (refl, tt)
set-IsDistinct jti exp_sec ((j, exp) ∷ entries) h = ground (
  arith,
  eq_iff j jti,
  eq_iff jti j,
  Table.get-set jti j exp_sec entries,
  set-IsDistinct jti exp_sec entries h.1,
)

-- The abstract ledger: a partial function from identifiers.
abbrev pub Spec : Type 0
Spec = String → Option ℕ

abbrev pub spec_record : String → ℕ → Spec → Spec
spec_record jti exp_sec seen =
    λ j. elim (seen jti) [ some _ ↦ seen j | none ↦ if jti == j then some exp_sec else seen j ]

abbrev pub is_unseen : Option ℕ → Bool
is_unseen none = true
is_unseen (some _) = false

-- A use is answered `true` where the identifier is not there; a pruning forgets what has expired.
abbrev pub spec_answers : List Call → Spec → List Bool
spec_answers [] seen = []
spec_answers (record_use jti exp_sec ∷ calls) seen =
    is_unseen (seen jti) ∷ spec_answers calls (spec_record jti exp_sec seen)
spec_answers (prune now_sec ∷ calls) seen = spec_answers calls (λ j. unexpired now_sec (seen j))

-- The abstraction of a ledger.
abbrev pub spec_of : Entries → Spec
spec_of entries = λ j. Table.get j entries

record_jti_use-spec_of :
    (jti : String) (exp_sec : ℕ) (entries : Entries)
    → spec_of (record_jti_use jti exp_sec entries).1 ≡ spec_record jti exp_sec (spec_of entries)
unfolding record_jti_use
record_jti_use-spec_of jti exp_sec entries =
    fun_ext λ j. ground (arith, Table.get-set jti j exp_sec entries)

record_jti_use-is_unseen :
    (jti : String) (exp_sec : ℕ) (entries : Entries)
    → (record_jti_use jti exp_sec entries).0 ≡ is_unseen (Table.get jti entries)
unfolding record_jti_use
record_jti_use-is_unseen jti exp_sec entries = ground arith

record_jti_use-IsDistinct :
    (jti : String) (exp_sec : ℕ) (entries : Entries)
    → IsDistinct entries
    → IsDistinct (record_jti_use jti exp_sec entries).1
unfolding record_jti_use
record_jti_use-IsDistinct jti exp_sec entries h = elim (Option-cases (Table.get jti entries)) [
  | inl free ↦ ground (arith, set-IsDistinct jti exp_sec entries h)
  | inr (exp, taken) ↦ ground arith
]

-- Whatever uses and prunings are called on a ledger in which no identifier stands twice, the
-- uses are answered as by a partial function from identifiers to expiries: true exactly where
-- the identifier has no expiry recorded, a pruning forgetting those that have come.
pub answers-spec_of :
    (calls : List Call) (entries : Entries)
    → IsDistinct entries
    → answers calls entries ≡ spec_answers calls (spec_of entries)
unfolding answers
answers-spec_of [] entries h = refl
answers-spec_of (record_use jti exp_sec ∷ calls) entries h =
    let next = (record_jti_use jti exp_sec entries).1 in
    let ih =
      answers-spec_of calls next (record_jti_use-IsDistinct jti exp_sec entries h)
      ∙ ap (spec_answers calls) (record_jti_use-spec_of jti exp_sec entries) in
    ap (◌∷◌ (record_jti_use jti exp_sec entries).0) ih
    ∙ ap (λ (b : Bool). b ∷ spec_answers calls (spec_record jti exp_sec (spec_of entries)))
        (record_jti_use-is_unseen jti exp_sec entries)
answers-spec_of (prune now_sec ∷ calls) entries h =
    let next = (prune_expired now_sec entries).1 in
    answers-spec_of calls next (prune_expired-IsDistinct now_sec entries h)
    ∙ ap (spec_answers calls) (fun_ext λ j. get-prune_expired now_sec j entries h)

-- The ledger after some calls.
unfoldable pub after : List Call → Entries → Entries
after [] entries = entries
after (record_use jti exp_sec ∷ calls) entries = after calls (record_jti_use jti exp_sec entries).1
after (prune now_sec ∷ calls) entries = after calls (prune_expired now_sec entries).1

-- Every pruning among some calls comes before a second.
abbrev pub PrunesBefore : ℕ → List Call → Type 0
PrunesBefore exp_sec [] = Unit
PrunesBefore exp_sec (record_use _ _ ∷ calls) = PrunesBefore exp_sec calls
PrunesBefore exp_sec (prune now_sec ∷ calls) = (now_sec < exp_sec) × PrunesBefore exp_sec calls

record_jti_use-stored :
    (jti : String) (exp_sec : ℕ) (entries : Entries)
    → (record_jti_use jti exp_sec entries).0 ≡ true
    → Table.get jti (record_jti_use jti exp_sec entries).1 ≡ some exp_sec
unfolding record_jti_use
record_jti_use-stored jti exp_sec entries h = ground (arith, Table.get-set_self jti exp_sec entries)

record_jti_use-keeps :
    (jti j : String) (exp_sec e : ℕ) (entries : Entries)
    → Table.get jti entries ≡ some exp_sec
    → Table.get jti (record_jti_use j e entries).1 ≡ some exp_sec
unfolding record_jti_use
record_jti_use-keeps jti j exp_sec e entries h = elim (Bool-cases (j == jti)) [
  | inl same ↦ ground (arith, h, ap (λ (k : String). Table.get k entries) ((eq_iff j jti).0 same))
  | inr other ↦ ground (arith, h, Table.get-set j jti e entries)
]

after-keeps :
    (jti : String) (exp_sec : ℕ) (calls : List Call) (entries : Entries)
    → IsDistinct entries
    → PrunesBefore exp_sec calls
    → Table.get jti entries ≡ some exp_sec
    → Table.get jti (after calls entries) ≡ some exp_sec
unfolding after
after-keeps jti exp_sec [] entries d p h = h
after-keeps jti exp_sec (record_use j e ∷ calls) entries d p h =
    after-keeps jti exp_sec calls (record_jti_use j e entries).1
      (record_jti_use-IsDistinct j e entries d) p (record_jti_use-keeps jti j exp_sec e entries h)
after-keeps jti exp_sec (prune now_sec ∷ calls) entries d p h =
    after-keeps jti exp_sec calls (prune_expired now_sec entries).1
      (prune_expired-IsDistinct now_sec entries d) p.1
      (ground (arith, get-prune_expired now_sec jti entries d, h, p.0))

-- On a ledger in which no identifier stands twice, after a use of an identifier was accepted
-- with an expiry, and whatever other uses and prunings of earlier seconds come in between,
-- another use of it is refused.
pub replay_refused :
    (jti : String) (exp_sec again : ℕ) (calls : List Call) (entries : Entries)
    → IsDistinct entries
    → (record_jti_use jti exp_sec entries).0 ≡ true
    → PrunesBefore exp_sec calls
    → (record_jti_use jti again (after calls (record_jti_use jti exp_sec entries).1)).0 ≡ false
replay_refused jti exp_sec again calls entries d first_use p =
    let next = (record_jti_use jti exp_sec entries).1 in
    let recorded = record_jti_use-stored jti exp_sec entries first_use in
    let kept =
      after-keeps jti exp_sec calls next (record_jti_use-IsDistinct jti exp_sec entries d) p
        recorded in
    record_jti_use-is_unseen jti again (after calls next) ∙ ap is_unseen kept
