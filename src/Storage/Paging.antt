-- ===== src/Storage/Paging.antt =====
-- Lists in pages: typescript/src/storage/memory/cursor.ts and `paginate` of adapter.ts. A cursor
-- text is modelled by the pair that `decodeCursor` reads in it: `none` is an absent, empty or
-- malformed cursor, and `some c` is the text `encodeCursor c`.
pub mod Order
pub mod Sort
pub mod Walk
use Prim.Native.Nat.{min, max}
use licensing.Common.{
  ℕ, suc, ◌+◌, ◌==◌, Bool, true, not, Option, none, some, List, [], ◌∷◌, if◌then◌else◌, ltb,
  text_lt, length, take, drop,
}
use licensing.Types.{Instant, UuidV7}

-- `CursorTuple`, and the two fields by which a row is ordered.
pub record CursorTuple : Type 0 where
  pub created_at : Instant
  pub id : UuidV7

-- `compareDesc(a, b) <= 0`: `a` does not come after `b` in the order `(created_at DESC, id DESC)`.
unfoldable pub stays_before : CursorTuple → CursorTuple → Bool
stays_before a b =
    if not (a.created_at == b.created_at)
    then not (text_lt a.created_at b.created_at)
    else if not (a.id == b.id)
    then not (text_lt a.id b.id)
    else true

-- `isAfter(row, cursor)`
unfoldable pub is_after : CursorTuple → CursorTuple → Bool
is_after row cursor =
    if not (row.created_at == cursor.created_at)
    then text_lt row.created_at cursor.created_at
    else text_lt row.id cursor.id

pub record PageRequest : Type 0 where
  pub limit : ℕ
  pub cursor : Option CursorTuple

pub record Page (A : Type 0) : Type 0 where
  pub items : List A
  pub cursor : Option CursorTuple

module _ {A : Type 0} where
  -- `xs.findIndex(p)`, `none` for -1.
  unfoldable pub find_index : (A → Bool) → List A → Option ℕ
  find_index p [] = none
  find_index p (x ∷ xs) =
      let rest = find_index p xs in
      if p x then some 0 else elim rest [ none ↦ none | some i ↦ some (suc i) ]

  -- `xs.at(-1)`
  unfoldable pub last : List A → Option A
  last [] = none
  last (x ∷ []) = some x
  last (x ∷ y ∷ xs) = last (y ∷ xs)

module _ {A : Type 0} (key : A → CursorTuple) where
  -- `xs.sort(compareDesc)`, which is stable.
  unfoldable pub insert : A → List A → List A
  insert x [] = x ∷ []
  insert x (y ∷ ys) = if stays_before (key x) (key y) then x ∷ y ∷ ys else y ∷ insert x ys

  unfoldable pub sort : List A → List A
  unfolding insert
  sort [] = []
  sort (x ∷ xs) = insert x (sort xs)

  -- The page of a sorted list that begins at `start`.
  unfoldable pub page_from : List A → ℕ → ℕ → Page A
  unfolding last
  page_from sorted start limit =
      let slice = take limit (drop start sorted) in
      let has_more = ltb (start + length slice) (length sorted) in
      record {
        items = slice;
        cursor =
            if has_more then (elim (last slice) [ none ↦ none | some r ↦ some (key r) ]) else none;
      }

  -- `paginate`
  unfoldable pub paginate : List A → PageRequest → Page A
  paginate rows page =
      let limit = max 1 (min page.limit 500) in
      let sorted = sort rows in
      elim page.cursor [
        | none ↦ page_from sorted 0 limit
        | some c ↦ elim (find_index (λ r. is_after (key r) c) sorted) [
          | none ↦ record { items = []; cursor = none }
          | some start ↦ page_from sorted start limit
        ]
      ]
