-- ===== src/Storage/Paging/Walk.antt =====
-- A client that asks for page after page until a page has no cursor sees every row once, in order.
use Prim.Native.Nat.{min, max}
use mathlib.Core.Path.{subst}
use mathlib.Core.Option
use licensing.Common.{
  ℕ, zero, suc, ◌+◌, ◌-◌, ◌≤◌, ◌<◌, ◌≡◌, ◌≢◌, refl, ap, ◌∙◌, sym, Bool, true, false, Option, none,
  some, List, [], ◌∷◌, ◌++◌, arith, inl, inr, Bool-cases, ltb, lt→ltb, ltb→lt, length, take, drop,
  All, take-append-drop,
}
use licensing.Storage.Paging.{
  CursorTuple, Page, is_after, find_index, last, sort, page_from, paginate,
}
use licensing.Storage.Paging.Order.{is_after_irrefl, is_after_asymm}
use licensing.Storage.Paging.Sort.{IsDescending, HasDistinctKeys, sort-IsDescending, length-sort}

module _ {A : Type 0} where
  abbrev pub get_elem? : List A → ℕ → Option A
  get_elem? [] i = none
  get_elem? (x ∷ xs) zero = some x
  get_elem? (x ∷ xs) (suc i) = get_elem? xs i

  All-get_elem? {κ} :
      (P : A → Type κ) (xs : List A) (i : ℕ) (r : A) → All P xs → get_elem? xs i ≡ some r → P r
  All-get_elem? P [] i r h e = absurd (ground arith)
  All-get_elem? P (x ∷ xs) zero r h e = subst P (cc) h.0
  All-get_elem? P (x ∷ xs) (suc i) r h e = All-get_elem? P xs i r h.1 e

  get_elem?-drop : (s : ℕ) (xs : List A) (i : ℕ) → get_elem? (drop s xs) i ≡ get_elem? xs (s + i)
  get_elem?-drop zero xs i = ap (get_elem? xs) (omega arith)
  get_elem?-drop (suc s) [] i = refl
  get_elem?-drop (suc s) (x ∷ xs) i =
      let e : suc s + i ≡ suc (s + i) = omega arith in rw e (get_elem?-drop s xs i)

  get_elem?-take : (n : ℕ) (xs : List A) (i : ℕ) → i < n → get_elem? (take n xs) i ≡ get_elem? xs i
  get_elem?-take zero xs i h = absurd (omega arith)
  get_elem?-take (suc n) [] i h = refl
  get_elem?-take (suc n) (x ∷ xs) zero h = refl
  get_elem?-take (suc n) (x ∷ xs) (suc i) h = get_elem?-take n xs i (omega arith)

  last_lem : (xs : List A) → last xs ≡ get_elem? xs (length xs - 1)
  unfolding last
  last_lem [] = refl
  last_lem (x ∷ []) = refl
  last_lem (x ∷ y ∷ xs) =
      let e : suc (suc (length xs)) - 1 ≡ suc (suc (length xs) - 1) = omega arith in
      rw e (last_lem (y ∷ xs))

  length-take : (n : ℕ) (xs : List A) → length (take n xs) ≡ min n (length xs)
  length-take zero xs = omega arith
  length-take (suc n) [] = omega arith
  length-take (suc n) (x ∷ xs) = omega (arith, length-take n xs)

  length-drop : (n : ℕ) (xs : List A) → length (drop n xs) ≡ length xs - n
  length-drop zero xs = omega arith
  length-drop (suc n) [] = omega arith
  length-drop (suc n) (x ∷ xs) = omega (arith, length-drop n xs)

  drop-nil : (n : ℕ) → drop {A = A} n [] ≡ []
  drop-nil zero = refl
  drop-nil (suc n) = refl

  drop-drop : (m n : ℕ) (xs : List A) → drop m (drop n xs) ≡ drop (n + m) xs
  drop-drop m zero xs = ap (λ k. drop k xs) (omega arith)
  drop-drop m (suc n) [] = drop-nil m ∙ sym (drop-nil (suc n + m))
  drop-drop m (suc n) (x ∷ xs) =
      let e : suc n + m ≡ suc (n + m) = omega arith in rw e (drop-drop m n xs)

  take_all : (n : ℕ) (xs : List A) → length xs ≤ n → take n xs ≡ xs
  take_all zero [] h = refl
  take_all zero (x ∷ xs) h = absurd (omega arith)
  take_all (suc n) [] h = refl
  take_all (suc n) (x ∷ xs) h = ap (◌∷◌ x) (take_all n xs (omega arith))

  get_elem?-some : (xs : List A) (i : ℕ) → i < length xs → (r : A) × (get_elem? xs i ≡ some r)
  get_elem?-some [] i h = absurd (omega arith)
  get_elem?-some (x ∷ xs) zero h = (x, refl)
  get_elem?-some (x ∷ xs) (suc i) h = get_elem?-some xs i (omega arith)

module _ {A : Type 0} (p : A → Bool) where
  find_index-here : (x : A) (xs : List A) → p x ≡ true → find_index p (x ∷ xs) ≡ some 0
  unfolding find_index
  find_index-here x xs e = rw e

  find_index-there :
      (x : A) (xs : List A) (i : ℕ)
      → p x ≡ false
      → find_index p xs ≡ some i
      → find_index p (x ∷ xs) ≡ some (suc i)
  unfolding find_index
  find_index-there x xs i e f = ground arith

module _ {A : Type 0} (key : A → CursorTuple) where
  -- In a descending list the first row after the row at `n` stands at `n + 1`.
  find_index_next :
      (l : List A) (n : ℕ) (r : A)
      → IsDescending key l
      → get_elem? l n ≡ some r
      → suc n < length l
      → find_index (λ y. is_after (key y) (key r)) l ≡ some (suc n)
  find_index_next [] n r d e h = absurd (omega arith)
  find_index_next (x ∷ []) n r d e h = absurd (omega arith)
  find_index_next (x ∷ y ∷ l) zero r d e h =
      let same : x ≡ r = cc in
      find_index-there _ x (y ∷ l) 0 (rw same (is_after_irrefl (key r)))
        (find_index-here _ y l (rw (← same) d.0.0))
  find_index_next (x ∷ y ∷ l) (suc n) r d e h =
      find_index-there _ x (y ∷ l) (suc n)
        (is_after_asymm (key r) (key x) (All-get_elem? _ (y ∷ l) n r d.0 e))
        (find_index_next (y ∷ l) n r d.1 e (omega arith))

  module _ (rows : List A) (limit : ℕ) where
    abbrev size : ℕ
    size = max 1 (min limit 500)

    abbrev slice : ℕ → List A
    slice s = take size (drop s (sort key rows))

    abbrev request : Option CursorTuple → Page A
    request cursor = paginate key rows (record { limit = limit; cursor = cursor })

    -- A client's walk from a cursor: `none` if its requests are used up before the last page.
    unfoldable pub walk : ℕ → Option CursorTuple → Option (List A)
    walk zero cursor = none
    walk (suc fuel) cursor =
        let page = request cursor in
        elim page.cursor [
          | none ↦ some page.items
          | some c ↦ Option.map (λ rest. page.items ++ rest) (walk fuel (some c))
        ]

    last-slice :
        (s : ℕ)
        → length (slice s) ≢ 0
        → last (slice s) ≡ get_elem? (sort key rows) (s + (length (slice s) - 1))
    last-slice s h =
        last_lem (slice s)
        ∙ get_elem?-take size (drop s (sort key rows)) (length (slice s) - 1)
            (omega (arith, length-take size (drop s (sort key rows))))
        ∙ get_elem?-drop s (sort key rows) (length (slice s) - 1)

    cursor-page_from :
        (s : ℕ) (r : A)
        → s + length (slice s) < length (sort key rows)
        → last (slice s) ≡ some r
        → (page_from key (sort key rows) s size).cursor ≡ some (key r)
    unfolding page_from
    cursor-page_from s r h e = rw (lt→ltb _ _ h, e)

    request_at :
        (r : A) (n : ℕ)
        → find_index (λ y. is_after (key y) (key r)) (sort key rows) ≡ some n
        → request (some (key r)) ≡ page_from key (sort key rows) n size
    unfolding paginate
    request_at r n e = rw (e, paginate)

    -- A page that ends before the list does has a cursor, and it leads to the page after it.
    page_from_more :
        (s : ℕ)
        → IsDescending key (sort key rows)
        → s + length (slice s) < length (sort key rows)
        → (c : CursorTuple) × ((page_from key (sort key rows) s size).cursor ≡ some c)
          × (request (some c) ≡ page_from key (sort key rows) (s + size) size)
    page_from_more s d h =
        let l = sort key rows in
        let full : length (slice s) ≡ size =
          omega (arith, length-take size (drop s l), length-drop s l) in
        let n = s + (length (slice s) - 1) in
        let (r, e) = get_elem?-some l n (omega arith) in
        let next : suc n ≡ s + size = omega arith in
        (
          key r,
          cursor-page_from s r h (last-slice s (omega arith) ∙ e),
          rw (← next) (request_at r (suc n) (find_index_next l n r d e (omega arith))),
        )

    -- The last page has no cursor.
    page_from_last :
        (s : ℕ)
        → length (sort key rows) ≤ s + length (slice s)
        → (page_from key (sort key rows) s size).cursor ≡ none
    unfolding page_from
    page_from_last s h = ground arith

    slice_rest :
        (s : ℕ)
        → length (slice s) ≡ size
        → slice s ++ drop (s + size) (sort key rows) ≡ drop s (sort key rows)
    slice_rest s h =
        rw (← drop-drop size s (sort key rows)) (take-append-drop size (drop s (sort key rows)))

    walk-last :
        (fuel : ℕ) (cursor : Option CursorTuple)
        → (request cursor).cursor ≡ none
        → walk (suc fuel) cursor ≡ some (request cursor).items
    unfolding walk
    walk-last fuel cursor e = rw (e, walk)

    walk-more :
        (fuel : ℕ) (cursor : Option CursorTuple) (c : CursorTuple) (rest : List A)
        → (request cursor).cursor ≡ some c
        → walk fuel (some c) ≡ some rest
        → walk (suc fuel) cursor ≡ some ((request cursor).items ++ rest)
    unfolding walk
    walk-more fuel cursor c rest e f = rw (e, walk) (rw (f, walk, Option.map))

    items-page_from : (s : ℕ) → (page_from key (sort key rows) s size).items ≡ slice s
    unfolding page_from
    items-page_from s = refl

    -- From the page at `s`, enough requests collect what stands from there on.
    walk_from :
        (fuel s : ℕ) (cursor : Option CursorTuple)
        → IsDescending key (sort key rows)
        → request cursor ≡ page_from key (sort key rows) s size
        → s ≤ length (sort key rows)
        → length (sort key rows) - s < fuel
        → walk fuel cursor ≡ some (drop s (sort key rows))
    walk_from zero s cursor d at le enough = absurd (omega arith)
    walk_from (suc fuel) s cursor d at le enough =
        let l = sort key rows in
        let ls = length-take size (drop s l) in
        let ld = length-drop s l in
        let items : (request cursor).items ≡ slice s = rw at (items-page_from s) in
        elim (Bool-cases (ltb (s + length (slice s)) (length l))) [
          | inl more ↦
              let h = ltb→lt _ _ more in
              let (c, e, next) = page_from_more s d h in
              walk-more fuel cursor c (drop (s + size) l) (rw at e)
                (walk_from fuel (s + size) (some c) d next (omega arith) (omega arith))
              ∙ ap some (rw items (slice_rest s (omega arith)))
          | inr done ↦
              walk-last fuel cursor (rw at (page_from_last s (ground arith)))
              ∙ ap some (items ∙ take_all size (drop s l) (ground arith))
        ]

    request_first : request none ≡ page_from key (sort key rows) 0 size
    unfolding paginate
    request_first = refl

    -- Requesting page after page, each at the cursor that the one before returned, with one
    -- more request allowed than there are rows, collects all the rows in the order (created_at
    -- DESC, id DESC), each once, whatever the limit, if no two rows have one cursor.
    pub walk_all :
        (fuel : ℕ)
        → HasDistinctKeys key rows
        → length rows < fuel
        → walk fuel none ≡ some (sort key rows)
    walk_all fuel h enough =
        walk_from fuel 0 none (sort-IsDescending key rows h) request_first (omega arith)
          (omega (arith, length-sort key rows))
