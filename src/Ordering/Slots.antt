-- ===== src/Ordering/Slots.antt =====
-- apply-insertion.ts: the slot that a created or moved row goes into.
pub mod Laws
use kurultay.Base.{
  ℕ, zero, suc, ◌+◌, ◌&&◌, ◌||◌, not, Bool, true, false, Option, none, some, String, List, [], ◌∷◌,
  length, get_elem?, ◌==◌, if◌then◌else◌, not_found, Result, ok, err,
}

-- What the ordering reads of a task or a column: `{ id, position }`. Ids are UUIDs, read as the
-- numbers that they write out; a `PositionUpdate` has the same two fields.
pub record Sibling (Num : Type 0) : Type 0 where
  pub id : ℕ
  pub position : Num

pub record InsertionSlot (Num : Type 0) : Type 0 where
  pub insertion_index : ℕ
  pub prev : Option (Sibling Num)
  pub next : Option (Sibling Num)

abbrev pub is_some {ℓ} : {A : Type ℓ} → Option A → Bool
is_some none = false
is_some (some a) = true

-- `prevIndex >= 0 && nextIndex >= 0 && nextIndex !== prevIndex + 1`
abbrev pub are_apart : Option ℕ → Option ℕ → Bool
are_apart (some i) (some j) = not (j == i + 1)
are_apart _ _ = false

abbrev pub insertion_index_of : Option ℕ → Option ℕ → ℕ → ℕ
insertion_index_of (some i) next end = i + 1
insertion_index_of none (some j) end = j
insertion_index_of none none end = end

module _ {Num : Type 0} where
  -- `items[index - 1] ?? null`
  abbrev pub item_before : List (Sibling Num) → ℕ → Option (Sibling Num)
  item_before items zero = none
  item_before items (suc i) = get_elem? items i

  unfoldable pub slice_slot : List (Sibling Num) → ℕ → InsertionSlot Num
  slice_slot items insertion_index = record {
    insertion_index = insertion_index;
    prev = item_before items insertion_index;
    next = get_elem? items insertion_index;
  }

  -- `items.findIndex((item) => item.id === id)`, with `none` for -1.
  unfoldable pub find_index : ℕ → List (Sibling Num) → Option ℕ
  find_index id [] = none
  find_index id (x ∷ xs) =
      let later = find_index id xs in
      if x.id == id then some 0 else elim later [ none ↦ none | some i ↦ some (suc i) ]

  -- An id that is null or undefined is `none`.
  unfoldable pub index_of_id : Option ℕ → List (Sibling Num) → Option ℕ
  index_of_id none xs = none
  index_of_id (some id) xs = find_index id xs

  unfoldable pub resolve_move_neighbors :
      List (Sibling Num) → Option ℕ → Option ℕ → Result (InsertionSlot Num)
  unfolding slice_slot find_index index_of_id
  resolve_move_neighbors remaining prev_id next_id =
      let prev_index = index_of_id prev_id remaining in
      let next_index = index_of_id next_id remaining in
      if is_some prev_id && not (is_some prev_index)
        || is_some next_id && not (is_some next_index)
        || are_apart prev_index next_index
      then err (not_found "Neighbor not found")
      else ok (slice_slot remaining (insertion_index_of prev_index next_index (length remaining)))

  -- The named sibling is the first with its id, so its index in the array is that of the id; the
  -- last sibling stands at the end.
  unfoldable pub resolve_create_neighbors :
      List (Sibling Num) → Option ℕ → String → Result (InsertionSlot Num)
  unfolding slice_slot find_index
  resolve_create_neighbors siblings (some prev_id) message = elim (find_index prev_id siblings) [
    | none ↦ err (not_found message)
    | some i ↦ ok (slice_slot siblings (i + 1))
  ]
  resolve_create_neighbors siblings none message = ok (slice_slot siblings (length siblings))
