-- ===== src/Ordering/Respread.antt =====
-- rebalance-sql.ts and the update lists that the services hand it when a gap has run out.
pub mod Laws
use kurultay.Base.{
  ℕ, suc, ◌+◌, Bool, not, none, some, List, length, get_or, insert_at, map_from, keep_if,
  find_first, ltb, ◌==◌, if◌then◌else◌,
}
use kurultay.Ordering.Number.{Number}
use kurultay.Ordering.Fractional.{rebalance_positions}
use kurultay.Ordering.Slots.{Sibling}

module _ {Num : Type 0} where
  -- Each row of a list under a position of its own, counted from `k`.
  abbrev pub respread_from : ℕ → (ℕ → Num) → List (Sibling Num) → List (Sibling Num)
  respread_from k at = map_from k (λ i s. record { id = s.id; position = at i })

  -- `reordered.splice(insertionIndex, 0, { id, position })`
  abbrev pub reordered : ℕ → Sibling Num → List (Sibling Num) → List (Sibling Num)
  reordered = insert_at

  -- `SET position = v.position … WHERE t.id = v.id`, for one row.
  unfoldable pub reposition : List (Sibling Num) → Sibling Num → Sibling Num
  reposition updates row = elim (find_first (λ u. u.id == row.id) updates) [
    | none ↦ row
    | some u ↦ record row { position = u.position }
  ]

module _ (n : Number) where
  -- `positions[i]!`; every index that the services use is in range.
  abbrev pub position_at : List n.Num → ℕ → n.Num
  position_at positions i = get_or positions i (n.gap_times 0)

  -- The updates when a row is created: the siblings leave the new row's slot free.
  unfoldable pub create_updates : ℕ → List (Sibling n.Num) → List (Sibling n.Num)
  create_updates insertion_index siblings =
      let positions = rebalance_positions n (length siblings + 1) in
      respread_from 0
        (λ index. position_at positions (if ltb index insertion_index then index else index + 1))
        siblings

  -- The updates when a row is moved: all but the moved row's own.
  unfoldable pub other_updates : ℕ → Sibling n.Num → List (Sibling n.Num) → List (Sibling n.Num)
  other_updates insertion_index moved remaining =
      let rows = reordered insertion_index moved remaining in
      keep_if (λ u. not (u.id == moved.id))
        (respread_from 0 (position_at (rebalance_positions n (length rows))) rows)
