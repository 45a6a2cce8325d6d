-- ===== src/Tests/SlotRuns.antt =====
-- The slots of a short list, and a midpoint between its rows.
use kurultay.Base.{ℕ, ◌*◌, ◌≡◌, ◌↔◌, refl, none, some, List, [], ◌∷◌, arith, ok, false, inl}
use kurultay.Ordering.Slots.{
  Sibling, InsertionSlot, slice_slot, find_index, index_of_id, resolve_move_neighbors,
  resolve_create_neighbors,
}
use kurultay.Ordering.Slots.Laws.{
  IsSlotFor, resolve_move-IsSlotFor, resolve_create-IsSlotFor, resolve_create_iff_move,
}
use kurultay.Ordering.Chain.{IsOrdered}
use kurultay.Ordering.Fractional.{midpoint, needs_rebalance}
use kurultay.Ordering.Placement.{midpoint-IsOrdered}
use kurultay.Tests.Grid.{grid}
use kurultay.Tests.Boards.{gap}

abbrev rows : List (Sibling ℕ)
rows = record { id = 1; position = gap } ∷ record { id = 2; position = 2 * gap } ∷ []

abbrev second : InsertionSlot ℕ
second = record {
  insertion_index = 1;
  prev = some (record { id = 1; position = gap });
  next = some (record { id = 2; position = 2 * gap });
}

find_run : resolve_move_neighbors rows (some 1) (some 2) ≡ ok second
unfolding resolve_move_neighbors slice_slot find_index index_of_id
find_run = refl

resolve_move-IsSlotFor_example : IsSlotFor rows (some 1) (some 2) second
resolve_move-IsSlotFor_example = resolve_move-IsSlotFor rows (some 1) (some 2) second find_run

behind_run : resolve_create_neighbors rows (some 1) "Task not found" ≡ ok second
unfolding resolve_create_neighbors slice_slot find_index
behind_run = refl

resolve_create-IsSlotFor_example : IsSlotFor rows (some 1) none second
resolve_create-IsSlotFor_example =
    resolve_create-IsSlotFor rows (some 1) "Task not found" second behind_run

resolve_create_iff_move_example :
    (resolve_create_neighbors rows (some 1) "Task not found" ≡ ok second)
    ↔ (resolve_move_neighbors rows (some 1) none ≡ ok second)
resolve_create_iff_move_example = resolve_create_iff_move rows (some 1) "Task not found" second

wide_run : needs_rebalance grid (some gap) (some (2 * gap)) ≡ false
unfolding needs_rebalance
wide_run = refl

midpoint-IsOrdered_example : IsOrdered grid (
    record { id = 1; position = gap }
    ∷ record { id = 3; position = midpoint grid (some gap) (some (2 * gap)) }
    ∷ record { id = 2; position = 2 * gap }
    ∷ [])
midpoint-IsOrdered_example =
    midpoint-IsOrdered grid 3 1 rows (inl (refl), (tt, tt)) (refl, (refl, tt)) (omega arith)
      wide_run
