-- ===== src/Tests/ChecklistRuns.antt =====
-- The checklist service, run on a task with two checklists.
use kurultay.Base.{
  ℕ, zero, suc, ◌≤◌, length, ◌*◌, ◌≡◌, refl, sym, ap, subst, inl, inr, true, false, Option, none,
  some, List, [], ◌∷◌, ◌++◌, arith, get_elem?, All, ltb, if◌then◌else◌, Bool-cases, Option-cases,
  ok,
}
use kurultay.Ordering.Slots.{Sibling, item_before, find_index}
use kurultay.Ordering.Slots.Laws.{id_of}
use kurultay.Ordering.Fractional.{midpoint, needs_rebalance}
use kurultay.Ordering.Placement.{pos_of, IsPlaced}
use kurultay.Store.{BoardEvent, emit_to_board}
use kurultay.Tasks.{find_task}
use kurultay.Checklists.{
  Checklist, Checked, PositionReads, checklists_in, emit_updated, end_position, index_after, create,
  move,
}
use kurultay.Checklists.Create.{create_checklist_lem}
use kurultay.Checklists.Move.{others, move_checklist-IsPlaced}
use kurultay.Tests.Grid.{grid, sorted}
use kurultay.Tests.Boards.{gap, task_at, office}

abbrev higher : Sibling ℕ → Option (Sibling ℕ) → Sibling ℕ
higher x none = x
higher x (some y) = if ltb x.position y.position then y else x

abbrev highest : List (Sibling ℕ) → Option (Sibling ℕ)
highest [] = none
highest (x ∷ xs) = some (higher x (highest xs))

highest_none : (xs : List (Sibling ℕ)) → highest xs ≡ none → xs ≡ []
highest_none [] e = refl
highest_none (x ∷ xs) e = cc

All-not_above :
    (a b : ℕ) (xs : List (Sibling ℕ))
    → ltb a b ≡ false
    → All (λ x. ltb b x.position ≡ false) xs
    → All (λ x. ltb a x.position ≡ false) xs
All-not_above a b [] h k = tt
All-not_above a b (x ∷ xs) h k = (ground (arith, k.0), All-not_above a b xs h k.1)

highest_some :
    (xs : List (Sibling ℕ)) (s : Sibling ℕ)
    → highest xs ≡ some s
    → All (λ x. ltb s.position x.position ≡ false) xs
highest_some [] s e = cc
highest_some (x ∷ xs) s e = elim (Option-cases (highest xs)) [
  | inl empty ↦
      let only : x ≡ s = some-injective (rw empty at e) in
      subst (λ z. All (λ y. ltb z.position y.position ≡ false) (x ∷ xs)) only
        (
          ground arith,
          subst (All (λ y. ltb x.position y.position ≡ false)) (sym (highest_none xs empty)) tt,
        )
  | inr (y, found) ↦ elim (Bool-cases (ltb x.position y.position)) [
    | inl above ↦
        let only : y ≡ s = some-injective (rw above at (rw found at e)) in
        subst (λ z. All (λ y. ltb z.position y.position ≡ false) (x ∷ xs)) only
          (ground arith, highest_some xs y found)
    | inr below ↦
        let only : x ≡ s = some-injective (rw below at (rw found at e)) in
        subst (λ z. All (λ y. ltb z.position y.position ≡ false) (x ∷ xs)) only
          (ground arith, All-not_above x.position y.position xs below (highest_some xs y found))
  ]
]
  where
    some-injective : {a b : Sibling ℕ} → some a ≡ some b → a ≡ b
    some-injective {a} e = ap (value_or a) e
      where
        value_or : Sibling ℕ → Option (Sibling ℕ) → Sibling ℕ
        value_or d none = d
        value_or d (some z) = z

-- The higher row of a list has what all rows have.
highest_one_of :
    (xs : List (Sibling ℕ)) (s : Sibling ℕ)
    → highest xs ≡ some s
    → (P : Sibling ℕ → Type 0) → All P xs
    → P s
highest_one_of [] s e P h = cc
highest_one_of (x ∷ xs) s e P h = elim (Option-cases (highest xs)) [
  | inl empty ↦ subst P (some_eq (rw empty at e)) h.0
  | inr (y, found) ↦ elim (Bool-cases (ltb x.position y.position)) [
    | inl above ↦ subst P (some_eq (rw above at (rw found at e))) (highest_one_of xs y found P h.1)
    | inr below ↦ subst P (some_eq (rw below at (rw found at e))) h.0
  ]
]
  where
    some_eq : {a b : Sibling ℕ} → some a ≡ some b → a ≡ b
    some_eq {a} e = ap (value_or a) e
      where
        value_or : Sibling ℕ → Option (Sibling ℕ) → Sibling ℕ
        value_or d none = d
        value_or d (some z) = z

abbrev by_position : PositionReads grid
by_position = record {
  order_by_position = sorted.order_by;
  order_by_position-perm = sorted.order_by-perm;
  highest = highest;
  highest_none = highest_none;
  highest_some = highest_some;
  highest_one_of = highest_one_of;
}

abbrev checklist_at : ℕ → ℕ → Checklist ℕ
checklist_at id position = record {
  id = id;
  task_id = 100;
  title = "Before we open";
  position = position;
}

abbrev desk : Checked ℕ
desk = record {
  store = office;
  checklists = checklist_at 2 (2 * gap) ∷ checklist_at 1 gap ∷ checklist_at 3 (3 * gap) ∷ [];
}

abbrev announced : Checked ℕ → Checked ℕ
announced s = record s {
  store = emit_to_board office (record {
    board_id = 1;
    workspace_id = 7;
    actor_id = 5;
    event = BoardEvent.task_updated 100;
  });
}

abbrev longer : Checked ℕ
longer = announced (record desk {
  checklists =
      checklist_at 2 (2 * gap)
      ∷ checklist_at 1 gap
      ∷ checklist_at 3 (3 * gap)
      ∷ checklist_at 4 (4 * gap)
      ∷ [];
})

create_run :
    create grid by_position desk 4 7 100 5 "Before we open" ≡ ok (task_at 100 1 10 gap, longer)
unfolding create find_task emit_updated end_position
create_run = refl

create_checklist_lem_example :
    (c : Checklist ℕ) × (longer.checklists ≡ desk.checklists ++ c ∷ [])
    × (c.task_id ≡ 100)
    × (c.title ≡ "Before we open")
    × All (λ x. ltb x.position c.position ≡ true) (checklists_in 100 desk.checklists)
create_checklist_lem_example =
    create_checklist_lem grid by_position desk 4 7 100 5 "Before we open" (task_at 100 1 10 gap)
      longer create_run (refl, (refl, (refl, tt)))

-- The last checklist, moved behind the first.
abbrev moved : Checked ℕ
moved = announced (record desk {
  checklists = checklist_at 2 (2 * gap) ∷ checklist_at 1 gap ∷ checklist_at 3 3000000000 ∷ [];
})

move_run : move grid by_position desk 7 100 5 3 (some 1) ≡ ok (task_at 100 1 10 gap, moved)
unfolding move find_task emit_updated index_after find_index midpoint
move_run = refl

gaps_wide :
    (i : ℕ)
    → i ≤ length (others grid by_position desk 100 3)
    → id_of (item_before (others grid by_position desk 100 3) i) ≡ some 1
    → needs_rebalance grid
        (pos_of (item_before (others grid by_position desk 100 3) i))
        (pos_of (get_elem? (others grid by_position desk 100 3) i))
      ≡ false
unfolding needs_rebalance
gaps_wide zero le behind = refl
gaps_wide (suc zero) le behind = refl
gaps_wide (suc (suc zero)) le behind = refl
gaps_wide (suc (suc (suc i))) le behind = refl

move_checklist-IsPlaced_example :
    (i : ℕ) × (id_of (item_before (others grid by_position desk 100 3) i) ≡ some 1)
    × IsPlaced grid (checklists_in 100 moved.checklists) (others grid by_position desk 100 3) 3 i
move_checklist-IsPlaced_example =
    move_checklist-IsPlaced grid by_position desk 7 100 5 3 (some 1) (task_at 100 1 10 gap) moved
      move_run (ground arith) (inl refl, (tt, tt)) (refl, (refl, tt)) gaps_wide
