-- ===== src/Checklists/Create.antt =====
-- `ChecklistService.create`: a new checklist goes to the end of its task.
use kurultay.Base.{
  ℕ, ◌≡◌, refl, sym, ap, subst, inl, inr, true, false, String, List, [], ◌∷◌, ◌++◌, arith, All,
  find_first-holds, Option-cases, ok, >>=-eq-ok, or_throw-eq-ok, ok-injective,
}
use kurultay.Ordering.Number.{Number}
use kurultay.Ordering.Slots.{Sibling}
use kurultay.Ordering.Placement.{IsFine}
use kurultay.Store.{Task, Store}
use kurultay.Tasks.{find_task, is_task_of}
use kurultay.Checklists.{
  Checklist, Checked, PositionReads, checklists_in, emit_updated, end_position, create,
}

module _ {Num : Type 0} where
  -- Announcing a change leaves the checklists alone.
  pub emit_updated-checklists :
      (s : Checked Num) (w task_id u : ℕ) {t : Task Num} {s' : Checked Num}
      → emit_updated s w task_id u ≡ ok (t, s')
      → s'.checklists ≡ s.checklists
  unfolding emit_updated
  emit_updated-checklists s w task_id u e =
      let (task, e0, e1) = >>=-eq-ok (find_task s.store w task_id) _ e in
      sym (ap (λ p. p.1.checklists) (ok-injective e1))

  pub find_task-id : (s : Store Num) (w i : ℕ) {t : Task Num} → find_task s w i ≡ ok t → t.id ≡ i
  unfolding find_task
  find_task-id s w i {t} e =
      let holds : is_task_of s w i t ≡ true = find_first-holds _ s.tasks (or_throw-eq-ok _ _ e) in
      ground arith

module _ (n : Number) (reads : PositionReads n) where
  All-map_lt :
      (a c : n.Num) (xs : List (Sibling n.Num))
      → n.lt a c ≡ true
      → All (λ x. n.lt a x.position ≡ false) xs
      → All (λ x. n.lt x.position c ≡ true) xs
  All-map_lt a c [] h k = tt
  All-map_lt a c (x ∷ xs) h k = (n.lt_of_not_lt a x.position c k.0 h, All-map_lt a c xs h k.1)

  lt-end_position :
      (xs : List (Sibling n.Num))
      → IsFine n xs
      → All (λ x. n.lt x.position (end_position n reads xs) ≡ true) xs
  unfolding end_position
  lt-end_position xs fine = elim (Option-cases (reads.highest xs)) [
    | inl none_there ↦
        subst (All (λ x. n.lt x.position (end_position n reads xs) ≡ true))
          (sym (reads.highest_none xs none_there)) tt
    | inr (last, found) ↦
        rw (found, end_position)
          (All-map_lt last.position (n.add_gap last.position) xs
            (n.lt-add_gap last.position
              (reads.highest_one_of xs last found (λ x. n.is_fine x.position ≡ true) fine))
            (reads.highest_some xs last found))
  ]

  -- A created checklist is the task's, and its position is behind those of all the checklists that
  -- the task has; no other checklist changes. The hypothesis: the positions are fine enough for a
  -- gap behind them.
  pub create_checklist_lem :
      (s : Checked n.Num) (new_id workspace_id task_id actor_id : ℕ) (title : String)
      (t : Task n.Num) (s' : Checked n.Num)
      → create n reads s new_id workspace_id task_id actor_id title ≡ ok (t, s')
      → IsFine n (checklists_in task_id s.checklists)
      → (c : Checklist n.Num) × (s'.checklists ≡ s.checklists ++ c ∷ [])
        × (c.task_id ≡ task_id)
        × (c.title ≡ title)
        × All (λ x. n.lt x.position c.position ≡ true) (checklists_in task_id s.checklists)
  unfolding create
  create_checklist_lem s new_id workspace_id task_id actor_id title t s' e fine =
      let (task, e0, e1) = >>=-eq-ok (find_task s.store workspace_id task_id) _ e in
      let same : task.id ≡ task_id = find_task-id s.store workspace_id task_id e0 in
      (
        record {
          id = new_id;
          task_id = task.id;
          title = title;
          position = end_position n reads (checklists_in task.id s.checklists);
        },
        emit_updated-checklists _ workspace_id task_id actor_id e1,
        same,
        refl,
        subst
            (λ a.
              All
                (λ x. n.lt x.position (end_position n reads (checklists_in a s.checklists)) ≡ true)
                (checklists_in task_id s.checklists))
            (sym same) (lt-end_position (checklists_in task_id s.checklists) fine),
      )
