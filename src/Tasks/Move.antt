-- ===== src/Tasks/Move.antt =====
-- `TaskService.move`: the task takes the slot between the named neighbours.
use mathlib.Core.List.Perm
use kurultay.Base.{
  ℕ, ◌+◌, ◌≤◌, ◌≡◌, refl, sym, ap, subst, ◌∙◌, ◌≢◌, inl, inr, ◌&&◌, ◌||◌, true, not, some, List,
  ◌∷◌, arith, map, Perm, length, get_elem?, find_first, find_first-holds, ◌==◌, if◌then◌else◌,
  Bool-cases, ok, >>=-eq-ok, or_throw, throw_if, or_throw-eq-ok, ok-injective, bad_request,
  not_found, unprocessable,
}
use kurultay.Base.Perms.{perm_of_eq, IsAbsent, IsDistinct, perm-IsDistinct, keep_if-perm}
use kurultay.Ordering.Number.{Number}
use kurultay.Ordering.Fractional.{needs_rebalance}
use kurultay.Ordering.Slots.{Sibling, InsertionSlot, item_before, resolve_move_neighbors}
use kurultay.Ordering.Slots.Laws.{IsSlotFor, slice_at, slice_at_lem, resolve_move-IsSlotFor}
use kurultay.Ordering.Chain.{IsOrdered, keep_if-IsOrdered}
use kurultay.Ordering.Respread.{reposition, other_updates}
use kurultay.Ordering.Tables.{
  without, without-IsAbsent, without-IsDistinct, rows_in-IsDistinct, rows_in-update,
  rows_in-update_elsewhere,
}
use kurultay.Ordering.Placement.{
  pos_of, SortedReads, IsFine, IsPlaced, midpoint-IsPlaced, move-IsPlaced as respread-IsPlaced,
}
use kurultay.Store.{Task, Store, task_sibling, in_workspace}
use kurultay.Tasks.{MoveTaskDto, tasks_in, is_task_of, is_id, find_task, write_move, move}
use kurultay.Tasks.Create.{tasks_in-batch, tasks_in-batch_elsewhere}

module _ {Num : Type 0} where
  is_task_of-id : (s : Store Num) (w i : ℕ) (x : Task Num) → is_task_of s w i x ≡ true → x.id ≡ i
  is_task_of-id s w i x h = ground arith

module _ (n : Number) (reads : SortedReads n) where
  -- The other tasks of a column, in position order.
  abbrev pub others : Store n.Num → ℕ → ℕ → List (Sibling n.Num)
  others s column_id task_id = without task_id (reads.order_by (tasks_in column_id s.tasks))

  module _ (s : Store n.Num) (w task_id c : ℕ) (task : Task n.Num)
      (found : find_first (is_task_of s w task_id) s.tasks ≡ some task)
      (distinct : IsDistinct (λ (x : Task n.Num). x.id) s.tasks) where
    xs : List (Sibling n.Num)
    xs = others s c task_id

    place_at : n.Num → Task n.Num → Task n.Num
    place_at position t = record t { column_id = c; position = position }

    id_eq : task.id ≡ task_id
    id_eq = is_task_of-id s w task_id task (find_first-holds _ s.tasks found)

    tasks_in-IsDistinct : IsDistinct (λ s. s.id) (tasks_in c s.tasks)
    tasks_in-IsDistinct = rows_in-IsDistinct _ task_sibling c s.tasks distinct

    xs-IsOrdered : IsOrdered n xs
    unfolding xs
    xs-IsOrdered =
        keep_if-IsOrdered n _ _ (reads.order_by-IsOrdered (tasks_in c s.tasks) tasks_in-IsDistinct)

    xs-IsDistinct : IsDistinct (λ s. s.id) xs
    unfolding xs
    xs-IsDistinct =
        without-IsDistinct task_id _
          (perm-IsDistinct _ (reads.order_by-perm (tasks_in c s.tasks)) tasks_in-IsDistinct)

    xs-IsAbsent : IsAbsent (λ s. s.id) task.id xs
    unfolding xs
    xs-IsAbsent = subst (λ a. IsAbsent (λ s. s.id) a xs) (sym id_eq) (without-IsAbsent task_id _)

    placed_perm :
        (p : n.Num)
        → Perm
            (tasks_in c (map (λ t. if is_task_of s w task_id t then place_at p t else t) s.tasks))
            (record { id = task.id; position = p } ∷ xs)
    unfolding xs place_at
    placed_perm p =
        Perm.trans
          (rows_in-update (λ t. t.column_id) task_sibling (is_task_of s w task_id) task_id
            (is_task_of-id s w task_id) c (place_at p) s.tasks distinct found refl)
          (Perm.cons _ (keep_if-perm _ (reads.order_by-perm (tasks_in c s.tasks))))

    write_move-IsPlaced :
        (i : ℕ)
        → i ≤ length xs
        → IsFine n xs
        → length xs + 1 ≤ n.max_length
        → IsPlaced n
            (tasks_in c (write_move n s w task_id task c (slice_at xs i) xs).1)
            xs
            task.id
            i
    unfolding write_move place_at
    write_move-IsPlaced i le fine small =
        elim (Bool-cases
          (needs_rebalance n (pos_of (item_before xs i)) (pos_of (get_elem? xs i)))) [
            | inl close ↦ rw close (
                respread-IsPlaced n xs task.id i le xs-IsAbsent xs-IsDistinct _ task.position small
                  (Perm.trans
                    (perm_of_eq (tasks_in-batch c (other_updates n i (task_sibling task) xs) _))
                    (Perm.map (reposition (other_updates n i (task_sibling task) xs))
                      (placed_perm _))))
            | inr wide ↦ rw wide (
                midpoint-IsPlaced n xs task.id i le xs-IsAbsent xs-IsDistinct _ xs-IsOrdered fine
                  wide (placed_perm _))
          ]

    write_move_elsewhere :
        (d : ℕ) (slot : InsertionSlot n.Num) (remaining : List (Sibling n.Num))
        → d ≢ c
        → tasks_in d (write_move n s w task_id task c slot remaining).1
          ≡ without task_id (tasks_in d s.tasks)
    unfolding write_move place_at
    write_move_elsewhere d slot remaining other =
        elim (Bool-cases (needs_rebalance n (pos_of slot.prev) (pos_of slot.next))) [
          | inl close ↦ rw close (tasks_in-batch_elsewhere c d _ _ other ∙ placed _)
          | inr wide ↦ rw wide (placed _)
        ]
      where
        placed :
            (p : n.Num)
            → tasks_in d (map (λ t. if is_task_of s w task_id t then place_at p t else t) s.tasks)
              ≡ without task_id (tasks_in d s.tasks)
        placed p =
            rows_in-update_elsewhere (λ t. t.column_id) task_sibling (is_task_of s w task_id)
              task_id (is_task_of-id s w task_id) d (place_at p) s.tasks distinct found
              (λ e. other (sym e))

  record Moved (s : Store n.Num) (w task_id : ℕ) (dto : MoveTaskDto) (t : Task n.Num)
      (s' : Store n.Num) (c : ℕ) : Type 0 where
    task : Task n.Num
    found : find_first (is_task_of s w task_id) s.tasks ≡ some task
    slot : InsertionSlot n.Num
    resolved :
        resolve_move_neighbors (others s c task_id) dto.before_task_id dto.after_task_id ≡ ok slot
    task_eq : t ≡ record task {
      column_id = c;
      position = (write_move n s w task_id task c slot (others s c task_id)).0;
    }
    tasks_eq : s'.tasks ≡ (write_move n s w task_id task c slot (others s c task_id)).1

  move_inv :
      (s : Store n.Num) (w task_id user_id : ℕ) (dto : MoveTaskDto) {t : Task n.Num}
      {s' : Store n.Num}
      → move n reads s w task_id user_id dto ≡ ok (t, s')
      → Moved s w task_id dto t s' dto.column_id
  unfolding move find_task
  move_inv s w task_id user_id dto {t} {s'} e =
      let (task, e0, e1) = >>=-eq-ok (find_task s w task_id) _ e in
      let (u, e2, e3) =
        >>=-eq-ok
          (throw_if (is_id dto.before_task_id task_id || is_id dto.after_task_id task_id)
            (bad_request "A task cannot be its own neighbor"))
          _ e1 in
      let (target, e4, e5) =
        >>=-eq-ok
          (or_throw
            (find_first (λ c. c.id == dto.column_id && in_workspace s w c.board_id) s.columns)
            (not_found "Column not found"))
          _ e3 in
      let (u', e6, e7) =
        >>=-eq-ok
          (throw_if (not (target.board_id == task.board_id))
            (unprocessable "Cannot move a task to a column on another board"))
          _ e5 in
      let (slot, e8, e9) =
        >>=-eq-ok
          (resolve_move_neighbors (others s target.id task_id) dto.before_task_id dto.after_task_id)
          _ e7 in
      let same : target.id ≡ dto.column_id =
        ground (arith, find_first-holds _ s.columns (or_throw-eq-ok _ _ e4)) in
      subst (Moved s w task_id dto t s') same (record {
        task = task;
        found = or_throw-eq-ok _ _ e0;
        slot = slot;
        resolved = e8;
        task_eq = sym (ap (λ p. p.0) (ok-injective e9));
        tasks_eq = sym (ap (λ p. p.1.tasks) (ok-injective e9));
      })

  -- A moved task keeps its id and gets the request's column. There it stands in the slot between
  -- the tasks that the request names, or at the end; the other tasks of the column keep their
  -- order, and the column's tasks, listed by position, are strictly in order. The hypotheses: task
  -- ids are distinct, the positions of the other tasks are fine enough to split a gap, and an
  -- array can hold them and the moved one.
  pub move_task-IsPlaced :
      (s : Store n.Num) (workspace_id task_id user_id : ℕ) (dto : MoveTaskDto) (t : Task n.Num)
      (s' : Store n.Num)
      → let remaining = others s dto.column_id task_id in
        move n reads s workspace_id task_id user_id dto ≡ ok (t, s')
        → IsDistinct (λ (x : Task n.Num). x.id) s.tasks
        → IsFine n remaining
        → length remaining + 1 ≤ n.max_length
        → (slot : InsertionSlot n.Num) × (t.id ≡ task_id)
          × (t.column_id ≡ dto.column_id)
          × IsSlotFor remaining dto.before_task_id dto.after_task_id slot
          × IsPlaced n (tasks_in dto.column_id s'.tasks) remaining task_id slot.insertion_index
  unfolding xs
  move_task-IsPlaced s workspace_id task_id user_id dto t s' e distinct fine small =
      let made = move_inv s workspace_id task_id user_id dto e in
      let found = resolve_move-IsSlotFor _ dto.before_task_id dto.after_task_id _ made.resolved in
      let same : made.task.id ≡ task_id =
        is_task_of-id s workspace_id task_id made.task (find_first-holds _ s.tasks made.found) in
      (
        made.slot,
        ap (λ x. x.id) made.task_eq ∙ same,
        ap (λ x. x.column_id) made.task_eq,
        found,
        subst
            (λ a.
              IsPlaced n (tasks_in dto.column_id s'.tasks) (others s dto.column_id task_id) a
                made.slot.insertion_index)
            same
            (subst
              (λ rows.
                IsPlaced n (tasks_in dto.column_id rows) (others s dto.column_id task_id)
                  made.task.id made.slot.insertion_index)
              (sym (
                made.tasks_eq
                ∙ ap
                    (λ z.
                      (write_move n s workspace_id task_id made.task dto.column_id z
                        (others s dto.column_id task_id)).1)
                    (slice_at_lem found.slice)))
              (write_move-IsPlaced s workspace_id task_id dto.column_id made.task made.found
                distinct made.slot.insertion_index found.slice.in_range fine small)),
      )

  -- A move takes the task out of every other column, and changes nothing else there: no task of
  -- another column is repositioned or reordered. The hypothesis: task ids are distinct.
  pub move_elsewhere :
      (s : Store n.Num) (workspace_id task_id user_id : ℕ) (dto : MoveTaskDto) (t : Task n.Num)
      (s' : Store n.Num) (column_id : ℕ)
      → move n reads s workspace_id task_id user_id dto ≡ ok (t, s')
      → IsDistinct (λ (x : Task n.Num). x.id) s.tasks
      → column_id ≢ dto.column_id
      → tasks_in column_id s'.tasks ≡ without task_id (tasks_in column_id s.tasks)
  move_elsewhere s workspace_id task_id user_id dto t s' column_id e distinct other =
      let made = move_inv s workspace_id task_id user_id dto e in
      ap (tasks_in column_id) made.tasks_eq
      ∙ write_move_elsewhere s workspace_id task_id dto.column_id made.task made.found distinct
          column_id made.slot (others s dto.column_id task_id) other
