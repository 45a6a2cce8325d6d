-- ===== src/Tasks/Create.antt =====
-- `TaskService.create`: the new task takes the slot behind the named task.
use mathlib.Core.List.{map-append, perm_append_singleton}
use mathlib.Core.List.Perm
use kurultay.Base.{
  ℕ, ◌+◌, ◌≤◌, ◌≡◌, refl, sym, ap, subst, ◌∙◌, ◌≢◌, inl, inr, Option, none, String, List, [], ◌∷◌,
  ◌++◌, arith, map, Perm, length, get_elem?, keep_if-append, find_first-holds, ◌==◌, ==_iff,
  if◌then◌else◌, Bool-cases, ok, >>=-eq-ok, or_throw-eq-ok, ok-injective,
}
use kurultay.Base.Perms.{IsAbsent, IsDistinct, perm-IsDistinct, perm-IsAbsent}
use kurultay.Ordering.Number.{Number}
use kurultay.Ordering.Fractional.{needs_rebalance}
use kurultay.Ordering.Slots.{Sibling, InsertionSlot, item_before, resolve_create_neighbors}
use kurultay.Ordering.Slots.Laws.{
  IsSlice, IsSlotFor, slice_at, slice_at_lem, resolve_create-IsSlotFor,
}
use kurultay.Ordering.Respread.{reposition, create_updates}
use kurultay.Ordering.Chain.{IsOrdered}
use kurultay.Ordering.Tables.{rows_in-IsAbsent, rows_in-IsDistinct}
use kurultay.Ordering.Placement.{
  pos_of, SortedReads, IsFine, IsPlaced, midpoint-IsPlaced, create-IsPlaced as respread-IsPlaced,
}
use kurultay.Store.{Task, Store, task_sibling, assert_board}
use kurultay.Tasks.{
  tasks_in, batch_update_task_positions, find_column_on_board, make_room, new_task, create,
}
use kurultay.Tasks.Fields.{CreateTaskDto, TaskAttributes, create_task_attributes}

module _ {Num : Type 0} where
  -- The batch repositions the column's tasks and nothing else of them.
  pub tasks_in-batch :
      (c : ℕ) (us : List (Sibling Num)) (ts : List (Task Num))
      → tasks_in c (batch_update_task_positions c us ts) ≡ map (reposition us) (tasks_in c ts)
  unfolding batch_update_task_positions reposition
  tasks_in-batch c us [] = refl
  tasks_in-batch c us (t ∷ ts) = ground (arith, tasks_in-batch c us ts)

  pub tasks_in-batch_elsewhere :
      (c d : ℕ) (us : List (Sibling Num)) (ts : List (Task Num))
      → d ≢ c
      → tasks_in d (batch_update_task_positions c us ts) ≡ tasks_in d ts
  unfolding batch_update_task_positions
  tasks_in-batch_elsewhere c d us [] h = refl
  tasks_in-batch_elsewhere c d us (t ∷ ts) h = ground (arith, tasks_in-batch_elsewhere c d us ts h)

  tasks_in-snoc :
      (c : ℕ) (t : Task Num) (ts : List (Task Num))
      → t.column_id ≡ c
      → Perm (tasks_in c (ts ++ t ∷ [])) (task_sibling t ∷ tasks_in c ts)
  tasks_in-snoc c t ts e =
      subst (λ rows. Perm rows (task_sibling t ∷ tasks_in c ts))
        (sym (
          ap (map task_sibling) (keep_if-append (λ x. x.column_id == c) ts (t ∷ []))
          ∙ map-append _ _ _
          ∙ ap (λ b. tasks_in c ts ++ map task_sibling (if b then t ∷ [] else []))
              ((==_iff t.column_id c).1 e)))
        (perm_append_singleton (task_sibling t) (tasks_in c ts))

module _ (n : Number) (reads : SortedReads n) where
  -- The room that `make_room` leaves is the slot, whichever way it makes it.
  make_room-IsPlaced :
      (c i : ℕ) (ts : List (Task n.Num)) (t : Task n.Num)
      → let xs = reads.order_by (tasks_in c ts) in
        let room = make_room n c (slice_at xs i) xs ts in
        i ≤ length xs
        → length xs + 1 ≤ n.max_length
        → IsFine n xs
        → IsDistinct (λ (x : Task n.Num). x.id) ts
        → IsAbsent (λ (x : Task n.Num). x.id) t.id ts
        → t.column_id ≡ c
        → t.position ≡ room.0
        → IsPlaced n (tasks_in c (room.1 ++ t ∷ [])) xs t.id i
  unfolding make_room
  make_room-IsPlaced c i ts t le small fine distinct absent e pos =
      elim (Bool-cases (needs_rebalance n (pos_of (item_before xs i)) (pos_of (get_elem? xs i)))) [
        | inl close ↦ rw close (
            respread-IsPlaced n xs t.id i le absent_xs distinct_xs _ small (
              Perm.trans (tasks_in-snoc c t _ e) (
                Perm.cons' (at_position (rw close at pos)) (
                  subst (λ rows. Perm rows (map (reposition (create_updates n i xs)) xs))
                    (sym (tasks_in-batch c (create_updates n i xs) ts))
                    (Perm.map _ (reads.order_by-perm (tasks_in c ts)))))))
        | inr wide ↦ rw wide (
            midpoint-IsPlaced n xs t.id i le absent_xs distinct_xs _ ordered fine wide (
              Perm.trans (tasks_in-snoc c t ts e)
                (Perm.cons' (at_position (rw wide at pos)) (reads.order_by-perm (tasks_in c ts)))))
      ]
    where
      xs : List (Sibling n.Num)
      xs = reads.order_by (tasks_in c ts)

      tasks_in-IsDistinct : IsDistinct (λ s. s.id) (tasks_in c ts)
      tasks_in-IsDistinct = rows_in-IsDistinct _ task_sibling c ts distinct

      ordered : IsOrdered n xs
      ordered = reads.order_by-IsOrdered (tasks_in c ts) tasks_in-IsDistinct

      distinct_xs : IsDistinct (λ s. s.id) xs
      distinct_xs = perm-IsDistinct _ (reads.order_by-perm (tasks_in c ts)) tasks_in-IsDistinct

      absent_xs : IsAbsent (λ s. s.id) t.id xs
      absent_xs =
          perm-IsAbsent _ t.id (reads.order_by-perm (tasks_in c ts))
            (rows_in-IsAbsent _ task_sibling t.id c ts absent)

      at_position :
          {p : n.Num}
          → t.position ≡ p
          → ◌≡◌ {A = Sibling n.Num} (task_sibling t) (record { id = t.id; position = p })
      at_position h = λ k. record { id = t.id; position = h k }

  make_room-IsPlaced_slot :
      (c : ℕ) (slot : InsertionSlot n.Num) (ts ts' : List (Task n.Num)) (t : Task n.Num)
      → let xs = reads.order_by (tasks_in c ts) in
        let room = make_room n c slot xs ts in
        IsSlice xs slot
        → length xs + 1 ≤ n.max_length
        → IsFine n xs
        → IsDistinct (λ (x : Task n.Num). x.id) ts
        → IsAbsent (λ (x : Task n.Num). x.id) t.id ts
        → t.column_id ≡ c
        → t.position ≡ room.0
        → ts' ≡ room.1 ++ t ∷ []
        → IsPlaced n (tasks_in c ts') xs t.id slot.insertion_index
  make_room-IsPlaced_slot c slot ts ts' t slice small fine distinct absent e pos e' =
      subst (λ rows. IsPlaced n (tasks_in c rows) xs t.id slot.insertion_index)
        (sym (e' ∙ ap (λ z. (make_room n c z xs ts).1 ++ t ∷ []) (slice_at_lem slice)))
        (make_room-IsPlaced c slot.insertion_index ts t slice.in_range small fine distinct absent e
          (pos ∙ ap (λ z. (make_room n c z xs ts).0) (slice_at_lem slice)))
    where
      xs : List (Sibling n.Num)
      xs = reads.order_by (tasks_in c ts)

module _ (n : Number) (reads : SortedReads n) (parse : String → Option ℕ) where
  record Created (s : Store n.Num) (new_id user_id board_id : ℕ) (dto : CreateTaskDto)
      (t : Task n.Num) (s' : Store n.Num) (column_id : ℕ) : Type 0 where
    slot : InsertionSlot n.Num
    attributes : TaskAttributes
    resolved :
        resolve_create_neighbors
          (reads.order_by (tasks_in column_id s.tasks))
          dto.after_task_id
          "Task not found"
        ≡ ok slot
    task_eq :
        t
        ≡ new_task new_id board_id column_id user_id attributes
            (make_room n column_id slot (reads.order_by (tasks_in column_id s.tasks)) s.tasks).0
    tasks_eq :
        s'.tasks
        ≡ (make_room n column_id slot (reads.order_by (tasks_in column_id s.tasks)) s.tasks).1
          ++ t ∷ []

  create_inv :
      (s : Store n.Num) (new_id w board_id user_id : ℕ) (dto : CreateTaskDto) {t : Task n.Num}
      {s' : Store n.Num}
      → create n reads parse s new_id w board_id user_id dto ≡ ok (t, s')
      → Created s new_id user_id board_id dto t s' dto.column_id
  unfolding create find_column_on_board
  create_inv s new_id w board_id user_id dto {t} {s'} e =
      let (board, e0, e1) = >>=-eq-ok (assert_board s w board_id) _ e in
      let (column, e2, e3) = >>=-eq-ok (find_column_on_board s w board_id dto.column_id) _ e1 in
      let (attributes, e4, e5) = >>=-eq-ok (create_task_attributes parse dto) _ e3 in
      let (slot, e6, e7) =
        >>=-eq-ok
          (resolve_create_neighbors (reads.order_by (tasks_in column.id s.tasks)) dto.after_task_id
            "Task not found")
          _ e5 in
      let room_of = λ (c : ℕ) (slot : InsertionSlot n.Num).
        make_room n c slot (reads.order_by (tasks_in c s.tasks)) s.tasks in
      let same : column.id ≡ dto.column_id =
        ground (arith, find_first-holds _ s.columns (or_throw-eq-ok _ _ e2)) in
      subst (Created s new_id user_id board_id dto t s') same (record {
        slot = slot;
        attributes = attributes;
        resolved = e6;
        task_eq = sym (ap (λ p. p.0) (ok-injective e7));
        tasks_eq =
            sym (ap (λ p. p.1.tasks) (ok-injective e7))
            ∙ ap (λ x. (room_of column.id slot).1 ++ x ∷ []) (ap (λ p. p.0) (ok-injective e7));
      })

  -- A created task gets the new id and the request's column. In that column it stands in the slot
  -- behind the task that the request names, or at the end; the other tasks keep their order, and
  -- the column's tasks, listed by position, are strictly in order. The hypotheses: task ids are
  -- distinct, the new id is not yet used, the positions read are fine enough to split a gap, and
  -- the column has room for one more.
  pub create_task-IsPlaced :
      (s : Store n.Num) (new_id workspace_id board_id user_id : ℕ) (dto : CreateTaskDto)
      (t : Task n.Num) (s' : Store n.Num)
      → let siblings = reads.order_by (tasks_in dto.column_id s.tasks) in
        create n reads parse s new_id workspace_id board_id user_id dto ≡ ok (t, s')
        → IsDistinct (λ (x : Task n.Num). x.id) s.tasks
        → IsAbsent (λ (x : Task n.Num). x.id) new_id s.tasks
        → IsFine n siblings
        → length siblings + 1 ≤ n.max_length
        → (slot : InsertionSlot n.Num) × (t.id ≡ new_id)
          × (t.column_id ≡ dto.column_id)
          × IsSlotFor siblings dto.after_task_id none slot
          × IsPlaced n (tasks_in dto.column_id s'.tasks) siblings new_id slot.insertion_index
  create_task-IsPlaced s new_id workspace_id board_id user_id dto t s' e distinct absent fine
        small =
      let made = create_inv s new_id workspace_id board_id user_id dto e in
      let found = resolve_create-IsSlotFor _ dto.after_task_id _ made.slot made.resolved in
      let id_eq : t.id ≡ new_id = ap (λ x. x.id) made.task_eq in
      let column_eq : t.column_id ≡ dto.column_id = ap (λ x. x.column_id) made.task_eq in
      (
        made.slot,
        id_eq,
        column_eq,
        found,
        subst
            (λ a.
              IsPlaced n (tasks_in dto.column_id s'.tasks)
                (reads.order_by (tasks_in dto.column_id s.tasks)) a made.slot.insertion_index)
            id_eq
            (make_room-IsPlaced_slot n reads dto.column_id made.slot s.tasks s'.tasks t found.slice
              small fine distinct
              (subst (λ a. IsAbsent (λ (x : Task n.Num). x.id) a s.tasks) (sym id_eq) absent)
              column_eq (ap (λ x. x.position) made.task_eq) made.tasks_eq),
      )
