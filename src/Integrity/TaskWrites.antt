-- ===== src/Integrity/TaskWrites.antt =====
-- `TaskService.update` and `TaskService.remove`, and the writes of a move, keep every task in a
-- column of its board.
use kurultay.Base.{
  ℕ, ◌≡◌, refl, subst, inl, inr, Bool, true, not, Option, String, List, [], ◌∷◌, length, keep_if,
  All, ◌==◌, Bool-cases, ok, >>=-eq-ok, throw_if, ok-injective, not_found,
}
use kurultay.Base.Perms.{IsDistinct}
use kurultay.Ordering.Number.{Number}
use kurultay.Ordering.Fractional.{needs_rebalance}
use kurultay.Ordering.Slots.{Sibling, InsertionSlot}
use kurultay.Ordering.Respread.{reposition}
use kurultay.Ordering.Tables.{update_where}
use kurultay.Ordering.Placement.{pos_of}
use kurultay.Store.{Column, Task, TaskChange, Store, task_sibling}
use kurultay.Tasks.{
  is_task_of, batch_update_task_positions, find_task, apply_patch, existing_of, write_update,
  commit_update, update, remove, make_room, write_move,
}
use kurultay.Tasks.Fields.{UpdateTaskDto, TaskPatch, plan_task_update}
use kurultay.Integrity.{has_column, IsSoundStore}
use kurultay.Integrity.Keys.{
  IsDistinct-update_where, IsDistinct-keep_if, All-update_where, All-keep_if,
}

module _ {Num : Type 0} where
  abbrev pub Stands : List (Column Num) → Task Num → Type 0
  Stands columns t = has_column columns t.board_id t.column_id ≡ true

  batch-Stands :
      (cs : List (Column Num)) (c : ℕ) (us : List (Sibling Num)) (ts : List (Task Num))
      → All (Stands cs) ts
      → All (Stands cs) (batch_update_task_positions c us ts)
  unfolding batch_update_task_positions
  batch-Stands cs c us ts h =
      All-update_where (Stands cs) (λ t. t.column_id == c)
        (λ t. record t { position = (reposition us (task_sibling t)).position }) ts (λ t k. k) h

  -- A property of tasks that repositioning leaves alone.
  batch-keeps :
      (P : List (Task Num) → Type 0) (c : ℕ) (us : List (Sibling Num)) (ts : List (Task Num))
      → ((p : Task Num → Bool) (f : Task Num → Task Num)
          → ((t : Task Num) → (f t).id ≡ t.id)
          → P (update_where p f ts))
      → P (batch_update_task_positions c us ts)
  unfolding batch_update_task_positions
  batch-keeps P c us ts h = h _ _ (λ t. refl)

  pub remove_task-IsSound :
      (s : Store Num) (w i u : ℕ) (s' : Store Num)
      → remove s w i u ≡ ok s'
      → IsSoundStore s
      → IsSoundStore s'
  unfolding remove
  remove_task-IsSound s w i u s' e h =
      let (t, e0, e1) = >>=-eq-ok (find_task s w i) _ e in
      let (v, e2, e3) =
        >>=-eq-ok
          (throw_if (length (keep_if (λ t. not (is_task_of s w i t)) s.tasks) == length s.tasks)
            (not_found "Task not found"))
          _ e1 in
      subst IsSoundStore (ok-injective e3) (record {
        tasks_sound =
            All-keep_if (Stands s.columns) (λ t. not (is_task_of s w i t)) s.tasks h.tasks_sound;
        tasks_distinct =
            IsDistinct-keep_if (λ t. not (is_task_of s w i t)) s.tasks h.tasks_distinct;
        columns_sound = h.columns_sound;
      })

  pub update_task-IsSound :
      (parse : String → Option ℕ) (s : Store Num) (w i u : ℕ) (dto : UpdateTaskDto) (t : Task Num)
      (s' : Store Num)
      → update parse s w i u dto ≡ ok (t, s')
      → IsSoundStore s
      → IsSoundStore s'
  unfolding update commit_update write_update
  update_task-IsSound parse s w i u dto t s' e h =
      let (old, e0, e1) = >>=-eq-ok (find_task s w i) _ e in
      let (plan, e2, e3) = >>=-eq-ok (plan_task_update parse (existing_of old) dto) _ e1 in
      committed plan.0 plan.1 old e3
    where
      committed :
          (patch : TaskPatch) (changes : List TaskChange) (old : Task Num)
          → commit_update s w i u old patch changes ≡ ok (t, s')
          → IsSoundStore s'
      committed patch [] old k = subst (λ p. IsSoundStore p.1) (ok-injective k) h
      committed patch (change ∷ rest) old k =
          let (scoped, k0, k1) = >>=-eq-ok (find_task s w i) _ k in
          subst (λ p. IsSoundStore p.1) (ok-injective k1)
            (record {
              tasks_sound =
                  All-update_where (Stands s.columns) (is_task_of s w i) (apply_patch patch) s.tasks
                    (λ x q. q) h.tasks_sound;
              tasks_distinct =
                  IsDistinct-update_where (is_task_of s w i) (apply_patch patch) s.tasks (λ x. refl)
                    h.tasks_distinct;
              columns_sound = h.columns_sound;
            })

module _ (n : Number) where
  pub make_room-Stands :
      (cs : List (Column n.Num)) (c : ℕ) (slot : InsertionSlot n.Num) (xs : List (Sibling n.Num))
      (ts : List (Task n.Num))
      → All (Stands cs) ts
      → All (Stands cs) (make_room n c slot xs ts).1
  unfolding make_room
  make_room-Stands cs c slot xs ts h =
      elim (Bool-cases (needs_rebalance n (pos_of slot.prev) (pos_of slot.next))) [
        | inl close ↦ rw close (batch-Stands cs c _ ts h)
        | inr wide ↦ rw wide h
      ]

  -- Only the moved task changes its column, and that column is on its board.
  pub write_move-Stands :
      (s : Store n.Num) (w i : ℕ) (task : Task n.Num) (c : ℕ) (slot : InsertionSlot n.Num)
      (xs : List (Sibling n.Num))
      → All (λ t. is_task_of s w i t ≡ true → has_column s.columns t.board_id c ≡ true) s.tasks
      → All (Stands s.columns) s.tasks
      → All (Stands s.columns) (write_move n s w i task c slot xs).1
  unfolding write_move
  write_move-Stands s w i task c slot xs into h =
      elim (Bool-cases (needs_rebalance n (pos_of slot.prev) (pos_of slot.next))) [
        | inl close ↦ rw close (batch-Stands s.columns c _ _ (placed _ s.tasks into h))
        | inr wide ↦ rw wide (placed _ s.tasks into h)
      ]
    where
      placed :
          (p : n.Num) (ts : List (Task n.Num))
          → All (λ t. is_task_of s w i t ≡ true → has_column s.columns t.board_id c ≡ true) ts
          → All (Stands s.columns) ts
          → All
              (Stands s.columns)
              (update_where (is_task_of s w i) (λ t. record t { column_id = c; position = p }) ts)
      placed p [] a b = tt
      placed p (t ∷ ts) a b = elim (Bool-cases (is_task_of s w i t)) [
        | inl hit ↦ rw hit (a.0 hit, placed p ts a.1 b.1)
        | inr miss ↦ rw miss (b.0, placed p ts a.1 b.1)
      ]

  pub make_room-keeps :
      (P : List (Task n.Num) → Type 0) (c : ℕ) (slot : InsertionSlot n.Num)
      (xs : List (Sibling n.Num)) (ts : List (Task n.Num))
      → P ts
      → ((p : Task n.Num → Bool) (f : Task n.Num → Task n.Num)
          → ((t : Task n.Num) → (f t).id ≡ t.id)
          → P (update_where p f ts))
      → P (make_room n c slot xs ts).1
  unfolding make_room
  make_room-keeps P c slot xs ts h k =
      elim (Bool-cases (needs_rebalance n (pos_of slot.prev) (pos_of slot.next))) [
        | inl close ↦ rw close (batch-keeps P c _ ts k)
        | inr wide ↦ rw wide h
      ]

  pub write_move-IsDistinct :
      (s : Store n.Num) (w i : ℕ) (task : Task n.Num) (c : ℕ) (slot : InsertionSlot n.Num)
      (xs : List (Sibling n.Num))
      → IsDistinct (λ (t : Task n.Num). t.id) s.tasks
      → IsDistinct (λ (t : Task n.Num). t.id) (write_move n s w i task c slot xs).1
  unfolding write_move
  write_move-IsDistinct s w i task c slot xs d =
      elim (Bool-cases (needs_rebalance n (pos_of slot.prev) (pos_of slot.next))) [
        | inl close ↦ rw close (
            batch-keeps (IsDistinct (λ (t : Task n.Num). t.id)) c _ _
              (λ p f same. IsDistinct-update_where p f _ same (placed _)))
        | inr wide ↦ rw wide (placed _)
      ]
    where
      placed :
          (p : n.Num)
          → IsDistinct
              (λ (t : Task n.Num). t.id)
              (update_where
                (is_task_of s w i)
                (λ t. record t { column_id = c; position = p })
                s.tasks)
      placed p =
          IsDistinct-update_where (is_task_of s w i) (λ t. record t { column_id = c; position = p })
            s.tasks (λ t. refl) d
