-- ===== src/Tasks/Edit.antt =====
-- `TaskService.update` and `TaskService.remove`: who is touched, and when nothing is.
use kurultay.Base.{
  ℕ, ◌≡◌, ◌≢◌, refl, inl, inr, false, All, Bool-cases, sym, ap, ◌∙◌, ◌&&◌, Bool, true, not, Option,
  none, String, List, [], ◌∷◌, arith, length, keep_if, find_first, any_of, ◌==◌, ok, err, ◌>>=◌,
  >>=-eq-ok, throw_if, or_throw-eq-ok, ok-injective, not_found,
}
use kurultay.Base.Perms.{IsDistinct}
use kurultay.Ordering.Number.{Number}
use kurultay.Ordering.Tables.{update_where, without, rows_in-delete}
use kurultay.Ordering.Placement.{SortedReads}
use kurultay.Store.{Board, Task, Store, TaskChange, in_workspace, task_sibling}
use kurultay.Tasks.{
  MoveTaskDto, tasks_in, is_task_of, find_task, apply_patch, existing_of, write_update,
  commit_update, update, remove, move,
}
use kurultay.Tasks.Fields.{UpdateTaskDto, TaskPatch, plan_task_update}

module _ {Num : Type 0} where
  -- The tasks that stand on boards of other workspaces.
  abbrev pub foreign_tasks : Store Num → ℕ → List (Task Num) → List (Task Num)
  foreign_tasks s w = keep_if (λ t. not (in_workspace s w t.board_id))

  foreign-update_where :
      (s : Store Num) (w i : ℕ) (f : Task Num → Task Num) (ts : List (Task Num))
      → ((t : Task Num) → (f t).board_id ≡ t.board_id)
      → foreign_tasks s w (update_where (is_task_of s w i) f ts) ≡ foreign_tasks s w ts
  foreign-update_where s w i f [] h = refl
  foreign-update_where s w i f (t ∷ ts) h =
      ground (arith, ap (in_workspace s w) (h t), foreign-update_where s w i f ts h)

  foreign-keep_if :
      (s : Store Num) (w i : ℕ) (ts : List (Task Num))
      → foreign_tasks s w (keep_if (λ t. not (is_task_of s w i t)) ts) ≡ foreign_tasks s w ts
  foreign-keep_if s w i [] = refl
  foreign-keep_if s w i (t ∷ ts) = ground (arith, foreign-keep_if s w i ts)

  write_update_tasks :
      (s : Store Num) (w i u : ℕ) (patch : TaskPatch) (changes : List TaskChange) {t : Task Num}
      {s' : Store Num}
      → write_update s w i u patch changes ≡ ok (t, s')
      → s'.tasks ≡ update_where (is_task_of s w i) (apply_patch patch) s.tasks
  unfolding write_update
  write_update_tasks s w i u patch changes e =
      let (old, e0, e1) = >>=-eq-ok (find_task s w i) _ e in
      sym (ap (λ p. p.1.tasks) (ok-injective e1))

  find-keep_if :
      (p : Task Num → Bool) (ts : List (Task Num))
      → find_first p (keep_if (λ t. not (p t)) ts) ≡ none
  find-keep_if p [] = refl
  find-keep_if p (t ∷ ts) = ground (arith, find-keep_if p ts)

-- If the task is the one of that id, its board is in another workspace.
abbrev pub IsOutside : {Num : Type 0} → Store Num → (workspace_id task_id : ℕ) → Task Num → Type 0
IsOutside s workspace_id task_id t =
    t.id ≡ task_id → All (λ (b : Board). b.id ≡ t.board_id → b.workspace_id ≢ workspace_id) s.boards

module _ (n : Number) (reads : SortedReads n) (parse : String → Option ℕ) where
  unlisted_board :
      (w board_id : ℕ) (bs : List Board)
      → All (λ (b : Board). b.id ≡ board_id → b.workspace_id ≢ w) bs
      → any_of (λ b. b.id == board_id && b.workspace_id == w) bs ≡ false
  unlisted_board w board_id [] h = refl
  unlisted_board w board_id (b ∷ bs) h =
      let here = h.0 in ground (arith, here, unlisted_board w board_id bs h.1)

  outside_workspace :
      (s : Store n.Num) (w i : ℕ) (ts : List (Task n.Num))
      → All (IsOutside s w i) ts
      → find_first (is_task_of s w i) ts ≡ none
  outside_workspace s w i [] h = refl
  outside_workspace s w i (t ∷ ts) h = elim (Bool-cases (t.id == i)) [
    | inl same ↦
        let away = unlisted_board w t.board_id s.boards (h.0 (ground arith)) in
        rw (same, away) (outside_workspace s w i ts h.1)
    | inr other ↦ rw other (outside_workspace s w i ts h.1)
  ]

  -- A task that is on no board of the caller's workspace is not found, whether it is absent or on a
  -- board of another workspace, and whatever is asked of it: reading, changing, removing and moving
  -- it all answer 404.
  pub missing_task :
      (s : Store n.Num) (workspace_id task_id user_id : ℕ) (patch : UpdateTaskDto)
      (to : MoveTaskDto)
      → All (IsOutside s workspace_id task_id) s.tasks
      → (find_task s workspace_id task_id ≡ err (not_found "Task not found"))
        × (update parse s workspace_id task_id user_id patch ≡ err (not_found "Task not found"))
        × (remove s workspace_id task_id user_id ≡ err (not_found "Task not found"))
        × (move n reads s workspace_id task_id user_id to ≡ err (not_found "Task not found"))
  unfolding find_task update remove move
  missing_task s workspace_id task_id user_id patch to h =
      let e = outside_workspace s workspace_id task_id s.tasks h in
      (rw e, rw (e, ◌>>=◌), rw (e, ◌>>=◌), rw (e, ◌>>=◌))

module _ {Num : Type 0} where
  -- An update, whatever it sends and whether or not it writes, leaves every task on a board of
  -- another workspace as it was.
  pub update_foreign :
      (parse : String → Option ℕ) (s : Store Num) (workspace_id task_id user_id : ℕ)
      (dto : UpdateTaskDto) (t : Task Num) (s' : Store Num)
      → update parse s workspace_id task_id user_id dto ≡ ok (t, s')
      → foreign_tasks s workspace_id s'.tasks ≡ foreign_tasks s workspace_id s.tasks
  unfolding update commit_update
  update_foreign parse s workspace_id task_id user_id dto t s' e =
      let (old, e0, e1) = >>=-eq-ok (find_task s workspace_id task_id) _ e in
      let (plan, e2, e3) = >>=-eq-ok (plan_task_update parse (existing_of old) dto) _ e1 in
      written plan.0 plan.1 old e3
    where
      written :
          (patch : TaskPatch) (changes : List TaskChange) (old : Task Num)
          → commit_update s workspace_id task_id user_id old patch changes ≡ ok (t, s')
          → foreign_tasks s workspace_id s'.tasks ≡ foreign_tasks s workspace_id s.tasks
      written patch [] old h =
          sym (ap (λ p. foreign_tasks s workspace_id p.1.tasks) (ok-injective h))
      written patch (change ∷ rest) old h =
          ap (foreign_tasks s workspace_id)
            (write_update_tasks s workspace_id task_id user_id patch (change ∷ rest) h)
          ∙ foreign-update_where s workspace_id task_id (apply_patch patch) s.tasks (λ x. refl)

  is_task_of-id : (s : Store Num) (w i : ℕ) (x : Task Num) → is_task_of s w i x ≡ true → x.id ≡ i
  is_task_of-id s w i x h = ground arith

  -- After a removal the task is gone from its column and from every other, where nothing else
  -- changes; the tasks of other workspaces are as they were, and removing the task again answers
  -- 404. The hypothesis: task ids are distinct.
  pub remove_lem :
      (s : Store Num) (workspace_id task_id user_id again_by : ℕ) (s' : Store Num)
      → remove s workspace_id task_id user_id ≡ ok s'
      → IsDistinct (λ (x : Task Num). x.id) s.tasks
      → ((c : ℕ) → tasks_in c s'.tasks ≡ without task_id (tasks_in c s.tasks))
        × (foreign_tasks s workspace_id s'.tasks ≡ foreign_tasks s workspace_id s.tasks)
        × (remove s' workspace_id task_id again_by ≡ err (not_found "Task not found"))
  unfolding remove find_task
  remove_lem s workspace_id task_id user_id again_by s' e distinct =
      let (row, e0, e1) = >>=-eq-ok (find_task s workspace_id task_id) _ e in
      let (u, e2, e3) =
        >>=-eq-ok
          (throw_if
            (length (keep_if (λ t. not (is_task_of s workspace_id task_id t)) s.tasks)
              == length s.tasks)
            (not_found "Task not found"))
          _ e1 in
      let tasks_eq : s'.tasks ≡ keep_if (λ t. not (is_task_of s workspace_id task_id t)) s.tasks =
        sym (ap (λ z. z.tasks) (ok-injective e3)) in
      let boards_eq : s'.boards ≡ s.boards = sym (ap (λ z. z.boards) (ok-injective e3)) in
      (
        λ c.
            ap (tasks_in c) tasks_eq
            ∙ rows_in-delete (λ t. t.column_id) task_sibling (is_task_of s workspace_id task_id)
                task_id (is_task_of-id s workspace_id task_id) c s.tasks distinct
                (or_throw-eq-ok _ _ e0),
        ap (foreign_tasks s workspace_id) tasks_eq ∙ foreign-keep_if s workspace_id task_id s.tasks,
        rw (gone boards_eq tasks_eq, ◌>>=◌),
      )
    where
      gone :
          s'.boards ≡ s.boards
          → s'.tasks ≡ keep_if (λ t. not (is_task_of s workspace_id task_id t)) s.tasks
          → find_first (is_task_of s' workspace_id task_id) s'.tasks ≡ none
      gone hb ht =
          (λ k.
            find_first
              (λ t.
                t.id == task_id
                && any_of (λ b. b.id == t.board_id && b.workspace_id == workspace_id) (hb k))
              (ht k))
          ∙ find-keep_if (is_task_of s workspace_id task_id) s.tasks
