-- ===== src/Integrity/TaskPlaces.antt =====
-- `TaskService.create` and `TaskService.move` keep every task in a column of its board.
use kurultay.Base.{
  ℕ, ◌≡◌, sym, subst, ◌≢◌, inl, inr, ◌&&◌, ◌||◌, true, not, Option, some, String, List, [], ◌∷◌,
  arith, find_first, find_first-holds, All, ◌==◌, Bool-cases, ok, >>=-eq-ok, throw_if,
  throw_if-eq-ok, or_throw, or_throw-eq-ok, ok-injective, bad_request, not_found, unprocessable,
}
use kurultay.Base.Perms.{IsAbsent, IsDistinct}
use kurultay.Ordering.Number.{Number}
use kurultay.Ordering.Slots.{resolve_move_neighbors, resolve_create_neighbors}
use kurultay.Ordering.Placement.{SortedReads}
use kurultay.Store.{Task, Store, in_workspace, assert_board}
use kurultay.Tasks.{MoveTaskDto, is_id, is_task_of, find_column_on_board, find_task, create, move}
use kurultay.Tasks.Fields.{CreateTaskDto, create_task_attributes}
use kurultay.Integrity.{has_column, IsSoundStore}
use kurultay.Integrity.Keys.{
  IsAbsent-update_where, IsDistinct-update_where, IsDistinct-append_one, All-append,
  any_of-find_first,
}
use kurultay.Integrity.TaskWrites.{
  Stands, make_room-Stands, write_move-Stands, make_room-keeps, write_move-IsDistinct,
}

module _ (n : Number) (reads : SortedReads n) where
  -- The predicate finds one task only.
  found_alone :
      (s : Store n.Num) (w i c : ℕ) (ts : List (Task n.Num)) {task : Task n.Num}
      → IsDistinct (λ (t : Task n.Num). t.id) ts
      → find_first (is_task_of s w i) ts ≡ some task
      → has_column s.columns task.board_id c ≡ true
      → All (λ t. is_task_of s w i t ≡ true → has_column s.columns t.board_id c ≡ true) ts
  found_alone s w i c [] d e k = tt
  found_alone s w i c (x ∷ xs) {task} d e k = elim (Bool-cases (is_task_of s w i x)) [
    | inl hit ↦
        let same : x ≡ task = ground arith in
        (
          λ again. subst (λ t. has_column s.columns t.board_id c ≡ true) (sym same) k,
          apart xs x.id (ground arith) d.0,
        )
    | inr miss ↦ (λ again. cc, found_alone s w i c xs d.1 (rw miss at e) k)
  ]
    where
      apart :
          (ts : List (Task n.Num)) (a : ℕ)
          → a ≡ i
          → All (λ t. t.id ≢ a) ts
          → All (λ t. is_task_of s w i t ≡ true → has_column s.columns t.board_id c ≡ true) ts
      apart [] a same far = tt
      apart (t ∷ ts) a same far = (λ hit. absurd (ground arith), apart ts a same far.1)

  pub move_task-IsSound :
      (s : Store n.Num) (w i u : ℕ) (dto : MoveTaskDto) (t : Task n.Num) (s' : Store n.Num)
      → move n reads s w i u dto ≡ ok (t, s')
      → IsSoundStore s
      → IsSoundStore s'
  unfolding move find_task
  move_task-IsSound s w i u dto t s' e h =
      let (task, e0, e1) = >>=-eq-ok (find_task s w i) _ e in
      let (v, e2, e3) =
        >>=-eq-ok
          (throw_if (is_id dto.before_task_id i || is_id dto.after_task_id i)
            (bad_request "A task cannot be its own neighbor"))
          _ e1 in
      let (target, e4, e5) =
        >>=-eq-ok
          (or_throw
            (find_first (λ c. c.id == dto.column_id && in_workspace s w c.board_id) s.columns)
            (not_found "Column not found"))
          _ e3 in
      let (v', e6, e7) =
        >>=-eq-ok
          (throw_if (not (target.board_id == task.board_id))
            (unprocessable "Cannot move a task to a column on another board"))
          _ e5 in
      let (slot, e8, e9) = >>=-eq-ok (resolve_move_neighbors _ _ _) _ e7 in
      let on_board : (target.board_id == task.board_id) ≡ true =
        ground (arith, throw_if-eq-ok _ _ e6) in
      let there : has_column s.columns task.board_id target.id ≡ true =
        any_of-find_first _ _ s.columns (or_throw-eq-ok _ _ e4) (ground arith) in
      subst (λ p. IsSoundStore p.1) (ok-injective e9)
        (record {
          tasks_sound =
              write_move-Stands n s w i task target.id slot _
                (found_alone s w i target.id s.tasks h.tasks_distinct (or_throw-eq-ok _ _ e0) there)
                h.tasks_sound;
          tasks_distinct = write_move-IsDistinct n s w i task target.id slot _ h.tasks_distinct;
          columns_sound = h.columns_sound;
        })

module _ (n : Number) (reads : SortedReads n) (parse : String → Option ℕ) where
  pub create_task-IsSound :
      (s : Store n.Num) (new_id w b u : ℕ) (dto : CreateTaskDto) (t : Task n.Num) (s' : Store n.Num)
      → create n reads parse s new_id w b u dto ≡ ok (t, s')
      → IsAbsent (λ (x : Task n.Num). x.id) new_id s.tasks
      → IsSoundStore s
      → IsSoundStore s'
  unfolding create find_column_on_board
  create_task-IsSound s new_id w b u dto t s' e absent h =
      let (board, e0, e1) = >>=-eq-ok (assert_board s w b) _ e in
      let (column, e2, e3) = >>=-eq-ok (find_column_on_board s w b dto.column_id) _ e1 in
      let (attributes, e4, e5) = >>=-eq-ok (create_task_attributes parse dto) _ e3 in
      let (slot, e6, e7) = >>=-eq-ok (resolve_create_neighbors _ _ _) _ e5 in
      let found = or_throw-eq-ok _ _ e2 in
      let holds = find_first-holds _ s.columns found in
      subst (λ p. IsSoundStore p.1) (ok-injective e7)
        (record {
          tasks_sound =
              All-append (Stands s.columns) _ _
                (make_room-Stands n s.columns column.id slot _ s.tasks h.tasks_sound)
                (any_of-find_first _ _ s.columns found (ground arith), tt);
          tasks_distinct =
              IsDistinct-append_one _ _
                (make_room-keeps n (IsAbsent (λ (x : Task n.Num). x.id) new_id) column.id slot _
                  s.tasks absent (λ p f same. IsAbsent-update_where new_id p f s.tasks same absent))
                (make_room-keeps n (IsDistinct (λ (x : Task n.Num). x.id)) column.id slot _ s.tasks
                  h.tasks_distinct
                  (λ p f same. IsDistinct-update_where p f s.tasks same h.tasks_distinct));
          columns_sound = h.columns_sound;
        })
