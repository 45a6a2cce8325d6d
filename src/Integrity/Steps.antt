-- ===== src/Integrity/Steps.antt =====
-- Any sequence of requests to the board, the column and the task service, by any callers in any workspaces.
use kurultay.Base.{subst, ℕ, ◌≡◌, Option, String, List, ok}
use kurultay.Base.Perms.{IsAbsent}
use kurultay.Ordering.Number.{Number}
use kurultay.Ordering.Placement.{SortedReads}
use kurultay.Store.{Board, Task, Store}
use kurultay.Tasks
use kurultay.Tasks.{MoveTaskDto}
use kurultay.Tasks.Fields.{CreateTaskDto, UpdateTaskDto}
use kurultay.Boards
use kurultay.Boards.{CreateBoardDto, UpdateBoardDto}
use kurultay.Columns
use kurultay.Columns.{CreateColumnDto, UpdateColumnDto, MoveColumnDto, ColumnDto, Locale}
use kurultay.Integrity.{IsSoundStore}
use kurultay.Integrity.BoardWrites.{
  create_board-IsSound, update_board-IsSound, remove_board-IsSound,
}
use kurultay.Integrity.TaskWrites.{update_task-IsSound, remove_task-IsSound}
use kurultay.Integrity.TaskPlaces.{create_task-IsSound, move_task-IsSound}
use kurultay.Integrity.ColumnWrites.{
  create_column-IsSound, create_defaults-IsSound, update_column-IsSound, remove_column-IsSound,
  move_column-IsSound,
}

module _ (n : Number) (reads : SortedReads n) (parse : String → Option ℕ) where
  -- One request that succeeds; the id that the database generates for a task is a new one.
  pub data BoardStep (s s' : Store n.Num) : Type 0 where
    task_created :
        (new_id w b u : ℕ) (dto : CreateTaskDto) (t : Task n.Num)
        → Tasks.create n reads parse s new_id w b u dto ≡ ok (t, s')
        → IsAbsent (λ (x : Task n.Num). x.id) new_id s.tasks
        → BoardStep s s'
    task_updated :
        (w i u : ℕ) (dto : UpdateTaskDto) (t : Task n.Num)
        → Tasks.update parse s w i u dto ≡ ok (t, s')
        → BoardStep s s'
    task_removed : (w i u : ℕ) → Tasks.remove s w i u ≡ ok s' → BoardStep s s'
    task_moved :
        (w i u : ℕ) (dto : MoveTaskDto) (t : Task n.Num)
        → Tasks.move n reads s w i u dto ≡ ok (t, s')
        → BoardStep s s'
    column_created :
        (new_id w b u : ℕ) (dto : CreateColumnDto) (d : ColumnDto n.Num)
        → Columns.create n reads s new_id w b u dto ≡ ok (d, s')
        → BoardStep s s'
    columns_seeded :
        (new_ids : ℕ → ℕ) (w b u : ℕ) (locale : Locale) (ds : List (ColumnDto n.Num))
        → Columns.create_defaults n s new_ids w b u locale ≡ ok (ds, s')
        → BoardStep s s'
    column_updated :
        (w i u : ℕ) (dto : UpdateColumnDto) (d : ColumnDto n.Num)
        → Columns.update s w i u dto ≡ ok (d, s')
        → BoardStep s s'
    column_removed : (w i u : ℕ) → Columns.remove s w i u ≡ ok s' → BoardStep s s'
    column_moved :
        (w i u : ℕ) (dto : MoveColumnDto) (d : ColumnDto n.Num)
        → Columns.move n reads s w i u dto ≡ ok (d, s')
        → BoardStep s s'
    board_created :
        (new_id : ℕ) (new_ids : ℕ → ℕ) (w u : ℕ) (dto : CreateBoardDto) (locale : Locale)
        → (Boards.create n s new_id new_ids w u dto locale).1 ≡ s'
        → BoardStep s s'
    board_updated :
        (w b u : ℕ) (dto : UpdateBoardDto) (board : Board)
        → Boards.update s w b u dto ≡ ok (board, s')
        → BoardStep s s'
    board_removed : (w b u : ℕ) → Boards.remove s w b u ≡ ok s' → BoardStep s s'

  pub data BoardReaches (s : Store n.Num) : Store n.Num → Type 0 where
    start : BoardReaches s s
    next : {s' s'' : Store n.Num} → BoardReaches s s' → BoardStep s' s'' → BoardReaches s s''

  step-IsSound : (s s' : Store n.Num) → BoardStep s s' → IsSoundStore s → IsSoundStore s'
  step-IsSound s s' (task_created new_id w b u dto t e absent) h =
      create_task-IsSound n reads parse s new_id w b u dto t s' e absent h
  step-IsSound s s' (task_updated w i u dto t e) h = update_task-IsSound parse s w i u dto t s' e h
  step-IsSound s s' (task_removed w i u e) h = remove_task-IsSound s w i u s' e h
  step-IsSound s s' (task_moved w i u dto t e) h = move_task-IsSound n reads s w i u dto t s' e h
  step-IsSound s s' (column_created new_id w b u dto d e) h =
      create_column-IsSound n reads s new_id w b u dto d s' e h
  step-IsSound s s' (columns_seeded new_ids w b u locale ds e) h =
      create_defaults-IsSound n s new_ids w b u locale ds s' e h
  step-IsSound s s' (column_updated w i u dto d e) h = update_column-IsSound s w i u dto d s' e h
  step-IsSound s s' (column_removed w i u e) h = remove_column-IsSound s w i u s' e h
  step-IsSound s s' (column_moved w i u dto d e) h =
      move_column-IsSound n reads s w i u dto d s' e h
  step-IsSound s s' (board_created new_id new_ids w u dto locale e) h =
      subst IsSoundStore e (create_board-IsSound n s new_id new_ids w u dto locale h)
  step-IsSound s s' (board_updated w b u dto board e) h =
      update_board-IsSound s w b u dto board s' e h
  step-IsSound s s' (board_removed w b u e) h = remove_board-IsSound s w b u s' e h

  -- If each task stands in a column of its own board, each column on a board, and no two tasks have
  -- the same id, then this stays so, whatever sequence of requests to the three services succeeds,
  -- given that the database generates unused ids for tasks. No request leaves a task without its
  -- column, and none puts it on a board other than its column's.
  pub reaches-IsSound : (s s' : Store n.Num) → BoardReaches s s' → IsSoundStore s → IsSoundStore s'
  reaches-IsSound s s' start h = h
  reaches-IsSound s s'' (next {s'} path step) h =
      step-IsSound s' s'' step (reaches-IsSound s s' path h)
