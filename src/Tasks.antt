-- ===== src/Tasks.antt =====
-- task.service.ts: a task is created, updated, removed and moved. The answer is the task's row;
-- the relations that the wire format adds to it (assignees, labels, checklists) are not modelled.
pub mod Fields
mod Rows
pub mod Create
pub mod Move
pub mod Edit
unfoldable pub use Rows.*
use kurultay.Base.{
  ℕ, ◌+◌, ◌≡◌, ◌&&◌, ◌||◌, not, Bool, true, false, Option, none, some, String, List, [], ◌∷◌, ◌++◌,
  map, length, insert_at, keep_if, find_first, ◌==◌, if◌then◌else◌, bad_request, not_found,
  unprocessable, Result, ok, err, ◌>>=◌, ◌>>◌, throw_if, or_throw,
}
use kurultay.Ordering.Number.{Number}
use kurultay.Ordering.Fractional.{midpoint, needs_rebalance, rebalance_positions}
use kurultay.Ordering.Slots.{
  Sibling, InsertionSlot, resolve_move_neighbors, resolve_create_neighbors,
}
use kurultay.Ordering.Respread.{position_at, reposition, reordered, create_updates, other_updates}
use kurultay.Ordering.Tables.{rows_in, update_where}
use kurultay.Ordering.Placement.{pos_of, SortedReads}
use kurultay.Store.{
  Priority, medium, Column, Task, TaskChange, Activity, BoardEvent, Store, task_sibling,
  in_workspace, assert_board, record_activity, set_null, emit_to_board,
}
use Fields.{
  undefined, value, or_else, CreateTaskDto, UpdateTaskDto, TaskAttributes, TaskPatch, ExistingTask,
  create_task_attributes, plan_task_update,
}

module _ {Num : Type 0} where
  -- The transaction of `update`, which reads the row again.
  unfoldable pub write_update :
      Store Num
      → (workspace_id task_id user_id : ℕ) → TaskPatch
      → List TaskChange
      → Result (Task Num × Store Num)
  write_update s workspace_id task_id user_id patch changes = do
    scoped ← find_task s workspace_id task_id
    let updated = apply_patch patch scoped
    let written = record s {
      tasks = update_where (is_task_of s workspace_id task_id) (apply_patch patch) s.tasks;
    }
    ok (
      updated,
      emit_to_board
          (record_activity written (record {
            workspace_id = workspace_id;
            task_id = some task_id;
            user_id = user_id;
            activity = Activity.task_updated updated.title changes;
          }))
          (record {
            board_id = updated.board_id;
            workspace_id = workspace_id;
            actor_id = user_id;
            event = BoardEvent.task_updated updated.id;
          }),
    )

  -- `if (Object.keys(changes).length === 0)`
  unfoldable pub commit_update :
      Store Num
      → (workspace_id task_id user_id : ℕ) → Task Num
      → TaskPatch
      → List TaskChange
      → Result (Task Num × Store Num)
  commit_update s workspace_id task_id user_id existing patch [] = ok (existing, s)
  commit_update s workspace_id task_id user_id existing patch (change ∷ rest) =
      write_update s workspace_id task_id user_id patch (change ∷ rest)

  -- The row is read and deleted in one transaction, so the deletion finds it.
  unfoldable pub remove : Store Num → (workspace_id task_id user_id : ℕ) → Result (Store Num)
  remove s workspace_id task_id user_id = do
    row ← find_task s workspace_id task_id
    let recorded = record_activity s (record {
      workspace_id = workspace_id;
      task_id = none;
      user_id = user_id;
      activity = Activity.task_deleted row.id row.title row.column_id row.board_id;
    })
    let kept = keep_if (λ t. not (is_task_of s workspace_id task_id t)) s.tasks
    throw_if (length kept == length s.tasks) (not_found "Task not found")
    ok (
        emit_to_board
          (record recorded {
            tasks = kept;
            activities = set_null (λ id. id == task_id) recorded.activities;
          })
          (record {
            board_id = row.board_id;
            workspace_id = workspace_id;
            actor_id = user_id;
            event = BoardEvent.task_deleted row.id;
          }))

module _ {Num : Type 0} (parse : String → Option ℕ) where
  unfoldable pub update :
      Store Num → (workspace_id task_id user_id : ℕ) → UpdateTaskDto → Result (Task Num × Store Num)
  update s workspace_id task_id user_id dto = do
    existing ← find_task s workspace_id task_id
    (patch, changes) ← plan_task_update parse (existing_of existing) dto
    commit_update s workspace_id task_id user_id existing patch changes

module _ (n : Number) where
  -- The position of the new task, and the tasks with their siblings respread where that is needed.
  unfoldable pub make_room :
      ℕ → InsertionSlot n.Num → List (Sibling n.Num) → List (Task n.Num) → n.Num × List (Task n.Num)
  make_room column_id slot siblings tasks =
      if needs_rebalance n (pos_of slot.prev) (pos_of slot.next)
      then (
        position_at n (rebalance_positions n (length siblings + 1)) slot.insertion_index,
        batch_update_task_positions column_id (create_updates n slot.insertion_index siblings)
            tasks,
      )
      else (midpoint n (pos_of slot.prev) (pos_of slot.next), tasks)

  -- The new position of the moved task, and the tasks after both of the transaction's writes.
  unfoldable pub write_move :
      Store n.Num
      → (workspace_id task_id : ℕ) → Task n.Num
      → ℕ
      → InsertionSlot n.Num
      → List (Sibling n.Num)
      → n.Num × List (Task n.Num)
  write_move s workspace_id task_id task column_id slot remaining =
      let place = λ (position : n.Num).
        update_where (is_task_of s workspace_id task_id)
          (λ t. record t { column_id = column_id; position = position }) s.tasks in
      let rows = reordered slot.insertion_index (task_sibling task) remaining in
      let spread = position_at n (rebalance_positions n (length rows)) slot.insertion_index in
      let middle = midpoint n (pos_of slot.prev) (pos_of slot.next) in
      if needs_rebalance n (pos_of slot.prev) (pos_of slot.next)
      then (
        spread,
        batch_update_task_positions column_id
            (other_updates n slot.insertion_index (task_sibling task) remaining) (place spread),
      )
      else (middle, place middle)

module _ (n : Number) (reads : SortedReads n) (parse : String → Option ℕ) where
  -- `new_id` is the id that the database generates.
  unfoldable pub create :
      Store n.Num
      → (new_id workspace_id board_id user_id : ℕ) → CreateTaskDto
      → Result (Task n.Num × Store n.Num)
  create s new_id workspace_id board_id user_id dto = do
    board ← assert_board s workspace_id board_id
    column ← find_column_on_board s workspace_id board_id dto.column_id
    attributes ← create_task_attributes parse dto
    let siblings = reads.order_by (tasks_in column.id s.tasks)
    slot ← resolve_create_neighbors siblings dto.after_task_id "Task not found"
    let (position, tasks) = make_room n column.id slot siblings s.tasks
    let created = new_task new_id board_id column.id user_id attributes position
    ok (
      created,
      emit_to_board
          (record_activity (record s { tasks = tasks ++ created ∷ [] })
            (record {
              workspace_id = workspace_id;
              task_id = some created.id;
              user_id = user_id;
              activity = Activity.task_created created.title created.column_id created.board_id;
            }))
          (record {
            board_id = created.board_id;
            workspace_id = workspace_id;
            actor_id = user_id;
            event = BoardEvent.task_created created.id;
          }),
    )

module _ (n : Number) (reads : SortedReads n) where
  unfoldable pub move :
      Store n.Num
      → (workspace_id task_id user_id : ℕ) → MoveTaskDto
      → Result (Task n.Num × Store n.Num)
  move s workspace_id task_id user_id dto = do
    task ← find_task s workspace_id task_id
    throw_if (is_id dto.before_task_id task_id || is_id dto.after_task_id task_id)
        (bad_request "A task cannot be its own neighbor")
    target ←
        or_throw
          (find_first (λ c. c.id == dto.column_id && in_workspace s workspace_id c.board_id)
            s.columns)
          (not_found "Column not found")
    throw_if (not (target.board_id == task.board_id))
        (unprocessable "Cannot move a task to a column on another board")
    let from_column_name =
        if task.column_id == target.id then target.name else column_name s.columns task.column_id
    let siblings = reads.order_by (tasks_in target.id s.tasks)
    let remaining = keep_if (λ item. not (item.id == task_id)) siblings
    slot ← resolve_move_neighbors remaining dto.before_task_id dto.after_task_id
    let (position, tasks) = write_move n s workspace_id task_id task target.id slot remaining
    let moved = record task { column_id = target.id; position = position }
    ok (
      moved,
      emit_to_board
          (record_activity (record s { tasks = tasks })
            (record {
              workspace_id = workspace_id;
              task_id = some task_id;
              user_id = user_id;
              activity =
                  Activity.task_moved task.title task.column_id from_column_name target.id
                    target.name target.category;
            }))
          (record {
            board_id = moved.board_id;
            workspace_id = workspace_id;
            actor_id = user_id;
            event = BoardEvent.task_moved moved.id moved.column_id moved.position;
          }),
    )
