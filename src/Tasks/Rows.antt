-- ===== src/Tasks/Rows.antt =====
-- The rows and requests of task.service.ts, and the queries that its handlers share.
use kurultay.Base.{
  ℕ, ◌&&◌, Bool, false, Option, none, some, String, List, find_first, ◌==◌, not_found, Result,
  or_throw,
}
use kurultay.Ordering.Slots.{Sibling}
use kurultay.Ordering.Respread.{reposition}
use kurultay.Ordering.Tables.{rows_in, update_where}
use kurultay.Store.{medium, Column, Task, Store, task_sibling, in_workspace}
use kurultay.Tasks.Fields.{or_else, TaskAttributes, TaskPatch, ExistingTask}

pub record MoveTaskDto : Type 0 where
  pub column_id : ℕ
  pub before_task_id : Option ℕ
  pub after_task_id : Option ℕ

abbrev pub is_id : Option ℕ → ℕ → Bool
is_id none id = false
is_id (some a) id = a == id

module _ {Num : Type 0} where
  -- The tasks of a column, with what the ordering reads of them, in the table's order.
  abbrev pub tasks_in : ℕ → List (Task Num) → List (Sibling Num)
  tasks_in = rows_in (λ t. t.column_id) task_sibling

  -- rebalance-sql.ts: `WHERE t.id = v.id AND t."columnId" = columnId`
  unfoldable pub batch_update_task_positions :
      ℕ → List (Sibling Num) → List (Task Num) → List (Task Num)
  batch_update_task_positions column_id updates =
      update_where (λ t. t.column_id == column_id)
        (λ t. record t { position = (reposition updates (task_sibling t)).position })

  unfoldable pub find_column_on_board : Store Num → ℕ → ℕ → ℕ → Result (Column Num)
  find_column_on_board s workspace_id board_id column_id =
      or_throw
        (find_first
          (λ c.
            c.id == column_id && c.board_id == board_id && in_workspace s workspace_id c.board_id)
          s.columns)
        (not_found "Column not found")

  -- `where: { id, board: { workspaceId } }`
  abbrev pub is_task_of : Store Num → ℕ → ℕ → Task Num → Bool
  is_task_of s workspace_id task_id t = t.id == task_id && in_workspace s workspace_id t.board_id

  unfoldable pub find_task : Store Num → ℕ → ℕ → Result (Task Num)
  find_task s workspace_id task_id =
      or_throw (find_first (is_task_of s workspace_id task_id) s.tasks) (not_found "Task not found")

  -- The row as the database creates it, with its defaults.
  abbrev pub new_task : ℕ → ℕ → ℕ → ℕ → TaskAttributes → Num → Task Num
  new_task new_id board_id column_id user_id attributes position = record {
    id = new_id;
    board_id = board_id;
    column_id = column_id;
    title = attributes.title;
    description = attributes.description;
    priority = or_else attributes.priority medium;
    position = position;
    due_date = attributes.due_date;
    estimated_minutes = attributes.estimated_minutes;
    created_by_id = user_id;
  }

  -- Writes the fields that the patch has.
  abbrev pub apply_patch : TaskPatch → Task Num → Task Num
  apply_patch patch t = record t {
    title = or_else patch.title t.title;
    description = or_else patch.description t.description;
    priority = or_else patch.priority t.priority;
    due_date = or_else patch.due_date t.due_date;
    estimated_minutes = or_else patch.estimated_minutes t.estimated_minutes;
  }

  abbrev pub existing_of : Task Num → ExistingTask
  existing_of t = record {
    title = t.title;
    description = t.description;
    priority = t.priority;
    due_date = t.due_date;
    estimated_minutes = t.estimated_minutes;
  }

  -- `fromColumn?.name ?? ''`
  abbrev pub column_name : List (Column Num) → ℕ → String
  column_name columns id = elim (find_first (λ c. c.id == id) columns) [
    | none ↦ ""
    | some c ↦ c.name
  ]
