-- ===== src/Store.antt =====
-- The rows that the board services read and write (apps/api/prisma/schema.prisma, and the row
-- types of packages/shared-types), with the audit entries and the socket events they leave.
-- A handler is a function of the store; when it throws there is no new store, as its transaction
-- is rolled back and nothing has been emitted.
use kurultay.Base.{
  map, if◌then◌else◌, ℕ, none, some, ◌&&◌, Bool, Option, String, List, [], ◌∷◌, ◌++◌, any_of,
  find_first, ◌==◌, not_found, Result, or_throw,
}
use kurultay.Ordering.Slots.{Sibling}

pub data Priority : Type 0 where
  low medium high urgent : Priority

pub data ColumnCategory : Type 0 where
  backlog unstarted started completed canceled : ColumnCategory

pub record Board : Type 0 where
  pub id : ℕ
  pub workspace_id : ℕ
  pub name : String
  pub description : Option String

pub record Column (Num : Type 0) : Type 0 where
  pub id : ℕ
  pub board_id : ℕ
  pub name : String
  pub position : Num
  pub color : Option String
  pub category : ColumnCategory

-- Times are numbers of milliseconds.
pub record Task (Num : Type 0) : Type 0 where
  pub id : ℕ
  pub board_id : ℕ
  pub column_id : ℕ
  pub title : String
  pub description : Option String
  pub priority : Priority
  pub position : Num
  pub due_date : Option ℕ
  pub estimated_minutes : Option ℕ
  pub created_by_id : ℕ

-- One entry of `changes` on a task, by the field's new value.
pub data TaskChange : Type 0 where
  title : String → TaskChange
  description : Option String → TaskChange
  priority : Priority → TaskChange
  due_date : Option ℕ → TaskChange
  estimated_minutes : Option ℕ → TaskChange

-- One entry of `fieldChanges` on a column: the value before and the value after.
pub data ColumnChange : Type 0 where
  name : String → String → ColumnChange
  color : Option String → Option String → ColumnChange
  category : ColumnCategory → ColumnCategory → ColumnChange

-- The same for a board.
pub data BoardChange : Type 0 where
  name : String → String → BoardChange
  description : Option String → Option String → BoardChange

-- The activity types with their payloads; ids in a payload stand in the source's order.
pub data Activity : Type 0 where
  task_created : (title : String) (column_id board_id : ℕ) → Activity
  task_updated : (title : String) (changes : List TaskChange) → Activity
  task_deleted : (task_id : ℕ) (title : String) (column_id board_id : ℕ) → Activity
  task_moved :
      (title : String) (from_column_id : ℕ) (from_column_name : String) (to_column_id : ℕ)
      (to_column_name : String) (to_column_category : ColumnCategory)
      → Activity
  board_created : (board_id : ℕ) (name : String) (seeded_columns : List String) → Activity
  board_updated : (board_id : ℕ) (name : String) (changes : List BoardChange) → Activity
  board_deleted : (board_id : ℕ) (name : String) (task_count : ℕ) → Activity
  column_created :
      (column_id board_id : ℕ) (name : String) (category : ColumnCategory) (seeded : Bool)
      → Activity
  column_updated : (column_id board_id : ℕ) (name : String) (changes : List ColumnChange) → Activity
  column_deleted : (column_id board_id : ℕ) (name : String) (category : ColumnCategory) → Activity

pub record ActivityEntry : Type 0 where
  pub workspace_id : ℕ
  pub task_id : Option ℕ
  pub user_id : ℕ
  pub activity : Activity

-- The socket events of a board's room; all carry the workspace, the board and the actor.
pub data BoardEvent (Num : Type 0) : Type 0 where
  task_created task_updated task_deleted : (task_id : ℕ) → BoardEvent Num
  task_moved : (task_id column_id : ℕ) (position : Num) → BoardEvent Num
  column_changed : (column_id : ℕ) → BoardEvent Num

-- `Activity.task` has `onDelete: SetNull`: an entry outlives the task that it is about.
abbrev pub set_null : (gone : ℕ → Bool) → List ActivityEntry → List ActivityEntry
set_null gone = map (λ e. elim e.task_id [
  | none ↦ e
  | some id ↦ if gone id then record e { task_id = none } else e
])

pub record Emitted (Num : Type 0) : Type 0 where
  pub board_id : ℕ
  pub workspace_id : ℕ
  pub actor_id : ℕ
  pub event : BoardEvent Num

pub record Store (Num : Type 0) : Type 0 where
  pub boards : List Board
  pub columns : List (Column Num)
  pub tasks : List (Task Num)
  -- oldest first
  pub activities : List ActivityEntry
  pub emitted : List (Emitted Num)

abbrev pub task_sibling : {Num : Type 0} → Task Num → Sibling Num
task_sibling t = record { id = t.id; position = t.position }

abbrev pub column_sibling : {Num : Type 0} → Column Num → Sibling Num
column_sibling c = record { id = c.id; position = c.position }

module _ {Num : Type 0} where
  -- The predicate `board: { workspaceId }` of a row on the board.
  abbrev pub in_workspace : Store Num → ℕ → ℕ → Bool
  in_workspace s workspace_id board_id =
      any_of (λ b. b.id == board_id && b.workspace_id == workspace_id) s.boards

  unfoldable pub assert_board : Store Num → ℕ → ℕ → Result Board
  assert_board s workspace_id board_id =
      or_throw (find_first (λ b. b.id == board_id && b.workspace_id == workspace_id) s.boards)
        (not_found "Board not found")

  -- `activityService.record`, in the transaction of the write.
  abbrev pub record_activity : Store Num → ActivityEntry → Store Num
  record_activity s entry = record s { activities = s.activities ++ entry ∷ [] }

  -- `realtime.emitToBoard`, once the transaction is through.
  abbrev pub emit_to_board : Store Num → Emitted Num → Store Num
  emit_to_board s event = record s { emitted = s.emitted ++ event ∷ [] }
