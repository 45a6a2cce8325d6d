-- ===== src/Columns/Rows.antt =====
-- The rows of board/column.service.ts, its requests and answers, the seed of a board
-- (common/board-defaults.ts), and the queries that the handlers share.
use kurultay.Base.{
  ℕ, ◌&&◌, Bool, true, false, Option, String, List, [], ◌∷◌, ◌++◌, length, keep_if, find_first,
  ◌==◌, str_eq, if◌then◌else◌, not_found, Result, or_throw,
}
use kurultay.Ordering.Slots.{Sibling}
use kurultay.Ordering.Respread.{reposition}
use kurultay.Ordering.Tables.{rows_in, update_where}
use kurultay.Store.{
  ColumnCategory, backlog, unstarted, started, completed, canceled, Column, ColumnChange,
  BoardEvent, Store, column_sibling, in_workspace, emit_to_board,
}
use kurultay.Tasks.Fields.{Field, or_else, option_eq}

-- `taskCount` is counted from the tasks, by the query and by the model alike.
pub record ColumnDto (Num : Type 0) : Type 0 where
  pub column : Column Num
  pub task_count : ℕ

pub record CreateColumnDto : Type 0 where
  pub name : String
  pub color : Option String
  pub category : Field ColumnCategory
  pub after_column_id : Option ℕ

pub record UpdateColumnDto : Type 0 where
  pub name : Field String
  pub color : Field (Option String)
  pub category : Field ColumnCategory

pub record MoveColumnDto : Type 0 where
  pub before_column_id : Option ℕ
  pub after_column_id : Option ℕ

-- common/board-defaults.ts
pub data Locale : Type 0 where
  en tr : Locale

pub record DefaultColumn : Type 0 where
  pub name : String
  -- a multiple of `POSITION_GAP`
  pub gaps : ℕ
  pub category : ColumnCategory

abbrev pub default_column : String → ℕ → ColumnCategory → DefaultColumn
default_column name gaps category = record { name = name; gaps = gaps; category = category }

unfoldable pub default_columns_for : Locale → List DefaultColumn
default_columns_for en =
    default_column "To Do" 1 unstarted
    ∷ default_column "In Progress" 2 started
    ∷ default_column "Done" 3 completed
    ∷ []
default_columns_for tr =
    default_column "Yapılacak" 1 unstarted
    ∷ default_column "Devam Ediyor" 2 started
    ∷ default_column "Bitti" 3 completed
    ∷ []

abbrev pub category_eq : ColumnCategory → ColumnCategory → Bool
category_eq backlog backlog = true
category_eq unstarted unstarted = true
category_eq started started = true
category_eq completed completed = true
category_eq canceled canceled = true
category_eq _ _ = false

module _ {Num : Type 0} where
  abbrev pub columns_in : ℕ → List (Column Num) → List (Sibling Num)
  columns_in = rows_in (λ c. c.board_id) column_sibling

  -- `_count: { select: { tasks: true } }`
  abbrev pub to_dto : Store Num → Column Num → ColumnDto Num
  to_dto s c = record {
    column = c;
    task_count = length (keep_if (λ t. t.column_id == c.id) s.tasks);
  }

  abbrev pub emit_changed : Store Num → (workspace_id actor_id board_id column_id : ℕ) → Store Num
  emit_changed s workspace_id actor_id board_id column_id = emit_to_board s (record {
    board_id = board_id;
    workspace_id = workspace_id;
    actor_id = actor_id;
    event = BoardEvent.column_changed column_id;
  })

  -- rebalance-sql.ts: `WHERE c.id = v.id AND c."boardId" = boardId`
  unfoldable pub batch_update_column_positions :
      ℕ → List (Sibling Num) → List (Column Num) → List (Column Num)
  batch_update_column_positions board_id updates =
      update_where (λ c. c.board_id == board_id)
        (λ c. record c { position = (reposition updates (column_sibling c)).position })

  -- `where: { id, board: { workspaceId } }`
  abbrev pub is_column_of : Store Num → ℕ → ℕ → Column Num → Bool
  is_column_of s workspace_id column_id c =
      c.id == column_id && in_workspace s workspace_id c.board_id

  unfoldable pub find_column : Store Num → ℕ → ℕ → Result (Column Num)
  find_column s workspace_id column_id =
      or_throw (find_first (is_column_of s workspace_id column_id) s.columns)
        (not_found "Column not found")

  abbrev pub new_column : ℕ → ℕ → CreateColumnDto → Num → Column Num
  new_column new_id board_id dto position = record {
    id = new_id;
    board_id = board_id;
    name = dto.name;
    position = position;
    color = dto.color;
    category = or_else dto.category unstarted;
  }

  -- common/field-changes.ts, over `['name', 'color', 'category']`
  unfoldable pub field_changes : Column Num → Column Num → List ColumnChange
  field_changes before after =
      (if str_eq before.name after.name then [] else ColumnChange.name before.name after.name ∷ [])
      ++ ((if option_eq str_eq before.color after.color
            then []
            else ColumnChange.color before.color after.color ∷ [])
          ++ (if category_eq before.category after.category
              then []
              else ColumnChange.category before.category after.category ∷ []))

  abbrev pub apply_column_patch : UpdateColumnDto → Column Num → Column Num
  apply_column_patch dto c = record c {
    name = or_else dto.name c.name;
    color = or_else dto.color c.color;
    category = or_else dto.category c.category;
  }
