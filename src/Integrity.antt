-- ===== src/Integrity.antt =====
-- Every task stands in a column of its own board, and every column on a board: what the foreign
-- keys of apps/api/prisma/schema.prisma ask of the rows that the services write.
pub mod Keys
pub mod TaskWrites
pub mod TaskPlaces
pub mod ColumnWrites
pub mod BoardWrites
pub mod Steps
use kurultay.Base.{ℕ, ◌≡◌, ◌&&◌, Bool, true, List, any_of, All, ◌==◌}
use kurultay.Base.Perms.{IsDistinct}
use kurultay.Store.{Board, Column, Task, Store}

abbrev pub has_board : List Board → ℕ → Bool
has_board boards board_id = any_of (λ b. b.id == board_id) boards

module _ {Num : Type 0} where
  -- `Task(boardId, columnId)` refers to `Column(boardId, id)`.
  abbrev pub has_column : List (Column Num) → (board_id column_id : ℕ) → Bool
  has_column columns board_id column_id =
      any_of (λ c. c.id == column_id && c.board_id == board_id) columns

  -- The rows refer to rows that are there, and no two tasks have the same id.
  pub record IsSound (boards : List Board) (columns : List (Column Num)) (tasks : List (Task Num))
      : Type 0 where
    pub tasks_sound : All (λ t. has_column columns t.board_id t.column_id ≡ true) tasks
    pub tasks_distinct : IsDistinct (λ (t : Task Num). t.id) tasks
    pub columns_sound : All (λ c. has_board boards c.board_id ≡ true) columns

  abbrev pub IsSoundStore : Store Num → Type 0
  IsSoundStore s = IsSound s.boards s.columns s.tasks
