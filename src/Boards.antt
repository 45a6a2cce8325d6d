-- ===== src/Boards.antt =====
-- board/board.service.ts: boards are created with their columns, changed, and removed with all
-- that stands on them.
pub mod Remove
use kurultay.Base.{
  ℕ, ◌+◌, ◌≡◌, ◌&&◌, not, Bool, true, false, Option, none, some, String, List, [], ◌∷◌, ◌++◌, map,
  length, keep_if, any_of, ◌==◌, str_eq, if◌then◌else◌, not_found, Result, ok, err, ◌>>=◌, ◌>>◌,
  throw_if,
}
use kurultay.Ordering.Number.{Number}
use kurultay.Ordering.Tables.{update_where}
use kurultay.Store.{
  Board, BoardChange, Column, Task, Activity, Store, assert_board, record_activity, set_null,
}
use kurultay.Tasks.Fields.{Field, or_else, option_eq}
use kurultay.Columns.{Locale, default_columns_for, seed_columns}

pub record CreateBoardDto : Type 0 where
  pub name : String
  pub description : Option String

pub record UpdateBoardDto : Type 0 where
  pub name : Field String
  pub description : Field (Option String)

-- common/field-changes.ts, over `['name', 'description']`
unfoldable pub board_changes : Board → Board → List BoardChange
board_changes before after =
    (if str_eq before.name after.name then [] else BoardChange.name before.name after.name ∷ [])
    ++ (if option_eq str_eq before.description after.description
        then []
        else BoardChange.description before.description after.description ∷ [])

abbrev pub apply_board_patch : UpdateBoardDto → Board → Board
apply_board_patch dto b = record b {
  name = or_else dto.name b.name;
  description = or_else dto.description b.description;
}

-- `where: { id: boardId, workspaceId }`
abbrev pub is_board_of : (workspace_id board_id : ℕ) → Board → Bool
is_board_of workspace_id board_id b = b.id == board_id && b.workspace_id == workspace_id

module _ {Num : Type 0} where
  unfoldable pub update :
      Store Num → (workspace_id board_id actor_id : ℕ) → UpdateBoardDto → Result (Board × Store Num)
  update s workspace_id board_id actor_id dto = do
    scoped ← assert_board s workspace_id board_id
    let updated = apply_board_patch dto scoped
    ok (
      updated,
      record_activity
          (record s {
            boards =
                update_where (is_board_of workspace_id board_id) (apply_board_patch dto) s.boards;
          })
          (record {
            workspace_id = workspace_id;
            task_id = none;
            user_id = actor_id;
            activity = Activity.board_updated board_id updated.name (board_changes scoped updated);
          }),
    )

  -- The cascades of the foreign keys take the board's columns and tasks.
  unfoldable pub remove : Store Num → (workspace_id board_id actor_id : ℕ) → Result (Store Num)
  remove s workspace_id board_id actor_id = do
    scoped ← assert_board s workspace_id board_id
    let there = keep_if (λ t. t.board_id == board_id) s.tasks
    let recorded = record_activity s (record {
      workspace_id = workspace_id;
      task_id = none;
      user_id = actor_id;
      activity = Activity.board_deleted board_id scoped.name (length there);
    })
    let kept = keep_if (λ b. not (is_board_of workspace_id board_id b)) s.boards
    throw_if (length kept == length s.boards) (not_found "Board not found")
    ok (record recorded {
      boards = kept;
      columns = keep_if (λ c. not (c.board_id == board_id)) s.columns;
      tasks = keep_if (λ t. not (t.board_id == board_id)) s.tasks;
      activities = set_null (λ id. any_of (λ t. t.id == id) there) recorded.activities;
    })

module _ (n : Number) where
  -- `locale` is what `LocaleService.resolve` answers; the ids are those that the database generates.
  unfoldable pub create :
      Store n.Num
      → (new_id : ℕ) → (new_ids : ℕ → ℕ) → (workspace_id actor_id : ℕ) → CreateBoardDto
      → Locale
      → Board × Store n.Num
  create s new_id new_ids workspace_id actor_id dto locale =
      let created : Board = record {
        id = new_id;
        workspace_id = workspace_id;
        name = dto.name;
        description = dto.description;
      } in
      (
        created,
        record_activity
            (record s {
              boards = s.boards ++ created ∷ [];
              columns = s.columns ++ seed_columns n new_ids new_id locale;
            })
            (record {
              workspace_id = workspace_id;
              task_id = none;
              user_id = actor_id;
              activity =
                  Activity.board_created new_id created.name
                    (map (λ d. d.name) (default_columns_for locale));
            }),
      )
