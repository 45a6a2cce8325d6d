-- ===== src/Columns.antt =====
-- board/column.service.ts: a board's columns are created, seeded, changed, removed and moved.
mod Rows
pub mod Create
pub mod Move
pub mod Seed
pub mod Remove
unfoldable pub use Rows.*
use kurultay.Base.{
  ℕ, ◌+◌, ◌≡◌, ◌&&◌, ◌||◌, not, Bool, true, false, Option, none, some, String, List, [], ◌∷◌, ◌++◌,
  map, map_from, length, insert_at, keep_if, find_first, ltb, ◌==◌, str_eq, if◌then◌else◌,
  bad_request, not_found, conflict, Result, ok, err, ◌>>=◌, ◌>>◌, throw_if, or_throw,
}
use kurultay.Ordering.Number.{Number}
use kurultay.Ordering.Fractional.{midpoint, needs_rebalance, rebalance_positions}
use kurultay.Ordering.Slots.{
  Sibling, InsertionSlot, resolve_move_neighbors, resolve_create_neighbors,
}
use kurultay.Ordering.Respread.{position_at, reposition, reordered, create_updates, other_updates}
use kurultay.Ordering.Tables.{rows_in, update_where}
use kurultay.Ordering.Placement.{pos_of, SortedReads}
use kurultay.Store.{
  ColumnCategory, backlog, unstarted, started, completed, canceled, Column, Task, ColumnChange,
  Activity, BoardEvent, Store, column_sibling, in_workspace, assert_board, record_activity,
  emit_to_board,
}
use kurultay.Tasks.{is_id}
use kurultay.Tasks.Fields.{Field, undefined, value, or_else, option_eq}

module _ {Num : Type 0} where
  unfoldable pub update :
      Store Num
      → (workspace_id column_id actor_id : ℕ) → UpdateColumnDto
      → Result (ColumnDto Num × Store Num)
  update s workspace_id column_id actor_id dto = do
    scoped ← find_column s workspace_id column_id
    let updated = apply_column_patch dto scoped
    let written = record s {
      columns =
          update_where (is_column_of s workspace_id column_id) (apply_column_patch dto) s.columns;
    }
    ok (
      to_dto s updated,
      emit_changed
          (record_activity written (record {
            workspace_id = workspace_id;
            task_id = none;
            user_id = actor_id;
            activity =
                Activity.column_updated column_id updated.board_id updated.name
                  (field_changes scoped updated);
          }))
          workspace_id actor_id updated.board_id updated.id,
    )

  -- The row is read and deleted in one transaction, so the deletion finds it.
  unfoldable pub remove : Store Num → (workspace_id column_id actor_id : ℕ) → Result (Store Num)
  remove s workspace_id column_id actor_id = do
    row ← find_column s workspace_id column_id
    throw_if (ltb 0 (length (keep_if (λ t. t.column_id == column_id) s.tasks)))
        (conflict "Column has tasks; move or delete them first")
    let recorded = record_activity s (record {
      workspace_id = workspace_id;
      task_id = none;
      user_id = actor_id;
      activity = Activity.column_deleted column_id row.board_id row.name row.category;
    })
    let kept = keep_if (λ c. not (is_column_of s workspace_id column_id c)) s.columns
    throw_if (length kept == length s.columns) (not_found "Column not found")
    ok (emit_changed (record recorded { columns = kept }) workspace_id actor_id row.board_id row.id)

module _ (n : Number) where
  -- The position of the new column, and the columns with the others respread where needed.
  unfoldable pub make_room :
      ℕ
      → InsertionSlot n.Num
      → List (Sibling n.Num)
      → List (Column n.Num)
      → n.Num × List (Column n.Num)
  make_room board_id slot siblings columns =
      if needs_rebalance n (pos_of slot.prev) (pos_of slot.next)
      then (
        position_at n (rebalance_positions n (length siblings + 1)) slot.insertion_index,
        batch_update_column_positions board_id (create_updates n slot.insertion_index siblings)
            columns,
      )
      else (midpoint n (pos_of slot.prev) (pos_of slot.next), columns)

  -- The position of the moved column, and the columns after both of the transaction's writes.
  unfoldable pub write_move :
      Store n.Num
      → (workspace_id column_id : ℕ) → Column n.Num
      → InsertionSlot n.Num
      → List (Sibling n.Num)
      → n.Num × List (Column n.Num)
  write_move s workspace_id column_id column slot remaining =
      let place = λ (position : n.Num).
        update_where (is_column_of s workspace_id column_id) (λ c. record c { position = position })
          s.columns in
      let rows = reordered slot.insertion_index (column_sibling column) remaining in
      let spread = position_at n (rebalance_positions n (length rows)) slot.insertion_index in
      let middle = midpoint n (pos_of slot.prev) (pos_of slot.next) in
      if needs_rebalance n (pos_of slot.prev) (pos_of slot.next)
      then (
        spread,
        batch_update_column_positions column.board_id
            (other_updates n slot.insertion_index (column_sibling column) remaining) (place spread),
      )
      else (middle, place middle)

  -- The seeded columns; `new_ids` are the ids that the database generates for them.
  abbrev pub seed_columns : (ℕ → ℕ) → ℕ → Locale → List (Column n.Num)
  seed_columns new_ids board_id locale =
      map_from 0
        (λ i d. record {
          id = new_ids i;
          board_id = board_id;
          name = d.name;
          position = n.gap_times d.gaps;
          color = none;
          category = d.category;
        })
        (default_columns_for locale)

  -- `locale` is what `LocaleService.resolve` answers. The rows are read back by position, which
  -- is the order of the seed list.
  unfoldable pub create_defaults :
      Store n.Num
      → (ℕ → ℕ)
      → (workspace_id board_id actor_id : ℕ) → Locale
      → Result (List (ColumnDto n.Num) × Store n.Num)
  create_defaults s new_ids workspace_id board_id actor_id locale = do
    board ← assert_board s workspace_id board_id
    throw_if (ltb 0 (length (keep_if (λ c. c.board_id == board_id) s.columns)))
        (conflict "Board already has columns")
    let rows = seed_columns new_ids board_id locale
    ok (
      map (to_dto s) rows,
      record s {
        columns = s.columns ++ rows;
        activities =
            s.activities
            ++ map
                (λ c. record {
                  workspace_id = workspace_id;
                  task_id = none;
                  user_id = actor_id;
                  activity = Activity.column_created c.id board_id c.name c.category true;
                })
                rows;
        emitted =
            s.emitted
            ++ map
                (λ c. record {
                  board_id = board_id;
                  workspace_id = workspace_id;
                  actor_id = actor_id;
                  event = BoardEvent.column_changed c.id;
                })
                rows;
      },
    )

module _ (n : Number) (reads : SortedReads n) where
  -- `new_id` is the id that the database generates; the new column has no tasks yet.
  unfoldable pub create :
      Store n.Num
      → (new_id workspace_id board_id actor_id : ℕ) → CreateColumnDto
      → Result (ColumnDto n.Num × Store n.Num)
  create s new_id workspace_id board_id actor_id dto = do
    board ← assert_board s workspace_id board_id
    let columns = reads.order_by (columns_in board_id s.columns)
    slot ← resolve_create_neighbors columns dto.after_column_id "Column not found"
    let (position, written) = make_room n board_id slot columns s.columns
    let created = new_column new_id board_id dto position
    ok (
      to_dto s created,
      emit_changed
          (record_activity (record s { columns = written ++ created ∷ [] })
            (record {
              workspace_id = workspace_id;
              task_id = none;
              user_id = actor_id;
              activity =
                  Activity.column_created created.id created.board_id created.name created.category
                    false;
            }))
          workspace_id actor_id created.board_id created.id,
    )

  unfoldable pub move :
      Store n.Num
      → (workspace_id column_id actor_id : ℕ) → MoveColumnDto
      → Result (ColumnDto n.Num × Store n.Num)
  move s workspace_id column_id actor_id dto = do
    column ← find_column s workspace_id column_id
    throw_if (is_id dto.before_column_id column_id || is_id dto.after_column_id column_id)
        (bad_request "A column cannot be its own neighbor")
    let columns = reads.order_by (columns_in column.board_id s.columns)
    let remaining = keep_if (λ item. not (item.id == column_id)) columns
    slot ← resolve_move_neighbors remaining dto.before_column_id dto.after_column_id
    let (position, written) = write_move n s workspace_id column_id column slot remaining
    let moved = record column { position = position }
    ok (
      to_dto s moved,
      emit_changed (record s { columns = written }) workspace_id actor_id moved.board_id moved.id,
    )
