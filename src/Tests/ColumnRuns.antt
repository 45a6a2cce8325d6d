-- ===== src/Tests/ColumnRuns.antt =====
-- The column service's moves, creations and removals, run on the two boards.
use kurultay.Base.{ℕ, ◌≡◌, refl, none, some, [], ◌∷◌, arith, find_first, ok, err, false}
use kurultay.Ordering.Slots.{
  InsertionSlot, slice_slot, find_index, index_of_id, resolve_move_neighbors,
  resolve_create_neighbors,
}
use kurultay.Ordering.Slots.Laws.{IsSlotFor}
use kurultay.Ordering.Fractional.{midpoint, needs_rebalance}
use kurultay.Ordering.Placement.{IsPlaced}
use kurultay.Store.{Column, Activity, BoardEvent, Store, unstarted, started, assert_board}
use kurultay.Columns.{
  ColumnDto, CreateColumnDto, MoveColumnDto, columns_in, is_column_of, find_column, make_room,
  write_move, create, move,
}
use kurultay.Tasks.Fields.{value}
use kurultay.Columns.Create.{create_column-IsPlaced}
use kurultay.Columns.Move.{others, move_column-IsPlaced}
use kurultay.Columns.Remove.{tasks_of, remove_column_lem}
use kurultay.Columns.{remove}
use kurultay.Ordering.Tables.{without}
use kurultay.Base.{not_found}
use kurultay.Tests.Grid.{grid, sorted}
use kurultay.Tests.Boards.{gap, office, to_do, doing}

-- The second column, moved before the first.
abbrev doing_first : ColumnDto ℕ
doing_first = record { column = record doing { position = 0 }; task_count = 1 }

abbrev to_front : MoveColumnDto
to_front = record { before_column_id = none; after_column_id = some 10 }

abbrev moved : Store ℕ
moved = record office {
  columns =
      record doing { position = 0 }
      ∷ to_do
      ∷ record {
        id = 20;
        board_id = 2;
        name = "Beds";
        position = gap;
        color = none;
        category = unstarted;
      }
      ∷ [];
  emitted =
      record { board_id = 1; workspace_id = 7; actor_id = 5; event = BoardEvent.column_changed 11 }
      ∷ [];
}

move_run : move grid sorted office 7 11 5 to_front ≡ ok (doing_first, moved)
unfolding move find_column slice_slot find_index index_of_id resolve_move_neighbors write_move
    needs_rebalance midpoint
move_run = refl

move_column-IsPlaced_example :
    (slot : InsertionSlot ℕ) × (doing_first.column.id ≡ 11)
    × ((before : Column ℕ) × (find_first (is_column_of office 7 11) office.columns ≡ some before)
        × (doing_first.column ≡ record before { position = doing_first.column.position }))
    × IsSlotFor (others grid sorted office 1 11) none (some 10) slot
    × IsPlaced grid
        (columns_in 1 moved.columns)
        (others grid sorted office 1 11)
        11
        slot.insertion_index
move_column-IsPlaced_example =
    move_column-IsPlaced grid sorted office 7 11 5 to_front doing_first moved move_run
      (ground arith) (refl, tt) (omega arith)

abbrev review : CreateColumnDto
review = record {
  name = "Review";
  color = some "#f59e0b";
  category = value started;
  after_column_id = some 10;
}

abbrev review_made : ColumnDto ℕ
review_made = record {
  column = record {
    id = 12;
    board_id = 1;
    name = "Review";
    position = 3000000000;
    color = some "#f59e0b";
    category = started;
  };
  task_count = 0;
}

abbrev created : Store ℕ
created = record office {
  columns =
      doing
      ∷ to_do
      ∷ record {
        id = 20;
        board_id = 2;
        name = "Beds";
        position = gap;
        color = none;
        category = unstarted;
      }
      ∷ review_made.column
      ∷ [];
  activities =
      record {
        workspace_id = 7;
        task_id = none;
        user_id = 5;
        activity = Activity.column_created 12 1 "Review" started false;
      }
      ∷ [];
  emitted =
      record { board_id = 1; workspace_id = 7; actor_id = 5; event = BoardEvent.column_changed 12 }
      ∷ [];
}

create_run : create grid sorted office 12 7 1 5 review ≡ ok (review_made, created)
unfolding create assert_board slice_slot find_index resolve_create_neighbors make_room
    needs_rebalance midpoint
create_run = refl

create_column-IsPlaced_example :
    (slot : InsertionSlot ℕ) × (review_made.column.id ≡ 12)
    × (review_made.column.board_id ≡ 1)
    × IsSlotFor (sorted.order_by (columns_in 1 office.columns)) (some 10) none slot
    × IsPlaced grid
        (columns_in 1 created.columns)
        (sorted.order_by (columns_in 1 office.columns))
        12
        slot.insertion_index
create_column-IsPlaced_example =
    create_column-IsPlaced grid sorted office 12 7 1 5 review review_made created create_run
      (ground arith) (ground arith) (refl, (refl, tt)) (omega arith)

-- The second column, once it is empty.
abbrev emptied : Store ℕ
emptied = record office { tasks = [] }

abbrev narrowed : Store ℕ
narrowed = record emptied {
  columns =
      to_do
      ∷ record {
        id = 20;
        board_id = 2;
        name = "Beds";
        position = gap;
        color = none;
        category = unstarted;
      }
      ∷ [];
  activities =
      record {
        workspace_id = 7;
        task_id = none;
        user_id = 5;
        activity = Activity.column_deleted 11 1 "In Progress" started;
      }
      ∷ [];
  emitted =
      record { board_id = 1; workspace_id = 7; actor_id = 5; event = BoardEvent.column_changed 11 }
      ∷ [];
}

remove_run : remove emptied 7 11 5 ≡ ok narrowed
unfolding remove find_column
remove_run = refl

remove_column_lem_example :
    (tasks_of 11 emptied.tasks ≡ [])
    × (narrowed.tasks ≡ emptied.tasks)
    × ((b : ℕ) → columns_in b narrowed.columns ≡ without 11 (columns_in b emptied.columns))
    × (remove narrowed 7 11 6 ≡ err (not_found "Column not found"))
remove_column_lem_example = remove_column_lem emptied 7 11 5 6 narrowed remove_run (ground arith)
