-- ===== src/Tests/TaskRuns.antt =====
-- The task service's moves and creations, run on the two boards.
use kurultay.Base.{◌++◌, ℕ, ◌*◌, ◌≡◌, refl, none, some, [], ◌∷◌, arith, ok}
use kurultay.Ordering.Slots.{
  InsertionSlot, slice_slot, find_index, index_of_id, resolve_move_neighbors,
  resolve_create_neighbors,
}
use kurultay.Ordering.Slots.Laws.{IsSlotFor}
use kurultay.Ordering.Respread.{reposition, create_updates, other_updates}
use kurultay.Ordering.Fractional.{needs_rebalance, rebalance_from, rebalance_positions}
use kurultay.Ordering.Tables.{without}
use kurultay.Ordering.Placement.{IsPlaced}
use kurultay.Store.{Task, Activity, BoardEvent, Store, unstarted, medium, assert_board}
use kurultay.Tasks.{
  tasks_in, find_task, find_column_on_board, batch_update_task_positions, make_room, write_move,
  create, remove, move,
}
use kurultay.Tasks.Fields.{parse_due_date, create_task_attributes}
use kurultay.Tasks.Create.{create_task-IsPlaced}
use kurultay.Tasks.Move.{others, move_task-IsPlaced, move_elsewhere}
use kurultay.Integrity.{IsSoundStore}
use kurultay.Integrity.Steps.{BoardReaches, start, next, task_moved, task_removed, reaches-IsSound}
use kurultay.Tests.Grid.{grid, sorted}
use kurultay.Tests.Boards.{gap, task_at, office, no_dates, behind_first, between}

-- The moved task takes the middle of its new column, whose tasks are respread.
abbrev moved : Store ℕ
moved = record office {
  tasks =
      task_at 101 1 10 (3 * gap)
      ∷ task_at 100 1 10 gap
      ∷ task_at 102 1 10 (2 * gap)
      ∷ task_at 200 2 20 gap
      ∷ [];
  activities =
      record {
        workspace_id = 7;
        task_id = some 102;
        user_id = 5;
        activity = Activity.task_moved "Fix the gate" 11 "In Progress" 10 "To Do" unstarted;
      }
      ∷ [];
  emitted =
      record {
        board_id = 1;
        workspace_id = 7;
        actor_id = 5;
        event = BoardEvent.task_moved 102 10 (2 * gap);
      }
      ∷ [];
}

move_run : move grid sorted office 7 102 5 between ≡ ok (task_at 102 1 10 (2 * gap), moved)
unfolding move find_task slice_slot find_index index_of_id rebalance_from resolve_move_neighbors
    write_move needs_rebalance rebalance_positions other_updates reposition
    batch_update_task_positions
move_run = refl

move_task-IsPlaced_example :
    (slot : InsertionSlot ℕ) × ((task_at 102 1 10 (2 * gap)).id ≡ 102)
    × ((task_at 102 1 10 (2 * gap)).column_id ≡ 10)
    × IsSlotFor (others grid sorted office 10 102) (some 100) (some 101) slot
    × IsPlaced grid
        (tasks_in 10 moved.tasks)
        (others grid sorted office 10 102)
        102
        slot.insertion_index
move_task-IsPlaced_example =
    move_task-IsPlaced grid sorted office 7 102 5 between (task_at 102 1 10 (2 * gap)) moved
      move_run (ground arith) (refl, (refl, tt)) (omega arith)

move_elsewhere_example : tasks_in 11 moved.tasks ≡ without 102 (tasks_in 11 office.tasks)
move_elsewhere_example =
    move_elsewhere grid sorted office 7 102 5 between (task_at 102 1 10 (2 * gap)) moved 11 move_run
      (ground arith) (λ e. ground arith)

abbrev oil : Task ℕ
oil = record {
  id = 103;
  board_id = 1;
  column_id = 10;
  title = "Oil the hinges";
  description = none;
  priority = medium;
  position = 2 * gap;
  due_date = none;
  estimated_minutes = none;
  created_by_id = 5;
}

abbrev created : Store ℕ
created = record office {
  tasks =
      task_at 101 1 10 (3 * gap)
      ∷ task_at 100 1 10 gap
      ∷ task_at 102 1 11 gap
      ∷ task_at 200 2 20 gap
      ∷ oil
      ∷ [];
  activities =
      record {
        workspace_id = 7;
        task_id = some 103;
        user_id = 5;
        activity = Activity.task_created "Oil the hinges" 10 1;
      }
      ∷ [];
  emitted =
      record { board_id = 1; workspace_id = 7; actor_id = 5; event = BoardEvent.task_created 103 }
      ∷ [];
}

create_run : create grid sorted no_dates office 103 7 1 5 behind_first ≡ ok (oil, created)
unfolding create assert_board find_column_on_board create_task_attributes parse_due_date slice_slot
    find_index resolve_create_neighbors make_room needs_rebalance rebalance_from rebalance_positions
    create_updates reposition batch_update_task_positions
create_run = refl

create_task-IsPlaced_example :
    (slot : InsertionSlot ℕ) × (oil.id ≡ 103)
    × (oil.column_id ≡ 10)
    × IsSlotFor (sorted.order_by (tasks_in 10 office.tasks)) (some 100) none slot
    × IsPlaced grid
        (tasks_in 10 created.tasks)
        (sorted.order_by (tasks_in 10 office.tasks))
        103
        slot.insertion_index
create_task-IsPlaced_example =
    create_task-IsPlaced grid sorted no_dates office 103 7 1 5 behind_first oil created create_run
      (ground arith) (ground arith) (refl, (refl, tt)) (omega arith)

-- A task of the column that the other one has moved to goes.
abbrev removed_after : Store ℕ
removed_after = record moved {
  tasks = task_at 101 1 10 (3 * gap) ∷ task_at 102 1 10 (2 * gap) ∷ task_at 200 2 20 gap ∷ [];
  activities =
      moved.activities
      ++ record {
        workspace_id = 7;
        task_id = none;
        user_id = 5;
        activity = Activity.task_deleted 100 "Fix the gate" 10 1;
      }
        ∷ [];
  emitted =
      moved.emitted
      ++ record {
        board_id = 1;
        workspace_id = 7;
        actor_id = 5;
        event = BoardEvent.task_deleted 100;
      }
        ∷ [];
}

remove_after_run : remove moved 7 100 5 ≡ ok removed_after
unfolding remove find_task
remove_after_run = refl

abbrev moved_then_removed : BoardReaches grid sorted no_dates office removed_after
moved_then_removed =
    next (next start (task_moved 7 102 5 between (task_at 102 1 10 (2 * gap)) move_run))
      (task_removed 7 100 5 remove_after_run)

office-IsSound : IsSoundStore office
office-IsSound = record {
  tasks_sound = (refl, (refl, (refl, (refl, tt))));
  tasks_distinct = ground arith;
  columns_sound = (refl, (refl, (refl, tt)));
}

reaches-IsSound_example : IsSoundStore removed_after
reaches-IsSound_example =
    reaches-IsSound grid sorted no_dates office removed_after moved_then_removed office-IsSound
