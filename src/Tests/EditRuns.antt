-- ===== src/Tests/EditRuns.antt =====
-- The task service's updates and removals, run on the two boards.
use kurultay.Base.{ℕ, ◌+◌, ◌≡◌, ◌↔◌, refl, none, some, [], ◌∷◌, arith, All, ok, err, not_found}
use kurultay.Ordering.Tables.{without}
use kurultay.Store.{Task, TaskChange, Activity, BoardEvent, Store}
use kurultay.Tasks.{
  tasks_in, find_task, write_update, commit_update, update, remove, move, apply_patch, existing_of,
}
use kurultay.Tasks.Fields.{value, undefined, TaskPatch, parse_due_date, plan_task_update}
use kurultay.Tasks.Fields.Laws.{plan_task_update-nil_iff}
use kurultay.Tasks.Edit.{IsOutside, foreign_tasks, missing_task, update_foreign, remove_lem}
use kurultay.Tests.Grid.{grid, sorted}
use kurultay.Tests.Boards.{gap, task_at, office, no_dates, new_title, between}

abbrev painted : Task ℕ
painted = record (task_at 100 1 10 gap) { title = "Paint the gate" }

abbrev updated : Store ℕ
updated = record office {
  tasks = task_at 101 1 10 (gap + 1) ∷ painted ∷ task_at 102 1 11 gap ∷ task_at 200 2 20 gap ∷ [];
  activities =
      record {
        workspace_id = 7;
        task_id = some 100;
        user_id = 5;
        activity = Activity.task_updated "Paint the gate" (TaskChange.title "Paint the gate" ∷ []);
      }
      ∷ [];
  emitted =
      record { board_id = 1; workspace_id = 7; actor_id = 5; event = BoardEvent.task_updated 100 }
      ∷ [];
}

update_run : update no_dates office 7 100 5 new_title ≡ ok (painted, updated)
unfolding update find_task plan_task_update parse_due_date commit_update write_update
update_run = refl

update_foreign_example : foreign_tasks office 7 updated.tasks ≡ foreign_tasks office 7 office.tasks
update_foreign_example = update_foreign no_dates office 7 100 5 new_title painted updated update_run

-- The priority is sent too, but is the stored one.
abbrev patch : TaskPatch
patch = record {
  title = value "Paint the gate";
  description = undefined;
  priority = new_title.priority;
  due_date = undefined;
  estimated_minutes = undefined;
}

plan_run :
    plan_task_update no_dates (existing_of (task_at 100 1 10 gap)) new_title
    ≡ ok (patch, TaskChange.title "Paint the gate" ∷ [])
unfolding plan_task_update parse_due_date
plan_run = refl

plan_task_update-nil_iff_example :
    (TaskChange.title "Paint the gate" ∷ [] ≡ [])
    ↔ (apply_patch patch (task_at 100 1 10 gap) ≡ task_at 100 1 10 gap)
plan_task_update-nil_iff_example =
    plan_task_update-nil_iff no_dates (task_at 100 1 10 gap) new_title patch
      (TaskChange.title "Paint the gate" ∷ []) plan_run

-- Task 200 stands on a board of workspace 8.
task_200-IsOutside : All (IsOutside office 7 200) office.tasks
task_200-IsOutside = (
  (λ e. absurd (omega arith)),
  (
    (λ e. absurd (omega arith)),
    (
      (λ e. absurd (omega arith)),
      ((λ e. ((λ b w. omega arith), ((λ b w. omega arith), ((λ b w. omega arith), tt)))), tt),
    ),
  ),
)

missing_task_example :
    (find_task office 7 200 ≡ err (not_found "Task not found"))
    × (update no_dates office 7 200 5 new_title ≡ err (not_found "Task not found"))
    × (remove office 7 200 5 ≡ err (not_found "Task not found"))
    × (move grid sorted office 7 200 5 between ≡ err (not_found "Task not found"))
missing_task_example =
    missing_task grid sorted no_dates office 7 200 5 new_title between task_200-IsOutside

abbrev removed : Store ℕ
removed = record office {
  tasks = task_at 101 1 10 (gap + 1) ∷ task_at 102 1 11 gap ∷ task_at 200 2 20 gap ∷ [];
  activities =
      record {
        workspace_id = 7;
        task_id = none;
        user_id = 5;
        activity = Activity.task_deleted 100 "Fix the gate" 10 1;
      }
      ∷ [];
  emitted =
      record { board_id = 1; workspace_id = 7; actor_id = 5; event = BoardEvent.task_deleted 100 }
      ∷ [];
}

remove_run : remove office 7 100 5 ≡ ok removed
unfolding remove find_task
remove_run = refl

remove_lem_example :
    ((c : ℕ) → tasks_in c removed.tasks ≡ without 100 (tasks_in c office.tasks))
    × (foreign_tasks office 7 removed.tasks ≡ foreign_tasks office 7 office.tasks)
    × (remove removed 7 100 6 ≡ err (not_found "Task not found"))
remove_lem_example = remove_lem office 7 100 5 6 removed remove_run (ground arith)
