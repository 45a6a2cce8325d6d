-- ===== src/Tests/BoardRuns.antt =====
-- The board service, run on the two boards.
use kurultay.Base.{ℕ, ◌≡◌, ◌≢◌, refl, none, [], ◌∷◌, ok, err, not_found}
use kurultay.Store.{Column, Task, Activity, Store, assert_board}
use kurultay.Boards.{remove}
use kurultay.Boards.Remove.{rows_on, remove_board_lem}
use kurultay.Tests.Boards.{gap, task_at, to_do, doing, office}

-- The garden's board goes, with its column and its task.
abbrev cleared : Store ℕ
cleared = record office {
  boards =
      record { id = 1; workspace_id = 7; name = "Office"; description = none }
      ∷ record { id = 3; workspace_id = 7; name = "Empty"; description = none }
      ∷ [];
  columns = doing ∷ to_do ∷ [];
  tasks = task_at 101 1 10 2000000001 ∷ task_at 100 1 10 gap ∷ task_at 102 1 11 gap ∷ [];
  activities =
      record {
        workspace_id = 8;
        task_id = none;
        user_id = 6;
        activity = Activity.board_deleted 2 "Garden" 1;
      }
      ∷ [];
}

remove_run : remove office 8 2 6 ≡ ok cleared
unfolding remove assert_board
remove_run = refl

remove_board_lem_example :
    (rows_on (λ (c : Column ℕ). c.board_id) 2 cleared.columns ≡ [])
    × (rows_on (λ (t : Task ℕ). t.board_id) 2 cleared.tasks ≡ [])
    × ((d : ℕ)
        → d ≢ 2
        → (rows_on (λ (c : Column ℕ). c.board_id) d cleared.columns
            ≡ rows_on (λ (c : Column ℕ). c.board_id) d office.columns)
          × (rows_on (λ (t : Task ℕ). t.board_id) d cleared.tasks
              ≡ rows_on (λ (t : Task ℕ). t.board_id) d office.tasks))
    × (remove cleared 8 2 5 ≡ err (not_found "Board not found"))
remove_board_lem_example = remove_board_lem office 8 2 6 5 cleared remove_run
