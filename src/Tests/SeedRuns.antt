-- ===== src/Tests/SeedRuns.antt =====
-- The default columns, given to a board without columns.
use kurultay.Base.{ℕ, ◌+◌, ◌*◌, ◌≡◌, refl, none, List, [], ◌∷◌, arith, map, ok, err, conflict, true}
use kurultay.Ordering.Chain.{IsOrdered}
use kurultay.Store.{
  Column, Activity, BoardEvent, Store, unstarted, started, completed, assert_board,
}
use kurultay.Columns.{columns_in, create_defaults, default_columns_for, to_dto, en}
use kurultay.Columns.Seed.{columns_of, three_columns, create_defaults_lem}
use kurultay.Tests.Grid.{grid}
use kurultay.Tests.Boards.{gap, office, to_do, doing}

-- The third board has no columns.
abbrev seeds : List (Column ℕ)
seeds =
    record {
      id = 30;
      board_id = 3;
      name = "To Do";
      position = gap;
      color = none;
      category = unstarted;
    }
    ∷ record {
      id = 31;
      board_id = 3;
      name = "In Progress";
      position = 2 * gap;
      color = none;
      category = started;
    }
    ∷ record {
      id = 32;
      board_id = 3;
      name = "Done";
      position = 3 * gap;
      color = none;
      category = completed;
    }
    ∷ []

abbrev seeded : Store ℕ
seeded = record office {
  columns =
      doing
      ∷ to_do
      ∷ record {
        id = 20;
        board_id = 2;
        name = "Beds";
        position = gap;
        color = none;
        category = unstarted;
      }
      ∷ seeds;
  activities =
      map
        (λ c. record {
          workspace_id = 7;
          task_id = none;
          user_id = 5;
          activity = Activity.column_created c.id 3 c.name c.category true;
        })
        seeds;
  emitted =
      map
        (λ c. record {
          board_id = 3;
          workspace_id = 7;
          actor_id = 5;
          event = BoardEvent.column_changed c.id;
        })
        seeds;
}

seed_run :
    create_defaults grid office (λ i. 30 + i) 7 3 5 en ≡ ok (map (to_dto office) seeds, seeded)
unfolding create_defaults assert_board default_columns_for
seed_run = refl

create_defaults_lem_example :
    (columns_of grid 3 office.columns ≡ [])
    × (map (λ d. d.column) (map (to_dto office) seeds) ≡ columns_of grid 3 seeded.columns)
    × (columns_of grid 3 seeded.columns ≡ three_columns grid (λ i. 30 + i) 3 en)
    × IsOrdered grid (columns_in 3 seeded.columns)
    × (create_defaults grid seeded (λ i. 30 + i) 7 3 5 en
        ≡ err (conflict "Board already has columns"))
create_defaults_lem_example =
    create_defaults_lem grid office (λ i. 30 + i) 7 3 5 en (map (to_dto office) seeds) seeded
      seed_run (omega arith)
