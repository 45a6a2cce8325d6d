-- ===== src/Tests/Boards.antt =====
-- Two boards of two workspaces, whose first column has a gap that has run out.
use kurultay.Base.{ℕ, ◌+◌, Option, none, some, String, [], ◌∷◌}
use kurultay.Store.{Column, Task, Store, high, ColumnCategory, unstarted, started}
use kurultay.Tasks.Fields.{undefined, value, CreateTaskDto, UpdateTaskDto}
use kurultay.Tasks.{MoveTaskDto}

abbrev pub gap : ℕ
gap = 2000000000

abbrev column_at : ℕ → ℕ → String → ℕ → ColumnCategory → Column ℕ
column_at id board_id name position category = record {
  id = id;
  board_id = board_id;
  name = name;
  position = position;
  color = none;
  category = category;
}

abbrev pub task_at : ℕ → ℕ → ℕ → ℕ → Task ℕ
task_at id board_id column_id position = record {
  id = id;
  board_id = board_id;
  column_id = column_id;
  title = "Fix the gate";
  description = none;
  priority = high;
  position = position;
  due_date = none;
  estimated_minutes = some 30;
  created_by_id = 5;
}

abbrev pub to_do : Column ℕ
to_do = column_at 10 1 "To Do" gap unstarted

abbrev pub doing : Column ℕ
doing = column_at 11 1 "In Progress" (gap + gap) started

abbrev pub office : Store ℕ
office = record {
  boards =
      record { id = 1; workspace_id = 7; name = "Office"; description = none }
      ∷ record { id = 2; workspace_id = 8; name = "Garden"; description = none }
      ∷ record { id = 3; workspace_id = 7; name = "Empty"; description = none }
      ∷ [];
  columns = doing ∷ to_do ∷ column_at 20 2 "Beds" gap unstarted ∷ [];
  tasks =
      task_at 101 1 10 (gap + 1)
      ∷ task_at 100 1 10 gap
      ∷ task_at 102 1 11 gap
      ∷ task_at 200 2 20 gap
      ∷ [];
  activities = [];
  emitted = [];
}

-- No text is a date here.
abbrev pub no_dates : String → Option ℕ
no_dates text = none

-- Behind task 100 in the first column.
abbrev pub behind_first : CreateTaskDto
behind_first = record {
  title = "Oil the hinges";
  column_id = 10;
  description = undefined;
  priority = undefined;
  due_date = undefined;
  estimated_minutes = undefined;
  after_task_id = some 100;
}

abbrev pub new_title : UpdateTaskDto
new_title = record {
  title = value "Paint the gate";
  description = undefined;
  priority = value high;
  due_date = undefined;
  estimated_minutes = undefined;
}

-- Into the gap that has run out.
abbrev pub between : MoveTaskDto
between = record { column_id = 10; before_task_id = some 100; after_task_id = some 101 }
