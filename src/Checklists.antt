-- ===== src/Checklists.antt =====
-- task/checklist.service.ts: the checklists of a task.
pub mod Create
pub mod Move
use kurultay.Base.{
  ℕ, zero, suc, ◌+◌, ◌≡◌, ◌≢◌, ◌&&◌, not, Bool, true, false, Option, none, some, String, List, [],
  ◌∷◌, ◌++◌, Perm, length, get_elem?, keep_if, any_of, All, ◌==◌, if◌then◌else◌, not_found, Result,
  ok, err, ◌>>=◌, ◌>>◌, throw_if, or_throw,
}
use kurultay.Ordering.Number.{Number}
use kurultay.Ordering.Fractional.{midpoint}
use kurultay.Ordering.Slots.{Sibling, item_before, find_index}
use kurultay.Ordering.Tables.{rows_in, without, update_where}
use kurultay.Ordering.Placement.{pos_of}
use kurultay.Store.{Task, BoardEvent, Store, in_workspace, emit_to_board}
use kurultay.Tasks.{find_task, is_task_of}

pub record Checklist (Num : Type 0) : Type 0 where
  pub id : ℕ
  pub task_id : ℕ
  pub title : String
  pub position : Num

-- The boards' store, and the checklists beside it.
pub record Checked (Num : Type 0) : Type 0 where
  pub store : Store Num
  pub checklists : List (Checklist Num)

-- The database's `orderBy: { position: 'asc' }`, which leaves equal positions in any order, and
-- the first row by `orderBy: { position: 'desc' }`.
pub record PositionReads (n : Number) : Type 1 where
  pub order_by_position : List (Sibling n.Num) → List (Sibling n.Num)
  pub order_by_position-perm : (xs : List (Sibling n.Num)) → Perm xs (order_by_position xs)
  pub highest : List (Sibling n.Num) → Option (Sibling n.Num)
  pub highest_none : (xs : List (Sibling n.Num)) → highest xs ≡ none → xs ≡ []
  pub highest_some :
      (xs : List (Sibling n.Num)) (s : Sibling n.Num)
      → highest xs ≡ some s
      → All (λ x. n.lt s.position x.position ≡ false) xs
  pub highest_one_of :
      (xs : List (Sibling n.Num)) (s : Sibling n.Num)
      → highest xs ≡ some s
      → (P : Sibling n.Num → Type 0) → All P xs
      → P s

abbrev pub checklist_sibling : {Num : Type 0} → Checklist Num → Sibling Num
checklist_sibling c = record { id = c.id; position = c.position }

module _ {Num : Type 0} where
  abbrev pub checklists_in : ℕ → List (Checklist Num) → List (Sibling Num)
  checklists_in = rows_in (λ c. c.task_id) checklist_sibling

  -- `where: { id, taskId, task: { board: { workspaceId } } }`
  abbrev pub is_checklist_of :
      Checked Num → (workspace_id task_id checklist_id : ℕ) → Checklist Num → Bool
  is_checklist_of s workspace_id task_id checklist_id c =
      c.id == checklist_id
      && c.task_id == task_id
      && any_of (is_task_of s.store workspace_id task_id) s.store.tasks

  -- `TaskEventsService.emitUpdated`, which reads the task again.
  unfoldable pub emit_updated :
      Checked Num → (workspace_id task_id actor_id : ℕ) → Result (Task Num × Checked Num)
  emit_updated s workspace_id task_id actor_id = do
    task ← find_task s.store workspace_id task_id
    ok (
      task,
      record s {
        store = emit_to_board s.store (record {
          board_id = task.board_id;
          workspace_id = workspace_id;
          actor_id = actor_id;
          event = BoardEvent.task_updated task.id;
        });
      },
    )

  unfoldable pub update :
      Checked Num
      → (workspace_id task_id actor_id checklist_id : ℕ) → (title : String)
      → Result (Task Num × Checked Num)
  update s workspace_id task_id actor_id checklist_id title = do
    task ← find_task s.store workspace_id task_id
    throw_if (not (any_of (is_checklist_of s workspace_id task_id checklist_id) s.checklists))
        (not_found "Checklist not found")
    emit_updated
        (record s {
          checklists =
              update_where (is_checklist_of s workspace_id task_id checklist_id)
                (λ c. record c { title = title }) s.checklists;
        })
        workspace_id task_id actor_id

  unfoldable pub remove :
      Checked Num
      → (workspace_id task_id actor_id checklist_id : ℕ) → Result (Task Num × Checked Num)
  remove s workspace_id task_id actor_id checklist_id = do
    task ← find_task s.store workspace_id task_id
    throw_if (not (any_of (is_checklist_of s workspace_id task_id checklist_id) s.checklists))
        (not_found "Checklist not found")
    emit_updated
        (record s {
          checklists =
              keep_if (λ c. not (is_checklist_of s workspace_id task_id checklist_id c))
                s.checklists;
        })
        workspace_id task_id actor_id

module _ (n : Number) (reads : PositionReads n) where
  -- `(siblings[0]?.position ?? 0) + POSITION_GAP`
  unfoldable pub end_position : List (Sibling n.Num) → n.Num
  end_position siblings = elim (reads.highest siblings) [
    | none ↦ n.gap_times 1
    | some last ↦ n.add_gap last.position
  ]

  unfoldable pub create :
      Checked n.Num
      → (new_id workspace_id task_id actor_id : ℕ) → (title : String)
      → Result (Task n.Num × Checked n.Num)
  create s new_id workspace_id task_id actor_id title = do
    task ← find_task s.store workspace_id task_id
    emit_updated
        (record s {
          checklists =
              s.checklists
              ++ record {
                id = new_id;
                task_id = task.id;
                title = title;
                position = end_position (checklists_in task.id s.checklists);
              }
                ∷ [];
        })
        workspace_id task_id actor_id

  -- `afterIndex + 1`, or 404 where the named checklist is not among the others.
  unfoldable pub index_after : Option ℕ → List (Sibling n.Num) → Result ℕ
  index_after none others = ok 0
  index_after (some after_id) others = elim (find_index after_id others) [
    | none ↦ err (not_found "Checklist not found")
    | some i ↦ ok (i + 1)
  ]

  unfoldable pub move :
      Checked n.Num
      → (workspace_id task_id actor_id checklist_id : ℕ) → (after_id : Option ℕ)
      → Result (Task n.Num × Checked n.Num)
  move s workspace_id task_id actor_id checklist_id after_id = do
    task ← find_task s.store workspace_id task_id
    let siblings = reads.order_by_position (checklists_in task_id s.checklists)
    throw_if (not (any_of (λ row. row.id == checklist_id) siblings))
        (not_found "Checklist not found")
    let others = keep_if (λ row. not (row.id == checklist_id)) siblings
    i ← index_after after_id others
    let position = midpoint n (pos_of (item_before others i)) (pos_of (get_elem? others i))
    emit_updated
        (record s {
          checklists =
              update_where (λ c. c.id == checklist_id) (λ c. record c { position = position })
                s.checklists;
        })
        workspace_id task_id actor_id
