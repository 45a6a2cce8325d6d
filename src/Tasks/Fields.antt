-- ===== src/Tasks/Fields.antt =====
-- task-fields.ts: what a task is created with, and what a PATCH writes and changes.
pub mod Laws
use kurultay.Base.{
  ℕ, ◌≡◌, Bool, true, false, not, Option, none, some, String, List, [], ◌∷◌, ◌++◌, ◌==◌, str_eq,
  if◌then◌else◌, bad_request, Result, ok, err, ◌>>=◌,
}
use kurultay.Store.{Priority, low, medium, high, urgent, TaskChange}

-- A request field that may be left out; one that may also be null holds an `Option`.
pub data Field {ℓ} (A : Type ℓ) : Type ℓ where
  undefined : Field A
  value : A → Field A

-- `field ?? null`
abbrev pub or_null {ℓ} : {A : Type ℓ} → Field (Option A) → Option A
or_null undefined = none
or_null (value a) = a

abbrev pub or_else {ℓ} : {A : Type ℓ} → Field A → A → A
or_else undefined d = d
or_else (value a) d = a

abbrev pub option_eq {ℓ} : {A : Type ℓ} → (A → A → Bool) → Option A → Option A → Bool
option_eq eq none none = true
option_eq eq (some a) (some b) = eq a b
option_eq eq _ _ = false

abbrev pub priority_eq : Priority → Priority → Bool
priority_eq low low = true
priority_eq medium medium = true
priority_eq high high = true
priority_eq urgent urgent = true
priority_eq _ _ = false

pub record CreateTaskDto : Type 0 where
  pub column_id : ℕ
  pub title : String
  pub description : Field (Option String)
  pub priority : Field Priority
  pub due_date : Field (Option String)
  pub estimated_minutes : Field (Option ℕ)
  pub after_task_id : Option ℕ

pub record UpdateTaskDto : Type 0 where
  pub title : Field String
  pub description : Field (Option String)
  pub priority : Field Priority
  pub due_date : Field (Option String)
  pub estimated_minutes : Field (Option ℕ)

pub record TaskAttributes : Type 0 where
  pub title : String
  pub description : Option String
  pub priority : Field Priority
  pub due_date : Option ℕ
  pub estimated_minutes : Option ℕ

pub record TaskPatch : Type 0 where
  pub title : Field String
  pub description : Field (Option String)
  pub priority : Field Priority
  pub due_date : Field (Option ℕ)
  pub estimated_minutes : Field (Option ℕ)

pub record ExistingTask : Type 0 where
  pub title : String
  pub description : Option String
  pub priority : Priority
  pub due_date : Option ℕ
  pub estimated_minutes : Option ℕ

-- The change that a field makes, if it was sent and differs from what is stored.
abbrev pub change_of {ℓ} : {A : Type ℓ} → Field A → (A → Bool) → (A → TaskChange) → List TaskChange
change_of undefined same change = []
change_of (value a) same change = if same a then [] else change a ∷ []

-- `parse` is `new Date(value).getTime()`, `none` for NaN.
module _ (parse : String → Option ℕ) where
  unfoldable pub parse_due_date : Field (Option String) → Result (Field (Option ℕ))
  parse_due_date undefined = ok undefined
  parse_due_date (value none) = ok (value none)
  parse_due_date (value (some text)) = elim (parse text) [
    | none ↦ err (bad_request "dueDate must be a valid ISO 8601 timestamp")
    | some due ↦ ok (value (some due))
  ]

  unfoldable pub create_task_attributes : CreateTaskDto → Result TaskAttributes
  create_task_attributes dto = do
    due_date ← parse_due_date dto.due_date
    ok (record {
      title = dto.title;
      description = or_null dto.description;
      priority = dto.priority;
      due_date = or_null due_date;
      estimated_minutes = or_null dto.estimated_minutes;
    })

  unfoldable pub plan_task_update :
      ExistingTask → UpdateTaskDto → Result (TaskPatch × List TaskChange)
  plan_task_update existing dto = do
    due_date ← parse_due_date dto.due_date
    ok (
      record {
        title = dto.title;
        description = dto.description;
        priority = dto.priority;
        due_date = due_date;
        estimated_minutes = dto.estimated_minutes;
      },
      change_of dto.title (λ a. str_eq a existing.title) TaskChange.title
          ++ (change_of dto.description (λ a. option_eq str_eq a existing.description)
                TaskChange.description
              ++ (change_of dto.priority (λ a. priority_eq a existing.priority) TaskChange.priority
                  ++ (change_of due_date (λ a. option_eq ◌==◌ a existing.due_date)
                        TaskChange.due_date
                      ++ change_of dto.estimated_minutes
                          (λ a. option_eq ◌==◌ a existing.estimated_minutes)
                          TaskChange.estimated_minutes))),
    )
