-- ===== src/Tasks/Fields/Laws.antt =====
-- When a PATCH counts as an edit.
use text.Mathlib.TextEquality.{eq_iff}
use kurultay.Base.{
  ℕ, ◌≡◌, refl, ap, subst, ◌↔◌, inl, inr, Bool, true, Option, none, some, String, List, [], ◌∷◌,
  ◌++◌, arith, ◌==◌, ==_iff, str_eq, Bool-cases, ok, >>=-eq-ok, ok-injective,
}
use kurultay.Store.{Priority, Task, TaskChange}
use kurultay.Tasks.{apply_patch, existing_of}
use kurultay.Tasks.Fields.{
  Field, undefined, value, or_else, option_eq, priority_eq, UpdateTaskDto, TaskPatch,
  parse_due_date, change_of, plan_task_update,
}

option_eq_iff {ℓ} :
    {A : Type ℓ} (eq : A → A → Bool)
    → ((a b : A) → (eq a b ≡ true) ↔ (a ≡ b))
    → (a b : Option A) → (option_eq eq a b ≡ true) ↔ (a ≡ b)
option_eq_iff eq h none none = (λ e. refl, λ e. refl)
option_eq_iff eq h none (some b) = (λ e. cc, λ e. cc)
option_eq_iff eq h (some a) none = (λ e. cc, λ e. cc)
option_eq_iff eq h (some a) (some b) = (λ e. ap some ((h a b).0 e), λ e. (h a b).1 (cc))

priority_eq_iff : (a b : Priority) → (priority_eq a b ≡ true) ↔ (a ≡ b)
priority_eq_iff a b = ground arith

nil_append_iff {ℓ} : {A : Type ℓ} (xs ys : List A) → (xs ++ ys ≡ []) ↔ ((xs ≡ []) × (ys ≡ []))
nil_append_iff [] ys = (λ e. (refl, e), λ h. h.1)
nil_append_iff (x ∷ xs) ys = (λ e. cc, λ h. cc (h.0))

change_of-nil_iff {ℓ} :
    {A : Type ℓ} (f : Field A) (same : A → Bool) (change : A → TaskChange) (current : A)
    → ((a : A) → (same a ≡ true) ↔ (a ≡ current))
    → (change_of f same change ≡ []) ↔ (or_else f current ≡ current)
change_of-nil_iff undefined same change current h = (λ e. refl, λ e. refl)
change_of-nil_iff (value a) same change current h = elim (Bool-cases (same a)) [
  | inl stays ↦ (λ e. (h a).0 stays, λ e. rw stays)
  | inr differs ↦ (λ e. cc (rw differs at e), λ e. cc ((h a).1 e))
]

module _ (parse : String → Option ℕ) where
  -- A PATCH has no changes exactly when writing it would leave the stored task as it is: no edit
  -- is lost, and none is made up.
  pub plan_task_update-nil_iff :
      {Num : Type 0} (t : Task Num) (dto : UpdateTaskDto) (patch : TaskPatch)
      (changes : List TaskChange)
      → plan_task_update parse (existing_of t) dto ≡ ok (patch, changes)
      → (changes ≡ []) ↔ (apply_patch patch t ≡ t)
  unfolding plan_task_update
  plan_task_update-nil_iff t dto patch changes e =
      let (due, e1, e2) = >>=-eq-ok (parse_due_date parse dto.due_date) _ e in
      subst (λ (q : TaskPatch × List TaskChange). (q.1 ≡ []) ↔ (apply_patch q.0 t ≡ t))
        (ok-injective e2)
        (
          λ none_made.
              let (a, later) = (nil_append_iff _ _).0 none_made in
              let (b, later') = (nil_append_iff _ _).0 later in
              let (c, later'') = (nil_append_iff _ _).0 later' in
              let (d, f) = (nil_append_iff _ _).0 later'' in
              λ k. record t {
                title = title_iff.0 a k;
                description = description_iff.0 b k;
                priority = priority_iff.0 c k;
                due_date = (due_iff due).0 d k;
                estimated_minutes = minutes_iff.0 f k;
              },
          λ same. (nil_append_iff _ _).1 (
            title_iff.1 (ap (λ x. x.title) same),
            (nil_append_iff _ _).1 (
              description_iff.1 (ap (λ x. x.description) same),
              (nil_append_iff _ _).1 (
                priority_iff.1 (ap (λ x. x.priority) same),
                (nil_append_iff _ _).1 (
                  (due_iff due).1 (ap (λ x. x.due_date) same),
                  minutes_iff.1 (ap (λ x. x.estimated_minutes) same),
                ),
              ),
            ),
          ),
        )
    where
      title_iff :
          (change_of dto.title (λ a. str_eq a t.title) TaskChange.title ≡ [])
          ↔ (or_else dto.title t.title ≡ t.title)
      title_iff = change_of-nil_iff dto.title _ TaskChange.title t.title (λ a. eq_iff a t.title)

      description_iff :
          (change_of dto.description (λ a. option_eq str_eq a t.description) TaskChange.description
            ≡ [])
          ↔ (or_else dto.description t.description ≡ t.description)
      description_iff =
          change_of-nil_iff dto.description _ TaskChange.description t.description
            (λ a. option_eq_iff str_eq eq_iff a t.description)

      priority_iff :
          (change_of dto.priority (λ a. priority_eq a t.priority) TaskChange.priority ≡ [])
          ↔ (or_else dto.priority t.priority ≡ t.priority)
      priority_iff =
          change_of-nil_iff dto.priority _ TaskChange.priority t.priority
            (λ a. priority_eq_iff a t.priority)

      due_iff :
          (due : Field (Option ℕ))
          → (change_of due (λ a. option_eq ◌==◌ a t.due_date) TaskChange.due_date ≡ [])
            ↔ (or_else due t.due_date ≡ t.due_date)
      due_iff due =
          change_of-nil_iff due _ TaskChange.due_date t.due_date
            (λ a. option_eq_iff ◌==◌ ==_iff a t.due_date)

      minutes_iff :
          (change_of dto.estimated_minutes
              (λ a. option_eq ◌==◌ a t.estimated_minutes)
              TaskChange.estimated_minutes
            ≡ [])
          ↔ (or_else dto.estimated_minutes t.estimated_minutes ≡ t.estimated_minutes)
      minutes_iff =
          change_of-nil_iff dto.estimated_minutes _ TaskChange.estimated_minutes t.estimated_minutes
            (λ a. option_eq_iff ◌==◌ ==_iff a t.estimated_minutes)
