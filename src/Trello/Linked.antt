-- ===== src/Trello/Linked.antt =====
-- The whole plan of the cards is sound.
use kurultay.Base.{
  ℕ, suc, ◌+◌, ◌≡◌, inl, inr, Bool, true, some, String, List, [], ◌∷◌, map_from, arith, All, length,
  any_of, ◌==◌, ==_refl, Option-cases,
}
use kurultay.Integrity.Keys.{All-append, All-weaken}
use kurultay.Ordering.Number.{Number}
use kurultay.Skips.{Skip}
use kurultay.Trello.{
  TrelloLabel, TrelloExport, TrelloChecklist, PlanColumn, PlanLabel, PlanTask, Runtime, lookup_last,
}
use kurultay.Trello.Lists.{
  ordered_lists, plan_columns, plan_labels, label_ids, label_name, trello_color_to_slot,
}
use kurultay.Trello.Checks.{
  CheckDraft, usable_items, plan_item, add_checklist, add_checklists, add_tasks, checklists_of,
}
use kurultay.Trello.Cards.{Fate, empty_draft}
use kurultay.Trello.Planner.{TrelloImportPlan, plan_cards, plan_checklists, plan_trello_import}
use kurultay.Trello.Sound.{
  AreOnce, any_of-append, any_of-last, IsSoundDraft, add_columns-IsSoundDraft,
}

abbrev pub has_column_id : {Num : Type 0} → List (PlanColumn Num) → ℕ → Bool
has_column_id columns i = any_of (λ c. c.id == i) columns

abbrev pub has_label_id : List PlanLabel → ℕ → Bool
has_label_id labels i = any_of (λ l. l.id == i) labels

module _ (n : Number) (r : Runtime) where
  each_column :
      (columns : List (PlanColumn n.Num)) → All (λ c. has_column_id columns c.id ≡ true) columns
  each_column [] = tt
  each_column (x ∷ columns) = (
    ground (arith, ==_refl x.id),
    All-weaken (λ (c : PlanColumn n.Num). has_column_id columns c.id ≡ true) _ columns
        (λ c k. ground (arith, k)) (each_column columns),
  )

  label_ids-known :
      (b next i : ℕ) (labels : List TrelloLabel) (key : String) (k : ℕ)
      → lookup_last key (map_from i (λ index (l : TrelloLabel). (l.id, next + index)) labels)
        ≡ some k
      → has_label_id
          (map_from i
            (λ index l. record {
              id = next + index;
              board_id = b;
              name = label_name r l;
              color = (trello_color_to_slot r l.color).slot;
            })
            labels)
          k
        ≡ true
  label_ids-known b next i [] key k e = cc
  label_ids-known b next i (l ∷ labels) key k e =
      elim (Option-cases (
        lookup_last key
          (map_from (suc i) (λ index (l : TrelloLabel). (l.id, next + index)) labels))) [
            | inl missing ↦ ground arith
            | inr (j, found) ↦ ground (arith, label_ids-known b next (suc i) labels key j found)
          ]

  -- The items of a checklist hang on it.
  All-map_from :
      {A B : Type 0} (P : B → Type 0) (i : ℕ) (f : ℕ → A → B) (xs : List A)
      → ((j : ℕ) (x : A) → P (f j x))
      → All P (map_from i f xs)
  All-map_from P i f [] h = tt
  All-map_from P i f (x ∷ xs) h = (h i x, All-map_from P (suc i) f xs h)

  record IsSoundChecks (is_task : ℕ → Bool) (d : CheckDraft n r) : Type 0 where
    lists_sound : All (λ c. is_task c.task_id ≡ true) d.checklists
    items_sound : All (λ i. any_of (λ c. c.id == i.checklist_id) d.checklists ≡ true) d.items

  module _ (is_task : ℕ → Bool) where
    add_checklist-IsSoundChecks :
        (t count index : ℕ) (c : TrelloChecklist n.Num) (d : CheckDraft n r)
        → is_task t ≡ true
        → IsSoundChecks is_task d
        → IsSoundChecks is_task (add_checklist n r t count index c d)
    unfolding add_checklist
    add_checklist-IsSoundChecks t count index c d e h = record {
      lists_sound = All-append _ d.checklists _ h.lists_sound (e, tt);
      items_sound =
          All-append _ d.items _
            (All-weaken _ _ d.items
              (λ i k. any_of-append (λ x. x.id == i.checklist_id) d.checklists _ k) h.items_sound)
            (All-map_from _ 0 (plan_item n r d.next (d.next + 1) (length (usable_items n r c)))
              (usable_items n r c)
              (λ j i. any_of-last (λ x. x.id == d.next) d.checklists _ (==_refl d.next)));
    }

    add_checklists-IsSoundChecks :
        (t count index : ℕ) (cs : List (TrelloChecklist n.Num)) (d : CheckDraft n r)
        → is_task t ≡ true
        → IsSoundChecks is_task d
        → IsSoundChecks is_task (add_checklists n r t count index cs d)
    unfolding add_checklists
    add_checklists-IsSoundChecks t count index [] d e h = h
    add_checklists-IsSoundChecks t count index (c ∷ cs) d e h =
        add_checklists-IsSoundChecks t count (suc index) cs _ e
          (add_checklist-IsSoundChecks t count index c d e h)

    add_tasks-IsSoundChecks :
        (fate : TrelloChecklist n.Num → Fate) (cs : List (TrelloChecklist n.Num))
        (ts : List (PlanTask n.Num)) (d : CheckDraft n r)
        → All (λ t. is_task t.id ≡ true) ts
        → IsSoundChecks is_task d
        → IsSoundChecks is_task (add_tasks n r fate cs ts d)
    unfolding add_tasks
    add_tasks-IsSoundChecks fate cs [] d e h = h
    add_tasks-IsSoundChecks fate cs (t ∷ ts) d e h =
        add_tasks-IsSoundChecks fate cs ts _ e.1
          (add_checklists-IsSoundChecks t.id _ 0 (checklists_of n r fate t.id cs) d e.0 h)

  each_task : (ts : List (PlanTask n.Num)) → All (λ t. any_of (λ x. x.id == t.id) ts ≡ true) ts
  each_task [] = tt
  each_task (x ∷ ts) = (
    ground (arith, ==_refl x.id),
    All-weaken (λ (t : PlanTask n.Num). any_of (λ x. x.id == t.id) ts ≡ true) _ ts
        (λ t k. ground (arith, k)) (each_task ts),
  )

  -- Every row of the plan refers to rows that the plan has, and a label is once on a task.
  pub record IsSoundPlan (plan : TrelloImportPlan n) : Type 0 where
    pub tasks_sound : All (λ t. has_column_id plan.columns t.column_id ≡ true) plan.tasks
    pub task_labels_sound :
        All
          (λ x.
            (any_of (λ t. t.id == x.task_id) plan.tasks ≡ true)
            × (has_label_id plan.labels x.label_id ≡ true))
          plan.task_labels
    pub attachments_sound :
        All (λ x. any_of (λ t. t.id == x.task_id) plan.tasks ≡ true) plan.attachments
    pub checklists_sound :
        All (λ c. any_of (λ t. t.id == c.task_id) plan.tasks ≡ true) plan.checklists
    pub items_sound :
        All (λ i. any_of (λ c. c.id == i.checklist_id) plan.checklists ≡ true) plan.checklist_items
    pub task_labels_once : AreOnce plan.task_labels

  module _ (actor_id : ℕ) where
    plan_cards-IsSoundDraft :
        (source : TrelloExport n.Num)
        → IsSoundDraft n r
            (has_column_id (plan_columns n r 0 1 (ordered_lists n r source.lists)))
            (has_label_id
              (plan_labels r 0 (1 + length (ordered_lists n r source.lists)) source.labels))
            (plan_cards n r actor_id source)
    unfolding plan_cards plan_labels label_ids
    plan_cards-IsSoundDraft source =
        let ordered = ordered_lists n r source.lists in
        let first_label = 1 + length ordered in
        let columns = plan_columns n r 0 1 ordered in
        add_columns-IsSoundDraft n r (has_column_id columns)
          (has_label_id (plan_labels r 0 first_label source.labels))
          (label_ids r first_label source.labels)
          (λ key k e. label_ids-known 0 first_label 0 source.labels key k e) 0 actor_id _
          source.cards columns (empty_draft n r (first_label + length source.labels))
          (each_column columns)
          (record {
            tasks_sound = tt;
            labels_sound = tt;
            links_sound = tt;
            labels_below = tt;
            labels_once = tt;
          })

    -- Whatever the export holds, each task of the plan is in a planned column, each label on a task
    -- is a planned label on a planned task, no label is on a task twice, each link and each
    -- checklist is on a planned task, and each item on a planned checklist.
    pub plan_trello_import-IsSoundPlan :
        (issues : List Skip) (source : TrelloExport n.Num)
        → IsSoundPlan (plan_trello_import n r actor_id issues source)
    unfolding plan_trello_import plan_checklists
    plan_trello_import-IsSoundPlan issues source =
        let drafted = plan_cards n r actor_id source in
        let sound = plan_cards-IsSoundDraft source in
        let checks =
          add_tasks-IsSoundChecks (λ i. any_of (λ t. t.id == i) drafted.tasks) _ source.checklists
            drafted.tasks (record { next = drafted.next; checklists = []; items = []; skips = [] })
            (each_task drafted.tasks) (record { lists_sound = tt; items_sound = tt }) in
        record {
          tasks_sound = sound.tasks_sound;
          task_labels_sound = sound.labels_sound;
          attachments_sound = sound.links_sound;
          checklists_sound = checks.lists_sound;
          items_sound = checks.items_sound;
          task_labels_once = sound.labels_once;
        }
