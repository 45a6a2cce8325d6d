-- ===== src/Trello/Planner.antt =====
-- `planTrelloImport`: the whole plan of an export, and the report of what it leaves behind.
use kurultay.Base.{ℕ, ◌+◌, Option, String, List, [], ◌∷◌, ◌++◌, length, if◌then◌else◌}
use kurultay.Ordering.Number.{Number}
use kurultay.Skips.{
  SkipScope, SkipReason, SkipGroup, unmappable, out_of_scope, Skip, to_report, collect,
}
use kurultay.Trello.{
  TrelloExport, PlanColumn, PlanLabel, PlanTask, PlanTaskLabel, PlanAttachment, PlanChecklist,
  PlanItem, Runtime, is_unnamed, empty_to_null,
}
use kurultay.Trello.Lists.{
  ordered_lists, archived_list_ids, list_skips, plan_columns, column_ids, column_skip, plan_labels,
  label_ids, label_skips,
}
use kurultay.Trello.Cards.{
  card_fate, card_skips, skipped_card_reasons, Draft, empty_draft, add_columns,
}
use kurultay.Trello.Checks.{checklist_fate, checklist_skips, CheckDraft, add_tasks}

-- The counts of the report's imported half, too.
pub record ImportedCounts : Type 0 where
  pub columns : ℕ
  pub tasks : ℕ
  pub labels : ℕ
  pub checklists : ℕ
  pub checklist_items : ℕ
  pub attachments : ℕ

module _ (n : Number) where
  pub record TrelloImportPlan : Type 0 where
    pub board_id : ℕ
    pub board_name : String
    pub board_description : Option String
    pub columns : List (PlanColumn n.Num)
    pub labels : List PlanLabel
    pub tasks : List (PlanTask n.Num)
    pub task_labels : List PlanTaskLabel
    pub checklists : List (PlanChecklist n.Num)
    pub checklist_items : List (PlanItem n.Num)
    pub attachments : List PlanAttachment
    pub skipped : List SkipGroup

  unfoldable pub imported_counts : TrelloImportPlan → ImportedCounts
  imported_counts plan = record {
    columns = length plan.columns;
    tasks = length plan.tasks;
    labels = length plan.labels;
    checklists = length plan.checklists;
    checklist_items = length plan.checklist_items;
    attachments = length plan.attachments;
  }

  module _ (r : Runtime) (actor_id : ℕ) where
    -- `uuidv7` made 0 for the board; columns, labels, and the rows of the cards follow.
    unfoldable pub plan_cards : TrelloExport n.Num → Draft n r
    unfolding ordered_lists plan_columns column_ids label_ids card_fate add_columns
    plan_cards source =
        let ordered = ordered_lists n r source.lists in
        let first_label = 1 + length ordered in
        add_columns n r 0 actor_id (label_ids r first_label source.labels)
          (card_fate n r (column_ids n r 1 ordered) (archived_list_ids n r source.lists))
          source.cards (plan_columns n r 0 1 ordered)
          (empty_draft n r (first_label + length source.labels))

    unfoldable pub plan_checklists : TrelloExport n.Num → Draft n r → CheckDraft n r
    unfolding checklist_fate add_tasks skipped_card_reasons ordered_lists column_ids card_fate
    plan_checklists source d =
        add_tasks n r
          (checklist_fate n r d.task_ids (
            skipped_card_reasons n r
              (card_fate n r (column_ids n r 1 (ordered_lists n r source.lists))
                (archived_list_ids n r source.lists))
              source.cards))
          source.checklists d.tasks
          (record { next = d.next; checklists = []; items = []; skips = [] })

    abbrev pub counted_skip : SkipScope → SkipReason → ℕ → Skip
    counted_skip scope reason count = record {
      scope = scope;
      reason = reason;
      count = count;
      samples = [];
    }

    -- The calls of the collector, in their order.
    unfoldable pub plan_skips : (issues : List Skip) → TrelloExport n.Num → List Skip
    unfolding plan_cards plan_checklists list_skips label_skips card_skips checklist_skips
    plan_skips issues source =
        let ordered = ordered_lists n r source.lists in
        let fate = card_fate n r (column_ids n r 1 ordered) (archived_list_ids n r source.lists) in
        let cards = plan_cards source in
        let checks = plan_checklists source cards in
        issues
        ++ (list_skips n r source.lists
            ++ (column_skip n r (plan_columns n r 0 1 ordered)
                ∷ (label_skips r source.labels
                    ++ (card_skips n r fate source.cards
                        ++ (cards.skips
                            ++ (checklist_skips n r
                                  (checklist_fate n r cards.task_ids
                                    (skipped_card_reasons n r fate source.cards))
                                  source.checklists
                                ++ (checks.skips
                                    ++ counted_skip SkipScope.member unmappable source.member_count
                                      ∷ counted_skip SkipScope.comment out_of_scope
                                          source.comment_count
                                      ∷ [])))))))

    unfoldable pub plan_trello_import : (issues : List Skip) → TrelloExport n.Num → TrelloImportPlan
    unfolding plan_skips
    plan_trello_import issues source =
        let ordered = ordered_lists n r source.lists in
        let cards = plan_cards source in
        let checks = plan_checklists source cards in
        record {
          board_id = 0;
          board_name = if is_unnamed r source.name then "Imported board" else source.name;
          board_description = empty_to_null r source.desc;
          columns = plan_columns n r 0 1 ordered;
          labels = plan_labels r 0 (1 + length ordered) source.labels;
          tasks = cards.tasks;
          task_labels = cards.task_labels;
          checklists = checks.checklists;
          checklist_items = checks.items;
          attachments = cards.attachments;
          skipped = to_report (collect r.trim (plan_skips issues source));
        }
