-- ===== src/Trello/Checks.antt =====
-- Checklists of the planned tasks, with their items.
use kurultay.Base.{
  ℕ, suc, ◌+◌, ◌||◌, not, Bool, false, Option, none, some, String, List, [], ◌∷◌, ◌++◌, map,
  map_from, length, keep_if, ◌==◌, str_eq, if◌then◌else◌,
}
use kurultay.Ordering.Number.{Number}
use kurultay.Skips.{SkipScope, SkipReason, malformed, Skip}
use kurultay.Trello.{
  TrelloChecklist, TrelloCheckItem, PlanTask, PlanChecklist, PlanItem, Runtime, is_unnamed,
  ordered_by_pos, position_for, lookup_some,
}
use kurultay.Trello.Lists.{skip}
use kurultay.Trello.Cards.{Fate, placed, left_out, is_in}

abbrev or_malformed : Option SkipReason → SkipReason
or_malformed none = malformed
or_malformed (some reason) = reason

abbrev is_complete : Option String → Bool
is_complete none = false
is_complete (some state) = str_eq state "complete"

module _ (n : Number) (r : Runtime) where
  -- The task that a checklist goes to; one of a skipped card is reported with the card's reason.
  abbrev pub checklist_fate_of : Option ℕ → Option SkipReason → (is_empty : Bool) → Fate
  checklist_fate_of none inherited is_empty = left_out (or_malformed inherited)
  checklist_fate_of (some task_id) inherited is_empty =
      if is_empty then left_out malformed else placed task_id

  unfoldable pub checklist_fate :
      (task_ids : List (String × ℕ)) (skipped_card_reasons : List (String × SkipReason))
      → TrelloChecklist n.Num
      → Fate
  checklist_fate task_ids reasons c =
      checklist_fate_of (lookup_some c.id_card task_ids) (lookup_some c.id_card reasons)
        (is_unnamed r c.name || length c.check_items == 0)

  abbrev pub checklist_fate_skips : TrelloChecklist n.Num → Fate → List Skip
  checklist_fate_skips c (placed task_id) = []
  checklist_fate_skips c (left_out reason) = skip SkipScope.checklist reason (some c.name) ∷ []

  module _ (fate : TrelloChecklist n.Num → Fate) where
    unfoldable pub checklist_skips : List (TrelloChecklist n.Num) → List Skip
    checklist_skips [] = []
    checklist_skips (c ∷ cs) = checklist_fate_skips c (fate c) ++ checklist_skips cs

    unfoldable pub checklists_of :
        (task_id : ℕ) → List (TrelloChecklist n.Num) → List (TrelloChecklist n.Num)
    checklists_of task_id checklists =
        ordered_by_pos r n.lt (λ c. c.pos) (λ c. c.id)
          (keep_if (λ c. is_in n r task_id (fate c)) checklists)

  pub record CheckDraft : Type 0 where
    pub next : ℕ
    pub checklists : List (PlanChecklist n.Num)
    pub items : List (PlanItem n.Num)
    pub skips : List Skip

  abbrev pub ordered_items : TrelloChecklist n.Num → List (TrelloCheckItem n.Num)
  ordered_items c = ordered_by_pos r n.lt (λ i. i.pos) (λ i. i.id) c.check_items

  abbrev pub usable_items : TrelloChecklist n.Num → List (TrelloCheckItem n.Num)
  usable_items c = keep_if (λ i. not (is_unnamed r i.name)) (ordered_items c)

  abbrev pub plan_item :
      (checklist_id next count index : ℕ) → TrelloCheckItem n.Num → PlanItem n.Num
  plan_item checklist_id next count index i = record {
    id = next + index;
    checklist_id = checklist_id;
    content = i.name;
    is_done = is_complete i.state;
    position = position_for n count index;
  }

  unfoldable pub add_checklist :
      (task_id count index : ℕ) → TrelloChecklist n.Num → CheckDraft → CheckDraft
  unfolding position_for
  add_checklist task_id count index c d =
      let usable = usable_items c in
      record {
        next = d.next + 1 + length usable;
        checklists =
            d.checklists
            ++ record {
              id = d.next;
              task_id = task_id;
              title = c.name;
              position = position_for n count index;
            }
              ∷ [];
        items = d.items ++ map_from 0 (plan_item d.next (d.next + 1) (length usable)) usable;
        skips =
            d.skips
            ++ map (λ i. skip SkipScope.checklist_item malformed none)
                (keep_if (λ i. is_unnamed r i.name) (ordered_items c));
      }

  unfoldable pub add_checklists :
      (task_id count index : ℕ) → List (TrelloChecklist n.Num) → CheckDraft → CheckDraft
  unfolding add_checklist
  add_checklists task_id count index [] d = d
  add_checklists task_id count index (c ∷ cs) d =
      add_checklists task_id count (suc index) cs (add_checklist task_id count index c d)

  -- The loop over the planned tasks.
  unfoldable pub add_tasks :
      (fate : TrelloChecklist n.Num → Fate) (checklists : List (TrelloChecklist n.Num))
      → List (PlanTask n.Num)
      → CheckDraft
      → CheckDraft
  unfolding add_checklists checklists_of
  add_tasks fate checklists [] d = d
  add_tasks fate checklists (task ∷ tasks) d =
      let here = checklists_of fate task.id checklists in
      add_tasks fate checklists tasks (add_checklists task.id (length here) 0 here d)
