-- ===== src/Trello/Lists.antt =====
-- Lists become columns, labels become labels.
use kurultay.Base.{
  ℕ, ◌+◌, ◌&&◌, ◌||◌, not, Bool, true, false, Option, none, some, String, List, [], ◌∷◌, map,
  map_from, length, keep_if, str_eq, if◌then◌else◌,
}
use kurultay.Ordering.Number.{Number}
use kurultay.Store.{unstarted}
use kurultay.Skips.{SkipScope, SkipReason, archived, malformed, defaulted, Skip}
use kurultay.Trello.{
  SlotValue, inherited_constructor, TrelloList, TrelloLabel, PlanColumn, PlanLabel, Runtime,
  is_unnamed, ordered_by_pos, position_for,
}

abbrev samples_of : Option String → List (Option String)
samples_of none = []
samples_of (some sample) = some sample ∷ []

-- `skips.add(scope, reason, sample)`
abbrev pub skip : SkipScope → SkipReason → Option String → Skip
skip scope reason sample = record {
  scope = scope;
  reason = reason;
  count = 1;
  samples = samples_of sample;
}

module _ (n : Number) (r : Runtime) where
  abbrev pub is_live_list : TrelloList n.Num → Bool
  is_live_list l = not l.closed && not (is_unnamed r l.name)

  -- The lists that become columns, in the order of the columns.
  unfoldable pub ordered_lists : List (TrelloList n.Num) → List (TrelloList n.Num)
  ordered_lists lists = ordered_by_pos r n.lt (λ l. l.pos) (λ l. l.id) (keep_if is_live_list lists)

  abbrev pub archived_list_ids : List (TrelloList n.Num) → List String
  archived_list_ids lists = map (λ l. l.id) (keep_if (λ l. l.closed) lists)

  abbrev pub list_skip : TrelloList n.Num → Skip
  list_skip l =
      if l.closed
      then skip SkipScope.list archived (some l.name)
      else skip SkipScope.list malformed none

  -- What the loop over the lists adds to the report.
  unfoldable pub list_skips : List (TrelloList n.Num) → List Skip
  list_skips lists = map list_skip (keep_if (λ l. not (is_live_list l)) lists)

  -- The first `uuidv7` call made the board's id.
  abbrev pub plan_column : (board_id next count index : ℕ) → TrelloList n.Num → PlanColumn n.Num
  plan_column board_id next count index l = record {
    id = next + index;
    board_id = board_id;
    name = l.name;
    position = position_for n count index;
    category = unstarted;
  }

  unfoldable pub plan_columns :
      (board_id next : ℕ) → (ordered : List (TrelloList n.Num)) → List (PlanColumn n.Num)
  plan_columns board_id next ordered =
      map_from 0 (plan_column board_id next (length ordered)) ordered

  -- `columnIdByTrelloId`
  unfoldable pub column_ids : (next : ℕ) → List (TrelloList n.Num) → List (String × ℕ)
  column_ids next ordered = map_from 0 (λ index l. (l.id, next + index)) ordered

  abbrev pub column_skip : List (PlanColumn n.Num) → Skip
  column_skip columns = record {
    scope = SkipScope.column;
    reason = defaulted;
    count = length columns;
    samples = map (λ c. some c.name) columns;
  }

-- `TRELLO_COLOR_TO_SLOT[base]`, where the base has no capitals and no `_`: of the properties that
-- the table inherits from `Object.prototype`, that leaves `constructor`.
unfoldable pub color_slot : String → Option SlotValue
color_slot base =
    if str_eq base "blue"
    then some (SlotValue.slot 1)
    else if str_eq base "orange"
    then some (SlotValue.slot 2)
    else if str_eq base "green"
    then some (SlotValue.slot 3)
    else if str_eq base "yellow"
    then some (SlotValue.slot 4)
    else if str_eq base "pink"
    then some (SlotValue.slot 5)
    else if str_eq base "lime"
    then some (SlotValue.slot 6)
    else if str_eq base "purple"
    then some (SlotValue.slot 7)
    else if str_eq base "red"
    then some (SlotValue.slot 8)
    else if str_eq base "sky"
    then some (SlotValue.slot 1)
    else if str_eq base "black"
    then some (SlotValue.slot 7)
    else if str_eq base "constructor"
    then some inherited_constructor
    else none

pub record ColorMapping : Type 0 where
  pub slot : SlotValue
  pub is_defaulted : Bool

module _ (r : Runtime) where
  abbrev text_of : Option String → String
  text_of none = ""
  text_of (some text) = text

  unfoldable pub trello_color_to_slot : Option String → ColorMapping
  unfolding color_slot
  trello_color_to_slot color = elim (color_slot (r.color_base (text_of color))) [
    | none ↦ record { slot = SlotValue.slot 1; is_defaulted = true }
    | some found ↦ record { slot = found; is_defaulted = false }
  ]

  unfoldable pub label_name : TrelloLabel → String
  label_name l =
      let color_name = r.trim (text_of l.color) in
      if is_unnamed r l.name then (if str_eq color_name "" then "Label" else color_name) else l.name

  unfoldable pub plan_labels : (board_id next : ℕ) → List TrelloLabel → List PlanLabel
  unfolding trello_color_to_slot label_name
  plan_labels board_id next labels =
      map_from 0
        (λ index l. record {
          id = next + index;
          board_id = board_id;
          name = label_name l;
          color = (trello_color_to_slot l.color).slot;
        })
        labels

  -- `labelIdByTrelloId`
  unfoldable pub label_ids : (next : ℕ) → List TrelloLabel → List (String × ℕ)
  label_ids next labels = map_from 0 (λ index l. (l.id, next + index)) labels

  abbrev pub is_changed_label : TrelloLabel → Bool
  is_changed_label l = (trello_color_to_slot l.color).is_defaulted || is_unnamed r l.name

  -- One entry for each label that arrives changed.
  unfoldable pub label_skips : List TrelloLabel → List Skip
  unfolding trello_color_to_slot label_name
  label_skips labels =
      map (λ l. skip SkipScope.label defaulted (some (label_name l)))
        (keep_if is_changed_label labels)
