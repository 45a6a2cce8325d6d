-- ===== src/Trello/Cards.antt =====
-- Cards become tasks, with their labels and links.
use kurultay.Base.{
  ℕ, suc, ◌||◌, Bool, false, Option, none, some, String, List, [], ◌∷◌, ◌++◌, length, keep_if,
  any_of, ◌==◌, str_eq, if◌then◌else◌,
}
use kurultay.Ordering.Number.{Number}
use kurultay.Skips.{SkipScope, SkipReason, archived, malformed, unsupported_scheme, Skip}
use kurultay.Trello.{
  TrelloCard, TrelloAttachment, PlanColumn, PlanTask, PlanTaskLabel, PlanAttachment, Runtime,
  is_unnamed, empty_to_null, parse_due_date, ordered_by_pos, position_for, lookup_last, lookup_some,
}
use kurultay.Trello.Lists.{skip}

-- The column that a card comes into, or the reason why it does not.
pub data Fate : Type 0 where
  placed : ℕ → Fate
  left_out : SkipReason → Fate

pub data UrlVerdict : Type 0 where
  storable : String → UrlVerdict
  refused : SkipReason → UrlVerdict

unfoldable pub classify_url : Runtime → String → UrlVerdict
classify_url r raw = elim (r.parse_url (r.trim raw)) [
  | none ↦ refused malformed
  | some (protocol, href) ↦
      if str_eq protocol "http:" || str_eq protocol "https:"
      then storable href
      else refused unsupported_scheme
]

abbrev pub is_listed : Option String → List String → Bool
is_listed none ids = false
is_listed (some id) ids = any_of (str_eq id) ids

module _ (n : Number) (r : Runtime) where
  abbrev pub fate_of : Option ℕ → (in_archived : Bool) → Fate
  fate_of (some column_id) in_archived = placed column_id
  fate_of none in_archived = left_out (if in_archived then archived else malformed)

  unfoldable pub card_fate :
      (column_ids : List (String × ℕ)) (archived_ids : List String) → TrelloCard n.Num → Fate
  card_fate column_ids archived_ids c =
      if c.closed
      then left_out archived
      else if is_unnamed r c.name
      then left_out malformed
      else fate_of (lookup_some c.id_list column_ids) (is_listed c.id_list archived_ids)

  abbrev pub is_in : ℕ → Fate → Bool
  is_in column_id (placed c) = c == column_id
  is_in column_id (left_out reason) = false

  abbrev pub fate_skips : TrelloCard n.Num → Fate → List Skip
  fate_skips c (placed column_id) = []
  fate_skips c (left_out reason) = skip SkipScope.card reason (some c.name) ∷ []

  abbrev fate_reasons : TrelloCard n.Num → Fate → List (String × SkipReason)
  fate_reasons c (placed column_id) = []
  fate_reasons c (left_out reason) = (c.id, reason) ∷ []

  module _ (fate : TrelloCard n.Num → Fate) where
    -- What the loop over the cards adds to the report, and `skippedCardReasons`.
    unfoldable pub card_skips : List (TrelloCard n.Num) → List Skip
    card_skips [] = []
    card_skips (c ∷ cs) = fate_skips c (fate c) ++ card_skips cs

    unfoldable pub skipped_card_reasons : List (TrelloCard n.Num) → List (String × SkipReason)
    skipped_card_reasons [] = []
    skipped_card_reasons (c ∷ cs) = fate_reasons c (fate c) ++ skipped_card_reasons cs

    -- `orderedByPos(cardsByColumnId.get(column.id) ?? [])`
    unfoldable pub cards_in : (column_id : ℕ) → List (TrelloCard n.Num) → List (TrelloCard n.Num)
    cards_in column_id cards =
        ordered_by_pos r n.lt (λ c. c.pos) (λ c. c.id)
          (keep_if (λ c. is_in column_id (fate c)) cards)

  -- The rows planned so far, and the number of the next id.
  pub record Draft : Type 0 where
    pub next : ℕ
    pub tasks : List (PlanTask n.Num)
    pub task_labels : List PlanTaskLabel
    pub attachments : List PlanAttachment
    -- `taskIdByTrelloCardId`
    pub task_ids : List (String × ℕ)
    pub skips : List Skip

  -- Nothing planned yet.
  abbrev pub empty_draft : ℕ → Draft
  empty_draft next = record {
    next = next;
    tasks = [];
    task_labels = [];
    attachments = [];
    task_ids = [];
    skips = [];
  }

  -- A label of a card; `attached` is the set of the label ids so far.
  abbrev pub add_label : (task_id : ℕ) (name : String) → Option ℕ → List ℕ × Draft → List ℕ × Draft
  add_label task_id name none (attached, d) =
      (attached, record d { skips = d.skips ++ skip SkipScope.label malformed (some name) ∷ [] })
  add_label task_id name (some label_id) (attached, d) =
      if any_of (λ i. i == label_id) attached then (attached, d) else (
        label_id ∷ attached,
        record d {
          next = suc d.next;
          task_labels =
              d.task_labels ++ record { id = d.next; task_id = task_id; label_id = label_id } ∷ [];
        },
      )

  unfoldable pub add_labels :
      (label_ids : List (String × ℕ)) (task_id : ℕ) (name : String)
      → List String
      → List ℕ × Draft
      → List ℕ × Draft
  add_labels label_ids task_id name [] s = s
  add_labels label_ids task_id name (trello_id ∷ ids) s =
      add_labels label_ids task_id name ids
        (add_label task_id name (lookup_last trello_id label_ids) s)

  abbrev pub add_link : (actor_id task_id : ℕ) → TrelloAttachment → UrlVerdict → Draft → Draft
  add_link actor_id task_id a (refused reason) d = record d {
    skips = d.skips ++ skip SkipScope.attachment reason (some a.name) ∷ [];
  }
  add_link actor_id task_id a (storable url) d = record d {
    next = suc d.next;
    attachments =
        d.attachments
        ++ record {
          id = d.next;
          task_id = task_id;
          uploaded_by_id = actor_id;
          filename = if is_unnamed r a.name then url else a.name;
          url = url;
        }
          ∷ [];
  }

  unfoldable pub add_attachments : (actor_id task_id : ℕ) → List TrelloAttachment → Draft → Draft
  unfolding classify_url
  add_attachments actor_id task_id [] d = d
  add_attachments actor_id task_id (a ∷ attachments) d =
      add_attachments actor_id task_id attachments
        (add_link actor_id task_id a (classify_url r a.url) d)

  abbrev pub plan_task :
      (board_id actor_id column_id id : ℕ) (position : n.Num) → TrelloCard n.Num → PlanTask n.Num
  plan_task board_id actor_id column_id id position c = record {
    id = id;
    board_id = board_id;
    column_id = column_id;
    title = c.name;
    description = empty_to_null r c.desc;
    position = position;
    due_date = parse_due_date r c.due;
    created_by_id = actor_id;
  }

  abbrev pub with_task :
      (board_id actor_id column_id : ℕ) (position : n.Num) → TrelloCard n.Num → Draft → Draft
  with_task board_id actor_id column_id position c d = record d {
    next = suc d.next;
    tasks = d.tasks ++ plan_task board_id actor_id column_id d.next position c ∷ [];
    task_ids = d.task_ids ++ (c.id, d.next) ∷ [];
  }

  module _ (board_id actor_id : ℕ) (label_ids : List (String × ℕ)) where
    -- One round of the loop over a column's cards.
    unfoldable pub add_card : (column_id count index : ℕ) → TrelloCard n.Num → Draft → Draft
    unfolding add_labels add_attachments empty_to_null parse_due_date position_for
    add_card column_id count index c d =
        add_attachments actor_id d.next c.attachments
          (add_labels label_ids d.next c.name c.id_labels
            ([], with_task board_id actor_id column_id (position_for n count index) c d)).1

    unfoldable pub add_cards : (column_id count index : ℕ) → List (TrelloCard n.Num) → Draft → Draft
    unfolding add_card
    add_cards column_id count index [] d = d
    add_cards column_id count index (c ∷ cs) d =
        add_cards column_id count (suc index) cs (add_card column_id count index c d)

    -- The loop over the columns.
    unfoldable pub add_columns :
        (fate : TrelloCard n.Num → Fate) (cards : List (TrelloCard n.Num))
        → List (PlanColumn n.Num)
        → Draft
        → Draft
    unfolding add_cards cards_in
    add_columns fate cards [] d = d
    add_columns fate cards (column ∷ columns) d =
        let here = cards_in fate column.id cards in
        add_columns fate cards columns (add_cards column.id (length here) 0 here d)
