-- ===== src/Trello.antt =====
-- import/trello-import-planner.ts, trello-label-color.ts and the types of trello-export.ts: what a
-- Trello export becomes. The rows of each kind are planned in the children; here are the export, the
-- plan's rows, and the helpers. The ids that `uuidv7` makes are numbered in the order of its calls.
pub mod Lists
pub mod Cards
pub mod Checks
pub mod Planner
pub mod Placed
pub mod Reported
pub mod Sound
pub mod Linked
pub mod Matched
pub mod Conserved
use kurultay.Base.{
  ℕ, zero, suc, ◌+◌, ◌*◌, ◌&&◌, ◌||◌, not, Bool, true, false, Option, none, some, String, List, [],
  ◌∷◌, ◌++◌, length, keep_if, any_of, get_or, ◌==◌, str_eq, if◌then◌else◌,
}
use kurultay.Ordering.Number.{Number}
use kurultay.Ordering.Fractional.{rebalance_positions}
use kurultay.Store.{ColumnCategory}

pub record TrelloAttachment : Type 0 where
  pub name : String
  pub url : String

pub record TrelloLabel : Type 0 where
  pub id : String
  pub name : String
  pub color : Option String

-- `pos` is a number of the export, of the type `Pos`.
module _ (Pos : Type 0) where
  pub record TrelloList : Type 0 where
    pub id : String
    pub name : String
    pub pos : Option Pos
    pub closed : Bool

  pub record TrelloCheckItem : Type 0 where
    pub id : String
    pub name : String
    pub state : Option String
    pub pos : Option Pos

  pub record TrelloChecklist : Type 0 where
    pub id : String
    pub id_card : Option String
    pub name : String
    pub pos : Option Pos
    pub check_items : List TrelloCheckItem

  pub record TrelloCard : Type 0 where
    pub id : String
    pub name : String
    pub desc : Option String
    pub id_list : Option String
    pub pos : Option Pos
    pub closed : Bool
    pub due : Option String
    pub id_labels : List String
    pub attachments : List TrelloAttachment

  pub record TrelloExport : Type 0 where
    pub name : String
    pub desc : Option String
    pub lists : List TrelloList
    pub cards : List TrelloCard
    pub labels : List TrelloLabel
    pub checklists : List TrelloChecklist
    pub comment_count : ℕ
    pub member_count : ℕ

-- Every row of the plan has the board's id or the id of the row that it hangs on.
module _ (Num : Type 0) where
  pub record PlanColumn : Type 0 where
    pub id : ℕ
    pub board_id : ℕ
    pub name : String
    pub position : Num
    pub category : ColumnCategory

  pub record PlanTask : Type 0 where
    pub id : ℕ
    pub board_id : ℕ
    pub column_id : ℕ
    pub title : String
    pub description : Option String
    pub position : Num
    pub due_date : Option ℕ
    pub created_by_id : ℕ

  pub record PlanChecklist : Type 0 where
    pub id : ℕ
    pub task_id : ℕ
    pub title : String
    pub position : Num

  pub record PlanItem : Type 0 where
    pub id : ℕ
    pub checklist_id : ℕ
    pub content : String
    pub is_done : Bool
    pub position : Num

-- The slot of a number, or what an object inherits as `constructor`, which is no slot.
pub data SlotValue : Type 0 where
  slot : ℕ → SlotValue
  inherited_constructor : SlotValue

pub record PlanLabel : Type 0 where
  pub id : ℕ
  pub board_id : ℕ
  pub name : String
  pub color : SlotValue

pub record PlanTaskLabel : Type 0 where
  pub id : ℕ
  pub task_id : ℕ
  pub label_id : ℕ

-- A link; `storageKey`, `mimeType` and `size` are null.
pub record PlanAttachment : Type 0 where
  pub id : ℕ
  pub task_id : ℕ
  pub uploaded_by_id : ℕ
  pub filename : String
  pub url : String

-- What the planner asks of the runtime: `trim`, `new URL(raw)` as its protocol and its text,
-- `new Date(raw)`, the colour's name in lower case up to its first `_`, and the order of ids.
pub record Runtime : Type 0 where
  pub trim : String → String
  pub parse_url : String → Option (String × String)
  pub parse_date : String → Option ℕ
  pub color_base : String → String
  pub is_id_before : String → String → Bool

module _ (r : Runtime) where
  abbrev pub is_unnamed : String → Bool
  is_unnamed value = str_eq (r.trim value) ""

  unfoldable pub empty_to_null : Option String → Option String
  empty_to_null none = none
  empty_to_null (some value) = if is_unnamed value then none else some value

  unfoldable pub parse_due_date : Option String → Option ℕ
  parse_due_date none = none
  parse_due_date (some raw) = r.parse_date raw

-- What `orderedByPos` compares two rows by.
module _ {Pos : Type 0} (r : Runtime) (is_less : Pos → Pos → Bool) where
  abbrev pub precedes : Option Pos → String → Option Pos → String → Bool
  precedes none i none j = r.is_id_before i j
  precedes none i (some q) j = false
  precedes (some p) i none j = true
  precedes (some p) i (some q) j = is_less p q || (not (is_less q p) && r.is_id_before i j)

  module _ {T : Type 0} (pos : T → Option Pos) (id : T → String) where
    abbrev pub insert_by_pos : T → List T → List T
    insert_by_pos x [] = x ∷ []
    insert_by_pos x (y ∷ ys) =
        let rest = insert_by_pos x ys in
        if precedes (pos y) (id y) (pos x) (id x) then y ∷ rest else x ∷ y ∷ ys

    -- `sort` is stable: of two equal rows the first stays first.
    abbrev pub ordered_by_pos : List T → List T
    ordered_by_pos [] = []
    ordered_by_pos (x ∷ xs) = insert_by_pos x (ordered_by_pos xs)

-- `positionsFor(count)(index)`
unfoldable pub position_for : (n : Number) → (count index : ℕ) → n.Num
position_for n count index = get_or (rebalance_positions n count) index (n.gap_times (index + 1))

-- `new Map()` filled by `set` in order: the last entry of a key counts.
module _ {V : Type 0} where
  abbrev pub or_else : Option V → Option V → Option V
  or_else (some later) first = some later
  or_else none first = first

  abbrev pub lookup_last : String → List (String × V) → Option V
  lookup_last key [] = none
  lookup_last key ((k, v) ∷ entries) =
      or_else (lookup_last key entries) (if str_eq k key then some v else none)

  abbrev pub lookup_some : Option String → List (String × V) → Option V
  lookup_some none entries = none
  lookup_some (some key) entries = lookup_last key entries
