-- ===== src/Tests/ImportRuns.antt =====
-- A small Trello board: two cards come in, and three do not.
use kurultay.Base.{
  ℕ, ◌+◌, ◌≡◌, refl, true, false, none, some, String, List, [], ◌∷◌, ◌++◌, map, length, Perm,
}
use kurultay.Skips.{card, archived, malformed}
use kurultay.Skips.Counts.{counted, skipped}
use kurultay.Trello.{TrelloCard, TrelloExport, Runtime}
use kurultay.Trello.Planner.{plan_trello_import}
use kurultay.Trello.Matched.{card_content, task_content}
use kurultay.Trello.Conserved.{plan_trello_import-cards}
use kurultay.Trello.Linked.{IsSoundPlan, plan_trello_import-IsSoundPlan}
use kurultay.Tests.Grid.{grid}

-- Texts have no spaces around them here, and the links are all to http.
abbrev plain : Runtime
plain = record {
  trim = λ text. text;
  parse_url = λ raw. some ("http:", raw);
  parse_date = λ raw. none;
  color_base = λ color. color;
  is_id_before = λ i j. false;
}

abbrev card_of : String → String → List String → TrelloCard ℕ
card_of id list labels = record {
  id = id;
  name = id;
  desc = none;
  id_list = some list;
  pos = none;
  closed = false;
  due = none;
  id_labels = labels;
  attachments = record { name = ""; url = "http://k.org" } ∷ [];
}

abbrev exported : TrelloExport ℕ
exported = record {
  name = "Garden";
  desc = some "";
  lists =
      record { id = "done"; name = "Done"; pos = some 2; closed = false }
      ∷ record { id = "todo"; name = "To do"; pos = some 1; closed = false }
      ∷ record { id = "old"; name = "Old"; pos = some 3; closed = true }
      ∷ [];
  cards =
      card_of "dig" "todo" ("l" ∷ "l" ∷ "gone" ∷ [])
      ∷ record (card_of "cut" "todo" []) { closed = true }
      ∷ card_of "rest" "old" []
      ∷ card_of "lost" "nowhere" []
      ∷ card_of "sow" "done" []
      ∷ [];
  labels = record { id = "l"; name = "Spring"; color = some "green" } ∷ [];
  checklists =
      record {
        id = "c";
        id_card = some "dig";
        name = "Tools";
        pos = none;
        check_items = record { id = "i"; name = "Spade"; state = some "complete"; pos = none } ∷ [];
      }
      ∷ [];
  comment_count = 4;
  member_count = 0;
}

import_run :
    map (λ t. t.title) (plan_trello_import grid plain 5 [] exported).tasks ≡ "dig" ∷ "sow" ∷ []
unfolding plan_trello_import
import_run = refl

plan_trello_import-cards_example :
    (planned left : List (TrelloCard ℕ)) × Perm (planned ++ left) exported.cards
    × (map (task_content grid plain) (plan_trello_import grid plain 5 [] exported).tasks
        ≡ map (card_content grid plain) planned)
    × (counted card archived (plan_trello_import grid plain 5 [] exported).skipped
          + counted card malformed (plan_trello_import grid plain 5 [] exported).skipped
        ≡ length left + (skipped card archived [] + skipped card malformed []))
plan_trello_import-cards_example = plan_trello_import-cards grid plain 5 [] exported

plan_trello_import-IsSoundPlan_example :
    IsSoundPlan grid plain (plan_trello_import grid plain 5 [] exported)
plan_trello_import-IsSoundPlan_example = plan_trello_import-IsSoundPlan grid plain 5 [] exported
