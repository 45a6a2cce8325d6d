-- ===== src/Trello/Conserved.antt =====
-- No card is lost: what is not planned is in the report.
use kurultay.Base.{
  ℕ, ◌+◌, ◌≤◌, ◌<◌, ◌≡◌, refl, ap, ◌∙◌, inl, inr, Bool, true, false, Option, none, some, String,
  List, [], ◌∷◌, ◌++◌, map, Perm, map_from, arith, length, length-append, if◌then◌else◌, Bool-cases,
}
use kurultay.Ordering.Number.{Number}
use kurultay.Skips.{SkipReason, card, archived, malformed, scope_index, reason_index, Skip}
use kurultay.Skips.Counts.{counted, skipped, counted-to_report}
use kurultay.Trello.{
  TrelloCard, TrelloList, TrelloExport, PlanColumn, Runtime, is_unnamed, lookup_last, lookup_some,
}
use kurultay.Trello.Lists.{
  ordered_lists, archived_list_ids, list_skips, plan_column, plan_columns, column_ids, column_skip,
  label_ids, label_skips,
}
use kurultay.Trello.Cards.{
  left_out, is_listed, fate_of, card_fate, fate_skips, card_skips, Draft, empty_draft,
}
use kurultay.Trello.Checks.{checklist_skips}
use kurultay.Trello.Planner.{plan_cards, plan_checklists, plan_skips, plan_trello_import}
use kurultay.Trello.Placed.{columns_of, columns_of-left_out, columns_of-placed, column_ids-range}
use kurultay.Trello.Matched.{
  card_content, task_content, planned_cards, left_cards, each_card, left_cards-card_skips,
  add_columns-content,
}
use kurultay.Trello.Reported.{
  skipped_cards, skipped_cards-append, NoCards, skipped_cards-NoCards, list_skips-NoCards,
  label_skips-NoCards, checklist_skips-NoCards, add_columns-NoCards, add_tasks-NoCards,
}

without_cards : (ks ls : List Skip) → NoCards ks → skipped_cards (ks ++ ls) ≡ skipped_cards ls
without_cards ks ls h = omega (arith, skipped_cards-append ks ls, skipped_cards-NoCards ks h)

-- The entries that are about no card count for none.
cards_between :
    (issues a b c cards d e f g : List Skip)
    → NoCards a
    → NoCards b
    → NoCards c
    → NoCards d
    → NoCards e
    → NoCards f
    → NoCards g
    → skipped_cards (issues ++ (a ++ (b ++ (c ++ (cards ++ (d ++ (e ++ (f ++ g))))))))
      ≡ skipped_cards issues + skipped_cards cards
cards_between issues a b c cards d e f g ha hb hc hd he hf hg =
    skipped_cards-append issues _
    ∙ ap (λ k. skipped_cards issues + k)
        (without_cards a _ ha
          ∙ without_cards b _ hb
          ∙ without_cards c _ hc
          ∙ omega (
            arith,
            skipped_cards-append cards (d ++ (e ++ (f ++ g))),
            without_cards d (e ++ (f ++ g)) hd,
            without_cards e (f ++ g) he,
            without_cards f g hf,
            skipped_cards-NoCards g hg,
          ))

module _ (n : Number) (r : Runtime) where
  -- The columns that the fate of a card speaks of are the planned ones.
  fate_of-once :
      (next : ℕ) (ordered : List (TrelloList n.Num)) (c : TrelloCard n.Num)
      (archived_ids : List String)
      → columns_of n r
            (card_fate n r (column_ids n r next ordered) archived_ids c)
            (plan_columns n r 0 next ordered)
          + length (fate_skips n r c (card_fate n r (column_ids n r next ordered) archived_ids c))
        ≡ 1
  unfolding card_fate column_ids plan_columns
  fate_of-once next ordered c archived_ids = elim (Bool-cases c.closed) [
    | inl closed ↦ rw closed (left archived)
    | inr live ↦ rw live (elim (Bool-cases (is_unnamed r c.name)) [
      | inl unnamed ↦ rw unnamed (left malformed)
      | inr named ↦ rw named (looked c.id_list)
    ])
  ]
    where
      columns : List (PlanColumn n.Num)
      columns = map_from 0 (plan_column n r 0 next (length ordered)) ordered

      ids : List (String × ℕ)
      ids = map_from 0 (λ index (l : TrelloList n.Num). (l.id, next + index)) ordered

      left :
          (reason : SkipReason)
          → columns_of n r (left_out reason) columns + length (fate_skips n r c (left_out reason))
            ≡ 1
      left reason = omega (arith, columns_of-left_out n r reason columns)

      into :
          (found : Option ℕ) (b : Bool)
          → ((k : ℕ) → found ≡ some k → (next + 0 ≤ k) × (k < next + 0 + length ordered))
          → columns_of n r (fate_of n r found b) columns
              + length (fate_skips n r c (fate_of n r found b))
            ≡ 1
      into none b range = left (if b then archived else malformed)
      into (some k) b range =
          ground (arith, columns_of-placed n r 0 next (length ordered) 0 k ordered, range k refl)

      looked :
          (id_list : Option String)
          → columns_of n r
                (fate_of n r (lookup_some id_list ids) (is_listed id_list archived_ids))
                columns
              + length (
                  fate_skips n r c
                    (fate_of n r (lookup_some id_list ids) (is_listed id_list archived_ids)))
            ≡ 1
      looked none = left malformed
      looked (some key) =
          into (lookup_last key ids) _ (λ k e. column_ids-range n r next 0 key ordered e)

  fate_skips-counted :
      (ids : List (String × ℕ)) (archived_ids : List String) (c : TrelloCard n.Num)
      → skipped_cards (fate_skips n r c (card_fate n r ids archived_ids c))
        ≡ length (fate_skips n r c (card_fate n r ids archived_ids c))
  unfolding card_fate scope_index reason_index
  fate_skips-counted ids archived_ids c = elim (Bool-cases c.closed) [
    | inl closed ↦ rw closed refl
    | inr live ↦ rw live (elim (Bool-cases (is_unnamed r c.name)) [
      | inl unnamed ↦ rw unnamed refl
      | inr named ↦ rw named (looked (lookup_some c.id_list ids) (is_listed c.id_list archived_ids))
    ])
  ]
    where
      looked :
          (found : Option ℕ) (b : Bool)
          → skipped_cards (fate_skips n r c (fate_of n r found b))
            ≡ length (fate_skips n r c (fate_of n r found b))
      looked (some k) b = refl
      looked none true = refl
      looked none false = refl

  card_skips-counted :
      (ids : List (String × ℕ)) (archived_ids : List String) (cs : List (TrelloCard n.Num))
      → skipped_cards (card_skips n r (card_fate n r ids archived_ids) cs)
        ≡ length (card_skips n r (card_fate n r ids archived_ids) cs)
  unfolding card_skips
  card_skips-counted ids archived_ids [] = refl
  card_skips-counted ids archived_ids (c ∷ cs) =
      let first = fate_skips n r c (card_fate n r ids archived_ids c) in
      let rest = card_skips n r (card_fate n r ids archived_ids) cs in
      omega (
        arith,
        skipped_cards-append first rest,
        length-append {0} first rest,
        fate_skips-counted ids archived_ids c,
        card_skips-counted ids archived_ids cs,
      )

  module _ (actor_id : ℕ) where
    plan_cards-NoCards :
        (source : TrelloExport n.Num) → NoCards (plan_cards n r actor_id source).skips
    unfolding plan_cards
    plan_cards-NoCards source =
        let ordered = ordered_lists n r source.lists in
        let first_label = 1 + length ordered in
        add_columns-NoCards n r 0 actor_id (label_ids r first_label source.labels) _ source.cards
          (plan_columns n r 0 1 ordered) (empty_draft n r (first_label + length source.labels)) tt

    plan_checklists-NoCards :
        (source : TrelloExport n.Num) (d : Draft n r)
        → NoCards (plan_checklists n r actor_id source d).skips
    unfolding plan_checklists
    plan_checklists-NoCards source d =
        add_tasks-NoCards n r _ source.checklists d.tasks
          (record { next = d.next; checklists = []; items = []; skips = [] }) tt

    plan_skips-cards :
        (issues : List Skip) (source : TrelloExport n.Num)
        → skipped_cards (plan_skips n r actor_id issues source)
          ≡ skipped_cards issues
            + length (
                card_skips n r
                  (card_fate n r
                    (column_ids n r 1 (ordered_lists n r source.lists))
                    (archived_list_ids n r source.lists))
                  source.cards)
    unfolding plan_skips scope_index
    plan_skips-cards issues source =
        let ordered = ordered_lists n r source.lists in
        let ids = column_ids n r 1 ordered in
        let archived_ids = archived_list_ids n r source.lists in
        let drafted = plan_cards n r actor_id source in
        cards_between issues (list_skips n r source.lists)
          (column_skip n r (plan_columns n r 0 1 ordered) ∷ []) (label_skips r source.labels)
          (card_skips n r (card_fate n r ids archived_ids) source.cards) drafted.skips
          (checklist_skips n r _ source.checklists)
          (plan_checklists n r actor_id source drafted).skips _
          (list_skips-NoCards n r source.lists) (refl, tt) (label_skips-NoCards n r source.labels)
          (plan_cards-NoCards source) (checklist_skips-NoCards n r _ source.checklists)
          (plan_checklists-NoCards source drafted) (refl, (refl, tt))
        ∙ ap (λ k. skipped_cards issues + k) (card_skips-counted ids archived_ids source.cards)

    -- The cards of an export are, in some order and each once, the planned ones and those that are
    -- left out. The planned tasks are made of the planned cards, one each and in their order, with
    -- the card's title, its description and its date; the cards that are left out are counted once
    -- each in the report, as archived or malformed, besides those that the reader of the export has
    -- counted there already.
    pub plan_trello_import-cards :
        (issues : List Skip) (source : TrelloExport n.Num)
        → (planned left : List (TrelloCard n.Num)) × Perm (planned ++ left) source.cards
          × (map (task_content n r) (plan_trello_import n r actor_id issues source).tasks
              ≡ map (card_content n r) planned)
          × (counted card archived (plan_trello_import n r actor_id issues source).skipped
                + counted card malformed (plan_trello_import n r actor_id issues source).skipped
              ≡ length left + (skipped card archived issues + skipped card malformed issues))
    unfolding plan_trello_import plan_cards
    plan_trello_import-cards issues source =
        let ordered = ordered_lists n r source.lists in
        let first_label = 1 + length ordered in
        let archived_ids = archived_list_ids n r source.lists in
        let fate = card_fate n r (column_ids n r 1 ordered) archived_ids in
        let columns = plan_columns n r 0 1 ordered in
        let ks = plan_skips n r actor_id issues source in
        (
          planned_cards n r fate columns source.cards,
          left_cards n r fate source.cards,
          each_card n r fate columns (λ c. fate_of-once 1 ordered c archived_ids) source.cards,
          add_columns-content n r fate 0 actor_id (label_ids r first_label source.labels)
              source.cards columns (empty_draft n r (first_label + length source.labels)),
          omega (
            arith,
            counted-to_report r.trim ks card archived,
            counted-to_report r.trim ks card malformed,
            plan_skips-cards issues source,
            left_cards-card_skips n r fate source.cards,
          ),
        )
