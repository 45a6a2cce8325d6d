-- ===== src/Trello/Matched.antt =====
-- Which card each planned task is made of.
use mathlib.Core.List.Perm
use mathlib.Core.List.{append_assoc, append-nil, map-append, perm_middle}
use kurultay.Base.{
  ℕ, zero, suc, ◌+◌, ◌≡◌, refl, sym, ap, ◌∙◌, inl, inr, Bool, true, false, Option, String, List, [],
  ◌∷◌, ◌++◌, map, arith, Perm, length, length-append, keep_if, if◌then◌else◌, Bool-cases,
}
use kurultay.Base.Perms.{perm_of_eq}
use kurultay.Ordering.Number.{Number}
use kurultay.Trello.{
  TrelloCard, PlanColumn, PlanTask, position_for, Runtime, insert_by_pos, ordered_by_pos,
  empty_to_null, parse_due_date, precedes,
}
use kurultay.Trello.Cards.{
  Fate, placed, left_out, is_in, cards_in, Draft, with_task, add_card, add_cards, add_columns,
  fate_skips, card_skips,
}
use kurultay.Trello.Placed.{columns_of, add_card-tasks}

-- What a card and a task have in common.
pub record Content : Type 0 where
  pub title : String
  pub description : Option String
  pub due_date : Option ℕ

module _ {A : Type 0} where
  abbrev copies : ℕ → A → List A
  copies zero x = []
  copies (suc k) x = x ∷ copies k x

  -- `a` copies in one part and the copies in the other make one.
  one_of_both :
      (a b : ℕ) (x : A) (ys zs ws : List A)
      → a + b ≡ 1
      → Perm (ys ++ zs) ws
      → Perm ((copies a x ++ ys) ++ (copies b x ++ zs)) (x ∷ ws)
  one_of_both zero zero x ys zs ws e h = absurd (omega arith)
  one_of_both zero (suc zero) x ys zs ws e h = Perm.trans (perm_middle ys zs) (Perm.cons x h)
  one_of_both zero (suc (suc b)) x ys zs ws e h = absurd (omega arith)
  one_of_both (suc zero) zero x ys zs ws e h = Perm.cons x h
  one_of_both (suc zero) (suc b) x ys zs ws e h = absurd (omega arith)
  one_of_both (suc (suc a)) b x ys zs ws e h = absurd (omega arith)

  past_copies :
      (k : ℕ) (x : A) (ys zs : List A) → Perm (ys ++ (copies k x ++ zs)) (copies k x ++ (ys ++ zs))
  past_copies zero x ys zs = Perm.refl _
  past_copies (suc k) x ys zs =
      Perm.trans (perm_middle ys (copies k x ++ zs)) (Perm.cons x (past_copies k x ys zs))

module _ (n : Number) (r : Runtime) where
  abbrev pub card_content : TrelloCard n.Num → Content
  card_content c = record {
    title = c.name;
    description = empty_to_null r c.desc;
    due_date = parse_due_date r c.due;
  }

  abbrev pub task_content : PlanTask n.Num → Content
  task_content t = record { title = t.title; description = t.description; due_date = t.due_date }

  ordered_by_pos-perm :
      {T : Type 0} (pos : T → Option n.Num) (id : T → String) (xs : List T)
      → Perm (ordered_by_pos r n.lt pos id xs) xs
  ordered_by_pos-perm pos id [] = Perm.refl _
  ordered_by_pos-perm {T} pos id (x ∷ xs) =
      Perm.trans (inserted x (ordered_by_pos r n.lt pos id xs))
        (Perm.cons x (ordered_by_pos-perm pos id xs))
    where
      inserted : (x : T) (ys : List T) → Perm (insert_by_pos r n.lt pos id x ys) (x ∷ ys)
      inserted x [] = Perm.refl _
      inserted x (y ∷ ys) = elim (Bool-cases (precedes r n.lt (pos y) (id y) (pos x) (id x))) [
        | inl later ↦ rw later (Perm.trans (Perm.cons y (inserted x ys)) (Perm.swap x y ys))
        | inr here ↦ rw here (Perm.refl _)
      ]

  module _ (fate : TrelloCard n.Num → Fate) where
    abbrev is_left : Fate → Bool
    is_left (placed k) = false
    is_left (left_out reason) = true

    abbrev pub left_cards : List (TrelloCard n.Num) → List (TrelloCard n.Num)
    left_cards cards = keep_if (λ c. is_left (fate c)) cards

    -- A card that is left out has one entry in the report, and a placed one none.
    left_one :
        (c : TrelloCard n.Num) (f : Fate) (xs : List (TrelloCard n.Num))
        → (if is_left f then c ∷ xs else xs) ≡ copies (length (fate_skips n r c f)) c ++ xs
    left_one c (placed k) xs = refl
    left_one c (left_out reason) xs = refl

    length-copies : {A : Type 0} (k : ℕ) (x : A) → length (copies k x) ≡ k
    length-copies zero x = refl
    length-copies (suc k) x = ap suc (length-copies k x)

    pub left_cards-card_skips :
        (cards : List (TrelloCard n.Num))
        → length (left_cards cards) ≡ length (card_skips n r fate cards)
    unfolding card_skips
    left_cards-card_skips [] = refl
    left_cards-card_skips (c ∷ cs) =
        let k = length (fate_skips n r c (fate c)) in
        ap length (left_one c (fate c) (left_cards cs))
        ∙ omega (
          arith,
          length-append {0} (copies k c) (left_cards cs),
          length-copies k c,
          left_cards-card_skips cs,
          length-append {0} (fate_skips n r c (fate c)) (card_skips n r fate cs),
        )

    -- The cards of the columns, column by column, as they were and in the order of the tasks.
    abbrev gathered : List (PlanColumn n.Num) → List (TrelloCard n.Num) → List (TrelloCard n.Num)
    gathered [] cards = []
    gathered (c ∷ columns) cards =
        keep_if (λ x. is_in n r c.id (fate x)) cards ++ gathered columns cards

    abbrev pub planned_cards :
        List (PlanColumn n.Num) → List (TrelloCard n.Num) → List (TrelloCard n.Num)
    planned_cards [] cards = []
    planned_cards (c ∷ columns) cards = cards_in n r fate c.id cards ++ planned_cards columns cards

    planned_cards-gathered :
        (columns : List (PlanColumn n.Num)) (cards : List (TrelloCard n.Num))
        → Perm (planned_cards columns cards) (gathered columns cards)
    unfolding cards_in
    planned_cards-gathered [] cards = Perm.refl _
    planned_cards-gathered (c ∷ columns) cards =
        Perm.append (ordered_by_pos-perm (λ x. x.pos) (λ x. x.id) _)
          (planned_cards-gathered columns cards)

    gathered-nil : (columns : List (PlanColumn n.Num)) → gathered columns [] ≡ []
    gathered-nil [] = refl
    gathered-nil (c ∷ columns) = gathered-nil columns

    gathered-cons :
        (x : TrelloCard n.Num) (cards : List (TrelloCard n.Num)) (columns : List (PlanColumn n.Num))
        → Perm
            (gathered columns (x ∷ cards))
            (copies (columns_of n r (fate x) columns) x ++ gathered columns cards)
    gathered-cons x cards [] = Perm.refl _
    gathered-cons x cards (c ∷ columns) =
        let here = keep_if (λ y. is_in n r c.id (fate y)) cards in
        let rest : Perm (here ++ gathered columns (x ∷ cards))
            (copies (columns_of n r (fate x) columns) x ++ (here ++ gathered columns cards)) =
          Perm.trans (Perm.append_left here (gathered-cons x cards columns))
            (past_copies (columns_of n r (fate x) columns) x here (gathered columns cards)) in
        elim (Bool-cases (is_in n r c.id (fate x))) [
          | inl in_it ↦ rw in_it (Perm.cons x rest)
          | inr elsewhere ↦ rw elsewhere rest
        ]

    -- Where each card comes into one column or is in the report once.
    planned_cards-left_cards :
        (columns : List (PlanColumn n.Num))
        → ((x : TrelloCard n.Num)
            → columns_of n r (fate x) columns + length (fate_skips n r x (fate x)) ≡ 1)
        → (cards : List (TrelloCard n.Num))
        → Perm (gathered columns cards ++ left_cards cards) cards
    planned_cards-left_cards columns once [] = perm_of_eq (ap (λ g. g ++ []) (gathered-nil columns))
    planned_cards-left_cards columns once (x ∷ cards) =
        let a = columns_of n r (fate x) columns in
        let b = length (fate_skips n r x (fate x)) in
        Perm.trans
          (Perm.append (gathered-cons x cards columns)
            (perm_of_eq (left_one x (fate x) (left_cards cards))))
          (one_of_both a b x (gathered columns cards) (left_cards cards) cards (once x)
            (planned_cards-left_cards columns once cards))

    pub each_card :
        (columns : List (PlanColumn n.Num))
        → ((x : TrelloCard n.Num)
            → columns_of n r (fate x) columns + length (fate_skips n r x (fate x)) ≡ 1)
        → (cards : List (TrelloCard n.Num))
        → Perm (planned_cards columns cards ++ left_cards cards) cards
    each_card columns once cards =
        Perm.trans (Perm.append_right _ (planned_cards-gathered columns cards))
          (planned_cards-left_cards columns once cards)

    module _ (b a : ℕ) (ids : List (String × ℕ)) where
      with_task-content :
          (column_id : ℕ) (position : n.Num) (c : TrelloCard n.Num) (d : Draft n r)
          → map task_content (with_task n r b a column_id position c d).tasks
            ≡ map task_content d.tasks ++ card_content c ∷ []
      with_task-content column_id position c d = map-append _ d.tasks _

      add_cards-content :
          (column_id count index : ℕ) (cs : List (TrelloCard n.Num)) (d : Draft n r)
          → map task_content (add_cards n r b a ids column_id count index cs d).tasks
            ≡ map task_content d.tasks ++ map card_content cs
      unfolding add_cards
      add_cards-content column_id count index [] d = sym (append-nil _)
      add_cards-content column_id count index (c ∷ cs) d =
          add_cards-content column_id count (suc index) cs
            (add_card n r b a ids column_id count index c d)
          ∙ ap (λ ts. map task_content ts ++ map card_content cs)
              (add_card-tasks n r b a ids column_id count index c d)
          ∙ ap (λ ts. ts ++ map card_content cs)
              (with_task-content column_id (position_for n count index) c d)
          ∙ append_assoc (map task_content d.tasks) (card_content c ∷ []) (map card_content cs)

      pub add_columns-content :
          (cards : List (TrelloCard n.Num)) (columns : List (PlanColumn n.Num)) (d : Draft n r)
          → map task_content (add_columns n r b a ids fate cards columns d).tasks
            ≡ map task_content d.tasks ++ map card_content (planned_cards columns cards)
      unfolding add_columns
      add_columns-content cards [] d = sym (append-nil _)
      add_columns-content cards (c ∷ columns) d =
          let here = cards_in n r fate c.id cards in
          add_columns-content cards columns _
          ∙ ap (λ ts. ts ++ map card_content (planned_cards columns cards))
              (add_cards-content c.id (length here) 0 here d)
          ∙ append_assoc (map task_content d.tasks) (map card_content here) _
          ∙ ap (λ ts. map task_content d.tasks ++ ts) (sym (map-append card_content here _))
