-- ===== src/Trello/Placed.antt =====
-- A card comes into one of the planned columns, or into none; the labels and links of a card leave
-- the planned tasks alone.
use kurultay.Base.{
  ℕ, suc, ◌+◌, ◌≤◌, ◌<◌, ◌≡◌, refl, ◌∙◌, inl, inr, ◌&&◌, Bool, Option, none, some, String, List, [],
  ◌∷◌, map_from, arith, length, keep_if, any_of, ltb, leb, ◌==◌, if◌then◌else◌, Bool-cases,
  Option-cases,
}
use kurultay.Ordering.Number.{Number}
use kurultay.Trello.{
  TrelloCard, TrelloList, TrelloAttachment, PlanColumn, position_for, Runtime, lookup_last,
}
use kurultay.Skips.{SkipReason}
use kurultay.Trello.Lists.{plan_column}
use kurultay.Trello.Cards.{
  Fate, placed, left_out, UrlVerdict, storable, refused, classify_url, is_in, Draft, add_label,
  add_labels, add_link, add_attachments, with_task, add_card,
}

module _ (n : Number) (r : Runtime) where
  abbrev pub one_if : Bool → ℕ
  one_if b = if b then 1 else 0

  -- How many of the columns a card comes into.
  abbrev pub columns_of : Fate → List (PlanColumn n.Num) → ℕ
  columns_of fate columns = length (keep_if (λ c. is_in n r c.id fate) columns)

  pub columns_of-left_out :
      (reason : SkipReason) (columns : List (PlanColumn n.Num))
      → columns_of (left_out reason) columns ≡ 0
  columns_of-left_out reason [] = refl
  columns_of-left_out reason (c ∷ cs) = columns_of-left_out reason cs

  -- The columns are numbered, so a number in their range is the id of one of them.
  pub columns_of-placed :
      (b next count i k : ℕ) (ls : List (TrelloList n.Num))
      → columns_of (placed k) (map_from i (plan_column n r b next count) ls)
        ≡ one_if (leb (next + i) k && ltb k (next + i + length ls))
  columns_of-placed b next count i k [] = ground arith
  columns_of-placed b next count i k (l ∷ ls) =
      ground (arith, columns_of-placed b next count (suc i) k ls)

  -- A list's id is looked up among those numbers.
  pub column_ids-range :
      (next i : ℕ) (key : String) (ls : List (TrelloList n.Num)) {k : ℕ}
      → lookup_last key (map_from i (λ index (l : TrelloList n.Num). (l.id, next + index)) ls)
        ≡ some k
      → (next + i ≤ k) × (k < next + i + length ls)
  column_ids-range next i key [] e = cc
  column_ids-range next i key (l ∷ ls) {k} e =
      elim (Option-cases (
        lookup_last key
          (map_from (suc i) (λ index (l : TrelloList n.Num). (l.id, next + index)) ls))) [
            | inl missing ↦ ground arith
            | inr (j, found) ↦
                let same : j ≡ k = ground arith in
                let range = column_ids-range next (suc i) key ls found in rw (← same) (omega arith)
          ]

  add_labels-tasks :
      (ids : List (String × ℕ)) (t : ℕ) (name : String) (xs : List String) (s : List ℕ × Draft n r)
      → (add_labels n r ids t name xs s).1.tasks ≡ s.1.tasks
  unfolding add_labels
  add_labels-tasks ids t name [] s = refl
  add_labels-tasks ids t name (x ∷ xs) s =
      add_labels-tasks ids t name xs (add_label n r t name (lookup_last x ids) s)
      ∙ one (lookup_last x ids) s.0 s.1
    where
      one :
          (found : Option ℕ) (attached : List ℕ) (d : Draft n r)
          → (add_label n r t name found (attached, d)).1.tasks ≡ d.tasks
      one none attached d = refl
      one (some l) attached d = elim (Bool-cases (any_of (λ i. i == l) attached)) [
        | inl seen ↦ rw seen
        | inr new ↦ rw new
      ]

  add_attachments-tasks :
      (a t : ℕ) (xs : List TrelloAttachment) (d : Draft n r)
      → (add_attachments n r a t xs d).tasks ≡ d.tasks
  unfolding add_attachments
  add_attachments-tasks a t [] d = refl
  add_attachments-tasks a t (x ∷ xs) d =
      add_attachments-tasks a t xs (add_link n r a t x (classify_url r x.url) d)
      ∙ one (classify_url r x.url)
    where
      one : (verdict : UrlVerdict) → (add_link n r a t x verdict d).tasks ≡ d.tasks
      one (storable url) = refl
      one (refused reason) = refl

  module _ (b a : ℕ) (ids : List (String × ℕ)) where
    pub add_card-tasks :
        (column_id count index : ℕ) (c : TrelloCard n.Num) (d : Draft n r)
        → (add_card n r b a ids column_id count index c d).tasks
          ≡ (with_task n r b a column_id (position_for n count index) c d).tasks
    unfolding add_card
    add_card-tasks column_id count index c d =
        add_attachments-tasks a d.next c.attachments _
        ∙ add_labels-tasks ids d.next c.name c.id_labels _
