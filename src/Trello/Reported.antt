-- ===== src/Trello/Reported.antt =====
-- Which entries of the report are about cards.
use kurultay.Base.{
  ℕ, suc, ◌+◌, ◌≡◌, refl, inl, inr, false, Option, none, some, String, List, [], ◌∷◌, ◌++◌, map,
  arith, All, keep_if, any_of, ◌==◌, Bool-cases,
}
use kurultay.Integrity.Keys.{All-append}
use kurultay.Ordering.Number.{Number}
use kurultay.Skips.{
  SkipScope, SkipReason, card, checklist_item, archived, malformed, scope_index, Skip,
}
use kurultay.Skips.Counts.{skipped}
use kurultay.Trello.{
  TrelloCard, TrelloList, TrelloAttachment, TrelloLabel, TrelloChecklist, TrelloCheckItem,
  PlanColumn, PlanTask, Runtime, is_unnamed, lookup_last,
}
use kurultay.Trello.Lists.{skip, list_skip, list_skips, label_skips}
use kurultay.Trello.Cards.{
  Fate, placed, left_out, UrlVerdict, storable, refused, classify_url, Draft, add_label, add_labels,
  add_link, add_attachments, add_card, add_cards, add_columns, cards_in,
}
use kurultay.Trello.Checks.{
  ordered_items, checklist_fate_skips, checklist_skips, checklists_of, CheckDraft, add_checklist,
  add_checklists, add_tasks,
}

-- The cards among the entries.
abbrev pub skipped_cards : List Skip → ℕ
skipped_cards ks = skipped card archived ks + skipped card malformed ks

skipped-append :
    (scope : SkipScope) (reason : SkipReason) (ks ls : List Skip)
    → skipped scope reason (ks ++ ls) ≡ skipped scope reason ks + skipped scope reason ls
skipped-append scope reason [] ls = omega arith
skipped-append scope reason (k ∷ ks) ls = ground (arith, skipped-append scope reason ks ls)

pub skipped_cards-append :
    (ks ls : List Skip) → skipped_cards (ks ++ ls) ≡ skipped_cards ks + skipped_cards ls
skipped_cards-append ks ls =
    omega (arith, skipped-append card archived ks ls, skipped-append card malformed ks ls)

abbrev pub NoCards : List Skip → Type 0
NoCards = All (λ (k : Skip). (scope_index k.scope == scope_index card) ≡ false)

skipped-NoCards : (reason : SkipReason) (ks : List Skip) → NoCards ks → skipped card reason ks ≡ 0
skipped-NoCards reason [] h = refl
skipped-NoCards reason (k ∷ ks) h = ground (arith, h.0, skipped-NoCards reason ks h.1)

pub skipped_cards-NoCards : (ks : List Skip) → NoCards ks → skipped_cards ks ≡ 0
skipped_cards-NoCards ks h =
    omega (arith, skipped-NoCards archived ks h, skipped-NoCards malformed ks h)

NoCards-map :
    {T : Type 0} (f : T → Skip) (xs : List T)
    → ((x : T) → (scope_index (f x).scope == scope_index card) ≡ false)
    → NoCards (map f xs)
NoCards-map f [] h = tt
NoCards-map f (x ∷ xs) h = (h x, NoCards-map f xs h)

module _ (n : Number) (r : Runtime) where
  list_skip-scope :
      (l : TrelloList n.Num) → (scope_index (list_skip n r l).scope == scope_index card) ≡ false
  unfolding scope_index
  list_skip-scope l = elim (Bool-cases l.closed) [ inl e ↦ rw e refl | inr e ↦ rw e refl ]

  pub list_skips-NoCards : (ls : List (TrelloList n.Num)) → NoCards (list_skips n r ls)
  unfolding list_skips
  list_skips-NoCards ls = NoCards-map (list_skip n r) (keep_if _ ls) list_skip-scope

  pub label_skips-NoCards : (ls : List TrelloLabel) → NoCards (label_skips r ls)
  unfolding label_skips scope_index
  label_skips-NoCards ls = NoCards-map _ (keep_if _ ls) (λ l. refl)

  pub checklist_skips-NoCards :
      (fate : TrelloChecklist n.Num → Fate) (cs : List (TrelloChecklist n.Num))
      → NoCards (checklist_skips n r fate cs)
  unfolding checklist_skips scope_index
  checklist_skips-NoCards fate [] = tt
  checklist_skips-NoCards fate (c ∷ cs) =
      All-append _ (checklist_fate_skips n r c (fate c)) _ (one (fate c))
        (checklist_skips-NoCards fate cs)
    where
      one : (f : Fate) → NoCards (checklist_fate_skips n r c f)
      one (placed t) = tt
      one (left_out reason) = (refl, tt)

  -- The entries of the loops over the columns and over the tasks.
  add_labels-NoCards :
      (ids : List (String × ℕ)) (t : ℕ) (name : String) (xs : List String) (s : List ℕ × Draft n r)
      → NoCards s.1.skips
      → NoCards (add_labels n r ids t name xs s).1.skips
  unfolding add_labels scope_index
  add_labels-NoCards ids t name [] s h = h
  add_labels-NoCards ids t name (x ∷ xs) s h =
      add_labels-NoCards ids t name xs _ (one (lookup_last x ids) s.0 s.1 h)
    where
      one :
          (found : Option ℕ) (attached : List ℕ) (d : Draft n r)
          → NoCards d.skips
          → NoCards (add_label n r t name found (attached, d)).1.skips
      one none attached d k = All-append _ d.skips _ k (refl, tt)
      one (some l) attached d k = elim (Bool-cases (any_of (λ i. i == l) attached)) [
        | inl seen ↦ rw seen k
        | inr new ↦ rw new k
      ]

  add_attachments-NoCards :
      (a t : ℕ) (xs : List TrelloAttachment) (d : Draft n r)
      → NoCards d.skips
      → NoCards (add_attachments n r a t xs d).skips
  unfolding add_attachments scope_index
  add_attachments-NoCards a t [] d h = h
  add_attachments-NoCards a t (x ∷ xs) d h =
      add_attachments-NoCards a t xs _ (one (classify_url r x.url))
    where
      one : (verdict : UrlVerdict) → NoCards (add_link n r a t x verdict d).skips
      one (storable url) = h
      one (refused reason) = All-append _ d.skips _ h (refl, tt)

  module _ (b a : ℕ) (ids : List (String × ℕ)) where
    add_cards-NoCards :
        (column_id count index : ℕ) (cs : List (TrelloCard n.Num)) (d : Draft n r)
        → NoCards d.skips
        → NoCards (add_cards n r b a ids column_id count index cs d).skips
    unfolding add_cards add_card
    add_cards-NoCards column_id count index [] d h = h
    add_cards-NoCards column_id count index (c ∷ cs) d h =
        add_cards-NoCards column_id count (suc index) cs _ (
          add_attachments-NoCards a d.next c.attachments _
            (add_labels-NoCards ids d.next c.name c.id_labels _ h))

    pub add_columns-NoCards :
        (fate : TrelloCard n.Num → Fate) (cards : List (TrelloCard n.Num))
        (columns : List (PlanColumn n.Num)) (d : Draft n r)
        → NoCards d.skips
        → NoCards (add_columns n r b a ids fate cards columns d).skips
    unfolding add_columns
    add_columns-NoCards fate cards [] d h = h
    add_columns-NoCards fate cards (c ∷ columns) d h =
        add_columns-NoCards fate cards columns _
          (add_cards-NoCards c.id _ 0 (cards_in n r fate c.id cards) d h)

  add_checklists-NoCards :
      (t count index : ℕ) (cs : List (TrelloChecklist n.Num)) (d : CheckDraft n r)
      → NoCards d.skips
      → NoCards (add_checklists n r t count index cs d).skips
  unfolding add_checklists add_checklist scope_index
  add_checklists-NoCards t count index [] d h = h
  add_checklists-NoCards t count index (c ∷ cs) d h =
      add_checklists-NoCards t count (suc index) cs _ (
        All-append _ d.skips _ h (
          NoCards-map (λ (i : TrelloCheckItem n.Num). skip checklist_item malformed none)
            (keep_if (λ i. is_unnamed r i.name) (ordered_items n r c)) (λ i. refl)))

  pub add_tasks-NoCards :
      (fate : TrelloChecklist n.Num → Fate) (cs : List (TrelloChecklist n.Num))
      (ts : List (PlanTask n.Num)) (d : CheckDraft n r)
      → NoCards d.skips
      → NoCards (add_tasks n r fate cs ts d).skips
  unfolding add_tasks
  add_tasks-NoCards fate cs [] d h = h
  add_tasks-NoCards fate cs (t ∷ ts) d h =
      add_tasks-NoCards fate cs ts _
        (add_checklists-NoCards t.id _ 0 (checklists_of n r fate t.id cs) d h)
