-- ===== src/Trello/Sound.antt =====
-- The rows planned for the cards refer to planned rows, and no label hangs twice on a task.
use kurultay.Base.{
  ℕ, suc, ◌<◌, ◌≡◌, refl, subst, inl, inr, ◌&&◌, Bool, true, false, Option, none, some, String,
  List, [], ◌∷◌, ◌++◌, arith, All, any_of, ◌==◌, ==_refl, Bool-cases,
}
use kurultay.Integrity.Keys.{All-append, All-weaken}
use kurultay.Ordering.Number.{Number}
use kurultay.Trello.{
  TrelloCard, TrelloAttachment, PlanColumn, PlanTask, PlanTaskLabel, Runtime, position_for,
  lookup_last,
}
use kurultay.Trello.Cards.{
  Fate, UrlVerdict, storable, refused, classify_url, cards_in, Draft, add_label, add_labels,
  add_link, add_attachments, plan_task, with_task, add_card, add_cards, add_columns,
}

-- `@@unique([taskId, labelId])`
abbrev pub AreOnce : List PlanTaskLabel → Type 0
AreOnce [] = Unit {0}
AreOnce (x ∷ xs) =
    All (λ y. (y.task_id == x.task_id && y.label_id == x.label_id) ≡ false) xs × AreOnce xs

AreOnce-append :
    (xs : List PlanTaskLabel) (y : PlanTaskLabel)
    → AreOnce xs
    → All (λ x. (y.task_id == x.task_id && y.label_id == x.label_id) ≡ false) xs
    → AreOnce (xs ++ y ∷ [])
AreOnce-append [] y h k = (tt, tt)
AreOnce-append (x ∷ xs) y h k =
    (All-append _ xs (y ∷ []) h.0 (k.0, tt), AreOnce-append xs y h.1 k.1)

pub any_of-append :
    {T : Type 0} (p : T → Bool) (xs ys : List T) → any_of p xs ≡ true → any_of p (xs ++ ys) ≡ true
any_of-append p [] ys e = cc
any_of-append p (x ∷ xs) ys e = ground (arith, any_of-append p xs ys)

pub any_of-last :
    {T : Type 0} (p : T → Bool) (xs : List T) (y : T) → p y ≡ true → any_of p (xs ++ y ∷ []) ≡ true
any_of-last p [] y e = rw e
any_of-last p (x ∷ xs) y e = ground (arith, any_of-last p xs y e)

module _ (n : Number) (r : Runtime) (is_column is_label : ℕ → Bool) where
  abbrev pub has_task : List (PlanTask n.Num) → ℕ → Bool
  has_task tasks i = any_of (λ t. t.id == i) tasks

  -- What holds of the rows planned so far.
  pub record IsSoundDraft (d : Draft n r) : Type 0 where
    pub tasks_sound : All (λ t. is_column t.column_id ≡ true) d.tasks
    pub labels_sound :
        All (λ x. (has_task d.tasks x.task_id ≡ true) × (is_label x.label_id ≡ true)) d.task_labels
    pub links_sound : All (λ x. has_task d.tasks x.task_id ≡ true) d.attachments
    pub labels_below : All (λ x. x.task_id < d.next) d.task_labels
    pub labels_once : AreOnce d.task_labels

  -- A task whose labels are being added, and the labels that it has so far.
  record IsLabelling (t : ℕ) (s : List ℕ × Draft n r) : Type 0 where
    sound : IsSoundDraft s.1
    here : has_task s.1.tasks t ≡ true
    below : t < s.1.next
    attached :
        All
          (λ x. (x.task_id == t) ≡ true → any_of (λ i. i == x.label_id) s.0 ≡ true)
          s.1.task_labels

  new_pair :
      (t l : ℕ) (seen : List ℕ) (xs : List PlanTaskLabel)
      → any_of (λ i. i == l) seen ≡ false
      → All (λ x. (x.task_id == t) ≡ true → any_of (λ i. i == x.label_id) seen ≡ true) xs
      → All (λ x. (t == x.task_id && l == x.label_id) ≡ false) xs
  new_pair t l seen [] e h = tt
  new_pair t l seen (x ∷ xs) e h = (
    elim (Bool-cases (t == x.task_id && l == x.label_id)) [
      | inl both ↦
          let on_task : (x.task_id == t) ≡ true = ground arith in
          let same : l ≡ x.label_id = ground arith in
          let was = h.0 on_task in
          let is_not : any_of (λ i. i == x.label_id) seen ≡ false =
            subst (λ k. any_of (λ i. i == k) seen ≡ false) same e in
          cc
      | inr apart ↦ apart
    ],
    new_pair t l seen xs e h.1,
  )

  seen_more :
      (t l : ℕ) (seen : List ℕ) (xs : List PlanTaskLabel)
      → All (λ x. (x.task_id == t) ≡ true → any_of (λ i. i == x.label_id) seen ≡ true) xs
      → All (λ x. (x.task_id == t) ≡ true → any_of (λ i. i == x.label_id) (l ∷ seen) ≡ true) xs
  seen_more t l seen [] h = tt
  seen_more t l seen (x ∷ xs) h =
      ((λ e. let was = h.0 e in ground arith), seen_more t l seen xs h.1)

  below_suc :
      (k : ℕ) (xs : List PlanTaskLabel)
      → All (λ x. x.task_id < k) xs
      → All (λ x. x.task_id < suc k) xs
  below_suc k xs h =
      All-weaken (λ x. x.task_id < k) (λ x. x.task_id < suc k) xs (λ x e. omega arith) h

  add_label-IsLabelling :
      (t : ℕ) (name : String) (found : Option ℕ) (seen : List ℕ) (d : Draft n r)
      → ((k : ℕ) → found ≡ some k → is_label k ≡ true)
      → IsLabelling t (seen, d)
      → IsLabelling t (add_label n r t name found (seen, d))
  add_label-IsLabelling t name none seen d known h = record {
    sound = record {
      tasks_sound = h.sound.tasks_sound;
      labels_sound = h.sound.labels_sound;
      links_sound = h.sound.links_sound;
      labels_below = h.sound.labels_below;
      labels_once = h.sound.labels_once;
    };
    here = h.here;
    below = h.below;
    attached = h.attached;
  }
  add_label-IsLabelling t name (some l) seen d known h =
      elim (Bool-cases (any_of (λ i. i == l) seen)) [
        | inl again ↦ rw again h
        | inr new ↦ rw new (record {
          sound = record {
            tasks_sound = h.sound.tasks_sound;
            labels_sound =
                All-append _ d.task_labels _ h.sound.labels_sound ((h.here, known l refl), tt);
            links_sound = h.sound.links_sound;
            labels_below =
                All-append _ d.task_labels _ (below_suc d.next d.task_labels h.sound.labels_below)
                  (omega (arith, h.below), tt);
            labels_once =
                AreOnce-append d.task_labels _ h.sound.labels_once
                  (new_pair t l seen d.task_labels new h.attached);
          };
          here = h.here;
          below = omega (arith, h.below);
          attached =
              All-append _ d.task_labels _ (seen_more t l seen d.task_labels h.attached)
                ((λ e. ground arith), tt);
        })
      ]

  module _ (label_ids : List (String × ℕ))
      (known : (key : String) (k : ℕ)
        → lookup_last key label_ids ≡ some k
        → is_label k ≡ true) where
    add_labels-IsLabelling :
        (t : ℕ) (name : String) (ids : List String) (s : List ℕ × Draft n r)
        → IsLabelling t s
        → IsLabelling t (add_labels n r label_ids t name ids s)
    unfolding add_labels
    add_labels-IsLabelling t name [] s h = h
    add_labels-IsLabelling t name (x ∷ ids) s h =
        add_labels-IsLabelling t name ids _
          (add_label-IsLabelling t name (lookup_last x label_ids) s.0 s.1 (known x) h)

    add_link-IsSoundDraft :
        (a t : ℕ) (x : TrelloAttachment) (verdict : UrlVerdict) (d : Draft n r)
        → has_task d.tasks t ≡ true
        → IsSoundDraft d
        → (has_task (add_link n r a t x verdict d).tasks t ≡ true)
          × IsSoundDraft (add_link n r a t x verdict d)
    add_link-IsSoundDraft a t x (refused reason) d e h = (
      e,
      record {
        tasks_sound = h.tasks_sound;
        labels_sound = h.labels_sound;
        links_sound = h.links_sound;
        labels_below = h.labels_below;
        labels_once = h.labels_once;
      },
    )
    add_link-IsSoundDraft a t x (storable url) d e h = (
      e,
      record {
        tasks_sound = h.tasks_sound;
        labels_sound = h.labels_sound;
        links_sound = All-append _ d.attachments _ h.links_sound (e, tt);
        labels_below = below_suc d.next d.task_labels h.labels_below;
        labels_once = h.labels_once;
      },
    )

    add_attachments-IsSoundDraft :
        (a t : ℕ) (xs : List TrelloAttachment) (d : Draft n r)
        → has_task d.tasks t ≡ true
        → IsSoundDraft d
        → IsSoundDraft (add_attachments n r a t xs d)
    unfolding add_attachments
    add_attachments-IsSoundDraft a t [] d e h = h
    add_attachments-IsSoundDraft a t (x ∷ xs) d e h =
        let linked = add_link-IsSoundDraft a t x (classify_url r x.url) d e h in
        add_attachments-IsSoundDraft a t xs _ linked.0 linked.1

    with_task-IsLabelling :
        (b a column_id : ℕ) (position : n.Num) (c : TrelloCard n.Num) (d : Draft n r)
        → is_column column_id ≡ true
        → IsSoundDraft d
        → IsLabelling d.next ([], with_task n r b a column_id position c d)
    with_task-IsLabelling b a column_id position c d e h =
        let task = plan_task n r b a column_id d.next position c in
        record {
          sound = record {
            tasks_sound = All-append _ d.tasks (task ∷ []) h.tasks_sound (e, tt);
            labels_sound =
                All-weaken _ _ d.task_labels
                  (λ x k. (any_of-append (λ t. t.id == x.task_id) d.tasks (task ∷ []) k.0, k.1))
                  h.labels_sound;
            links_sound =
                All-weaken _ _ d.attachments
                  (λ x k. any_of-append (λ t. t.id == x.task_id) d.tasks (task ∷ []) k)
                  h.links_sound;
            labels_below = below_suc d.next d.task_labels h.labels_below;
            labels_once = h.labels_once;
          };
          here = any_of-last (λ t. t.id == d.next) d.tasks task (==_refl d.next);
          below = omega arith;
          attached =
              All-weaken _ _ d.task_labels (λ x k e. absurd (ground (arith, k))) h.labels_below;
        }

    module _ (b a : ℕ) where
      add_card-IsSoundDraft :
          (column_id count index : ℕ) (c : TrelloCard n.Num) (d : Draft n r)
          → is_column column_id ≡ true
          → IsSoundDraft d
          → IsSoundDraft (add_card n r b a label_ids column_id count index c d)
      unfolding add_card
      add_card-IsSoundDraft column_id count index c d e h =
          let labelled =
            add_labels-IsLabelling d.next c.name c.id_labels _
              (with_task-IsLabelling b a column_id (position_for n count index) c d e h) in
          add_attachments-IsSoundDraft a d.next c.attachments _ labelled.here labelled.sound

      add_cards-IsSoundDraft :
          (column_id count index : ℕ) (cs : List (TrelloCard n.Num)) (d : Draft n r)
          → is_column column_id ≡ true
          → IsSoundDraft d
          → IsSoundDraft (add_cards n r b a label_ids column_id count index cs d)
      unfolding add_cards
      add_cards-IsSoundDraft column_id count index [] d e h = h
      add_cards-IsSoundDraft column_id count index (c ∷ cs) d e h =
          add_cards-IsSoundDraft column_id count (suc index) cs _ e
            (add_card-IsSoundDraft column_id count index c d e h)

      pub add_columns-IsSoundDraft :
          (fate : TrelloCard n.Num → Fate) (cards : List (TrelloCard n.Num))
          (columns : List (PlanColumn n.Num)) (d : Draft n r)
          → All (λ c. is_column c.id ≡ true) columns
          → IsSoundDraft d
          → IsSoundDraft (add_columns n r b a label_ids fate cards columns d)
      unfolding add_columns
      add_columns-IsSoundDraft fate cards [] d e h = h
      add_columns-IsSoundDraft fate cards (c ∷ columns) d e h =
          add_columns-IsSoundDraft fate cards columns _ e.1
            (add_cards-IsSoundDraft c.id _ 0 (cards_in n r fate c.id cards) d e.0 h)
