-- ===== src/Checklists/Move.antt =====
-- `ChecklistService.move`: the checklist goes behind the named one, or to the front.
use mathlib.Core.List.Perm
use mathlib.Core.Bool.{true≢false}
use kurultay.Base.{
  ℕ, suc, ◌+◌, ◌≤◌, ◌≡◌, refl, sym, subst, ◌∙◌, inl, inr, not, Bool, true, false, Option, none,
  some, List, [], ◌∷◌, arith, Perm, length, get_elem?, find_first, any_of, All, ◌==◌, Bool-cases,
  Option-cases, not_found, ok, >>=-eq-ok, throw_if, throw_if-eq-ok, ok-injective,
}
use kurultay.Base.Perms.{IsAbsent, IsDistinct, perm-All, perm-IsDistinct, keep_if-perm, Bool_set}
use kurultay.Ordering.Number.{Number}
use kurultay.Ordering.Fractional.{needs_rebalance}
use kurultay.Ordering.Chain.{IsOrdered}
use kurultay.Ordering.Slots.{Sibling, item_before, find_index}
use kurultay.Ordering.Slots.Laws.{id_of, find_index-get}
use kurultay.Ordering.Tables.{
  update_where, without, rows_in-IsAbsent, rows_in-IsDistinct, rows_in-update, without-IsDistinct,
  without-IsAbsent,
}
use kurultay.Ordering.Placement.{pos_of, IsFine, IsPlaced, midpoint-IsPlaced}
use kurultay.Store.{Task}
use kurultay.Tasks.{find_task}
use kurultay.Checklists.{
  Checklist, Checked, PositionReads, checklist_sibling, checklists_in, index_after, move,
}
use kurultay.Checklists.Create.{emit_updated-checklists}

module _ {Num : Type 0} where
  any_of-false :
      (p : Sibling Num → Bool) (xs : List (Sibling Num))
      → any_of p xs ≡ false
      → All (λ x. p x ≡ false) xs
  any_of-false p [] h = tt
  any_of-false p (x ∷ xs) h = (ground arith, any_of-false p xs (ground arith))

  All-any_of :
      (p : Sibling Num → Bool) (xs : List (Sibling Num))
      → All (λ x. p x ≡ false) xs
      → any_of p xs ≡ false
  All-any_of p [] h = refl
  All-any_of p (x ∷ xs) h = rw h.0 (All-any_of p xs h.1)

  any_of-perm :
      (p : Sibling Num → Bool) {xs ys : List (Sibling Num)}
      → Perm xs ys
      → any_of p ys ≡ true
      → any_of p xs ≡ true
  any_of-perm p {xs} {ys} perm h = elim (Bool-cases (any_of p xs)) [
    | inl there ↦ there
    | inr missing ↦ absurd (
        true≢false (
          sym h
          ∙ All-any_of p ys (
              perm-All (λ x. p x ≡ false) (λ x. Bool_set (p x) false) perm
                (any_of-false p xs missing))))
  ]

  absent_unlisted :
      (i : ℕ) (xs : List (Sibling Num))
      → IsAbsent (λ x. x.id) i xs
      → any_of (λ row. row.id == i) xs ≡ false
  absent_unlisted i [] h = refl
  absent_unlisted i (x ∷ xs) h = ground (arith, absent_unlisted i xs h.1)

  -- A checklist that a task lists is the one of its id, and is the task's.
  listed :
      (task_id i : ℕ) (cs : List (Checklist Num))
      → IsDistinct (λ (c : Checklist Num). c.id) cs
      → any_of (λ row. row.id == i) (checklists_in task_id cs) ≡ true
      → (c : Checklist Num) × (find_first (λ x. x.id == i) cs ≡ some c)
        × (c.task_id ≡ task_id)
        × (c.id ≡ i)
  listed task_id i [] d h = cc
  listed task_id i (x ∷ xs) d h = elim (Bool-cases (x.id == i)) [
    | inl hit ↦ elim (Bool-cases (x.task_id == task_id)) [
      | inl here ↦ (x, rw hit refl, ground arith, ground arith)
      | inr away ↦ absurd (
          true≢false (
            sym (rw away at h)
            ∙ absent_unlisted i (checklists_in task_id xs) (
                rows_in-IsAbsent (λ c. c.task_id) checklist_sibling i task_id xs
                  (subst (λ a. IsAbsent (λ (c : Checklist Num). c.id) a xs) (ground arith) d.0))))
    ]
    | inr miss ↦
        let (c, e, same, id_eq) = listed task_id i xs d.1 (ground arith) in
        (c, rw (miss, e) refl, same, id_eq)
  ]

module _ (n : Number) (reads : PositionReads n) where
  -- The other checklists of the task, as they are read.
  abbrev pub others : Checked n.Num → (task_id checklist_id : ℕ) → List (Sibling n.Num)
  others s task_id checklist_id =
      without checklist_id (reads.order_by_position (checklists_in task_id s.checklists))

  index_after_lem :
      (after_id : Option ℕ) (xs : List (Sibling n.Num)) {i : ℕ}
      → index_after n reads after_id xs ≡ ok i
      → (i ≤ length xs) × (id_of (item_before xs i) ≡ after_id)
  unfolding index_after
  index_after_lem none xs e =
      subst (λ i. (i ≤ length xs) × (id_of (item_before xs i) ≡ none)) (ok-injective e)
        (omega arith, refl)
  index_after_lem (some a) xs e = elim (Option-cases (find_index a xs)) [
    | inl missed ↦ cc (rw (missed, index_after) at e)
    | inr (j, found) ↦
        let (below, same) = find_index-get a xs j found in
        let i_eq : suc j ≡ _ = step j ∙ ok-injective (rw (found, index_after) at e) in
        subst (λ i. (i ≤ length xs) × (id_of (item_before xs i) ≡ some a)) i_eq (omega arith, same)
  ]
    where
      step : (j : ℕ) → suc j ≡ j + 1
      step j = omega arith

  module _ (s : Checked n.Num) (task_id i : ℕ)
      (distinct : IsDistinct (λ (c : Checklist n.Num). c.id) s.checklists) where
    xs : List (Sibling n.Num)
    xs = others s task_id i

    xs-IsDistinct : IsDistinct (λ x. x.id) xs
    unfolding xs
    xs-IsDistinct = without-IsDistinct i _ (
        perm-IsDistinct (λ x. x.id) (reads.order_by_position-perm _)
          (rows_in-IsDistinct (λ c. c.task_id) checklist_sibling task_id s.checklists distinct))

    placed_perm :
        (p : n.Num)
        → any_of (λ row. row.id == i) (reads.order_by_position (checklists_in task_id s.checklists))
          ≡ true
        → Perm
            (checklists_in task_id
              (update_where (λ c. c.id == i) (λ c. record c { position = p }) s.checklists))
            (record { id = i; position = p } ∷ xs)
    unfolding xs
    placed_perm p there =
        let (c, found, of_task, id_eq) =
          listed task_id i s.checklists distinct
            (any_of-perm (λ row. row.id == i) (reads.order_by_position-perm _) there) in
        Perm.trans
          (subst
            (λ a.
              Perm
                (checklists_in task_id
                  (update_where (λ c. c.id == i) (λ c. record c { position = p }) s.checklists))
                (record { id = a; position = p } ∷ without i (checklists_in task_id s.checklists)))
            id_eq
            (rows_in-update (λ c. c.task_id) checklist_sibling (λ c. c.id == i) i
              (λ x h. ground arith) task_id (λ c. record c { position = p }) s.checklists distinct
              found of_task))
          (Perm.cons _ (keep_if-perm _ (reads.order_by_position-perm _)))

  -- A moved checklist stands behind the named one, or at the front, and the others keep their
  -- order. The hypotheses: checklist ids are distinct, the others are read strictly in order, their
  -- positions are fine enough to split a gap, and the gap behind the named one, or at the front, is
  -- no narrower than `MIN_GAP`, which the code does not test here.
  pub move_checklist-IsPlaced :
      (s : Checked n.Num) (workspace_id task_id actor_id checklist_id : ℕ) (after_id : Option ℕ)
      (t : Task n.Num) (s' : Checked n.Num)
      → let remaining = others s task_id checklist_id in
        move n reads s workspace_id task_id actor_id checklist_id after_id ≡ ok (t, s')
        → IsDistinct (λ (c : Checklist n.Num). c.id) s.checklists
        → IsOrdered n remaining
        → IsFine n remaining
        → ((i : ℕ)
            → i ≤ length remaining
            → id_of (item_before remaining i) ≡ after_id
            → needs_rebalance n (pos_of (item_before remaining i)) (pos_of (get_elem? remaining i))
              ≡ false)
        → (i : ℕ) × (id_of (item_before remaining i) ≡ after_id)
          × IsPlaced n (checklists_in task_id s'.checklists) remaining checklist_id i
  unfolding move xs
  move_checklist-IsPlaced s w task_id u checklist_id after_id t s' e distinct ordered fine wide =
      let (task, e0, e1) = >>=-eq-ok (find_task s.store w task_id) _ e in
      let siblings = reads.order_by_position (checklists_in task_id s.checklists) in
      let (v, e2, e3) =
        >>=-eq-ok
          (throw_if (not (any_of (λ row. row.id == checklist_id) siblings))
            (not_found "Checklist not found"))
          _ e1 in
      let (i, e4, e5) =
        >>=-eq-ok (index_after n reads after_id (others s task_id checklist_id)) _ e3 in
      let (le, behind) = index_after_lem after_id (others s task_id checklist_id) e4 in
      let there : any_of (λ row. row.id == checklist_id) siblings ≡ true =
        ground (arith, throw_if-eq-ok _ _ e2) in
      (
        i,
        behind,
        subst
            (λ cs.
              IsPlaced n (checklists_in task_id cs) (others s task_id checklist_id) checklist_id i)
            (sym (emit_updated-checklists _ w task_id u e5))
            (midpoint-IsPlaced n (others s task_id checklist_id) checklist_id i le
              (without-IsAbsent checklist_id siblings)
              (xs-IsDistinct s task_id checklist_id distinct) _ ordered fine (wide i le behind)
              (placed_perm s task_id checklist_id distinct _ there)),
      )
