-- ===== src/Columns/Move.antt =====
-- `ColumnService.move`: the column takes the slot between the named neighbours.
use mathlib.Core.List.Perm
use kurultay.Base.{
  ℕ, ◌+◌, ◌≤◌, ◌≡◌, refl, sym, ap, subst, ◌∙◌, inl, inr, ◌||◌, true, some, List, ◌∷◌, arith, map,
  Perm, length, get_elem?, find_first, find_first-holds, if◌then◌else◌, Bool-cases, ok, >>=-eq-ok,
  throw_if, or_throw-eq-ok, ok-injective, bad_request,
}
use kurultay.Base.Perms.{perm_of_eq, IsAbsent, IsDistinct, perm-IsDistinct, keep_if-perm}
use kurultay.Ordering.Number.{Number}
use kurultay.Ordering.Fractional.{needs_rebalance}
use kurultay.Ordering.Slots.{Sibling, InsertionSlot, item_before, resolve_move_neighbors}
use kurultay.Ordering.Slots.Laws.{IsSlotFor, slice_at, slice_at_lem, resolve_move-IsSlotFor}
use kurultay.Ordering.Chain.{IsOrdered, keep_if-IsOrdered}
use kurultay.Ordering.Respread.{reposition, other_updates}
use kurultay.Ordering.Tables.{
  without, without-IsAbsent, without-IsDistinct, rows_in-IsDistinct, rows_in-update,
}
use kurultay.Ordering.Placement.{
  pos_of, SortedReads, IsFine, IsPlaced, midpoint-IsPlaced, move-IsPlaced as respread-IsPlaced,
}
use kurultay.Store.{Column, Store, column_sibling}
use kurultay.Columns.{
  MoveColumnDto, ColumnDto, columns_in, is_column_of, find_column, write_move, move,
}
use kurultay.Tasks.{is_id}
use kurultay.Columns.Create.{columns_in-batch}

module _ {Num : Type 0} where
  is_column_of-id :
      (s : Store Num) (w i : ℕ) (x : Column Num) → is_column_of s w i x ≡ true → x.id ≡ i
  is_column_of-id s w i x h = ground arith

module _ (n : Number) (reads : SortedReads n) where
  -- The other columns of a board, in position order.
  abbrev pub others : Store n.Num → ℕ → ℕ → List (Sibling n.Num)
  others s board_id column_id = without column_id (reads.order_by (columns_in board_id s.columns))

  module _ (s : Store n.Num) (w column_id : ℕ) (column : Column n.Num)
      (found : find_first (is_column_of s w column_id) s.columns ≡ some column)
      (distinct : IsDistinct (λ (x : Column n.Num). x.id) s.columns) where
    xs : List (Sibling n.Num)
    xs = others s column.board_id column_id

    place_at : n.Num → Column n.Num → Column n.Num
    place_at position t = record t { position = position }

    id_eq : column.id ≡ column_id
    id_eq = is_column_of-id s w column_id column (find_first-holds _ s.columns found)

    columns_in-IsDistinct : IsDistinct (λ s. s.id) (columns_in column.board_id s.columns)
    columns_in-IsDistinct = rows_in-IsDistinct _ column_sibling column.board_id s.columns distinct

    xs-IsOrdered : IsOrdered n xs
    unfolding xs
    xs-IsOrdered =
        keep_if-IsOrdered n _ _
          (reads.order_by-IsOrdered (columns_in column.board_id s.columns) columns_in-IsDistinct)

    xs-IsDistinct : IsDistinct (λ s. s.id) xs
    unfolding xs
    xs-IsDistinct = without-IsDistinct column_id _ (
        perm-IsDistinct _ (reads.order_by-perm (columns_in column.board_id s.columns))
          columns_in-IsDistinct)

    xs-IsAbsent : IsAbsent (λ s. s.id) column.id xs
    unfolding xs
    xs-IsAbsent = subst (λ a. IsAbsent (λ s. s.id) a xs) (sym id_eq) (without-IsAbsent column_id _)

    placed_perm :
        (p : n.Num)
        → Perm
            (columns_in column.board_id
              (map (λ t. if is_column_of s w column_id t then place_at p t else t) s.columns))
            (record { id = column.id; position = p } ∷ xs)
    unfolding xs place_at
    placed_perm p =
        Perm.trans
          (rows_in-update (λ t. t.board_id) column_sibling (is_column_of s w column_id) column_id
            (is_column_of-id s w column_id) column.board_id (place_at p) s.columns distinct found
            refl)
          (Perm.cons _
            (keep_if-perm _ (reads.order_by-perm (columns_in column.board_id s.columns))))

    write_move-IsPlaced :
        (i : ℕ)
        → i ≤ length xs
        → IsFine n xs
        → length xs + 1 ≤ n.max_length
        → IsPlaced n
            (columns_in column.board_id (write_move n s w column_id column (slice_at xs i) xs).1)
            xs
            column.id
            i
    unfolding write_move place_at
    write_move-IsPlaced i le fine small =
        elim (Bool-cases
          (needs_rebalance n (pos_of (item_before xs i)) (pos_of (get_elem? xs i)))) [
            | inl close ↦ rw close (
                respread-IsPlaced n xs column.id i le xs-IsAbsent xs-IsDistinct _ column.position
                  small
                  (Perm.trans
                    (perm_of_eq (
                      columns_in-batch column.board_id
                        (other_updates n i (column_sibling column) xs) _))
                    (Perm.map (reposition (other_updates n i (column_sibling column) xs))
                      (placed_perm _))))
            | inr wide ↦ rw wide (
                midpoint-IsPlaced n xs column.id i le xs-IsAbsent xs-IsDistinct _ xs-IsOrdered fine
                  wide (placed_perm _))
          ]

  -- A moved column is the one of that id in the workspace, as it was but for its position: it stays
  -- on its board. There it stands in the slot between the
  -- columns that the request names, or at the end; the other columns keep their order, and the
  -- board's columns, listed by position, are strictly in order. The hypotheses: column ids are
  -- distinct, the positions of the other columns are fine enough to split a gap, and an array can
  -- hold them and the moved one.
  pub move_column-IsPlaced :
      (s : Store n.Num) (workspace_id column_id actor_id : ℕ) (dto : MoveColumnDto)
      (d : ColumnDto n.Num) (s' : Store n.Num)
      → let board_id = d.column.board_id in
        let remaining = others s board_id column_id in
        move n reads s workspace_id column_id actor_id dto ≡ ok (d, s')
        → IsDistinct (λ (x : Column n.Num). x.id) s.columns
        → IsFine n remaining
        → length remaining + 1 ≤ n.max_length
        → (slot : InsertionSlot n.Num) × (d.column.id ≡ column_id)
          × ((before : Column n.Num) × (find_first (is_column_of s workspace_id column_id) s.columns
                ≡ some before)
              × (d.column ≡ record before { position = d.column.position }))
          × IsSlotFor remaining dto.before_column_id dto.after_column_id slot
          × IsPlaced n (columns_in board_id s'.columns) remaining column_id slot.insertion_index
  unfolding move find_column xs
  move_column-IsPlaced s workspace_id column_id actor_id dto d s' e distinct =
      let (column, e0, e1) = >>=-eq-ok (find_column s workspace_id column_id) _ e in
      let (u, e2, e3) =
        >>=-eq-ok
          (throw_if (is_id dto.before_column_id column_id || is_id dto.after_column_id column_id)
            (bad_request "A column cannot be its own neighbor"))
          _ e1 in
      let (slot, e4, e5) =
        >>=-eq-ok
          (resolve_move_neighbors (others s column.board_id column_id) dto.before_column_id
            dto.after_column_id)
          _ e3 in
      let found = or_throw-eq-ok _ _ e0 in
      let id_eq =
        is_column_of-id s workspace_id column_id column (find_first-holds _ s.columns found) in
      let for_slot = resolve_move-IsSlotFor _ dto.before_column_id dto.after_column_id _ e4 in
      subst
        (λ b.
          IsFine n (others s b column_id)
          → length (others s b column_id) + 1 ≤ n.max_length
          → (slot : InsertionSlot n.Num) × (d.column.id ≡ column_id)
            × ((before : Column n.Num) × (find_first (is_column_of s workspace_id column_id)
                    s.columns
                  ≡ some before)
                × (d.column ≡ record before { position = d.column.position }))
            × IsSlotFor (others s b column_id) dto.before_column_id dto.after_column_id slot
            × IsPlaced n (columns_in b s'.columns) (others s b column_id) column_id
                slot.insertion_index)
        (ap (λ p. p.0.column.board_id) (ok-injective e5))
        (λ fine small. (
          slot,
          sym (ap (λ p. p.0.column.id) (ok-injective e5)) ∙ id_eq,
          (
            column,
            found,
            subst (λ c. c ≡ record column { position = c.position })
                (ap (λ p. p.0.column) (ok-injective e5)) refl,
          ),
          for_slot,
          subst
              (λ a.
                IsPlaced n (columns_in column.board_id s'.columns)
                  (others s column.board_id column_id) a slot.insertion_index)
              id_eq
              (subst
                (λ rows.
                  IsPlaced n (columns_in column.board_id rows) (others s column.board_id column_id)
                    column.id slot.insertion_index)
                (sym (
                  sym (ap (λ p. p.1.columns) (ok-injective e5))
                  ∙ ap
                      (λ z.
                        (write_move n s workspace_id column_id column z
                          (others s column.board_id column_id)).1)
                      (slice_at_lem for_slot.slice)))
                (write_move-IsPlaced s workspace_id column_id column found distinct
                  slot.insertion_index for_slot.slice.in_range fine small)),
        ))
