-- ===== src/Columns/Create.antt =====
-- `ColumnService.create`: the new column takes the slot behind the named column.
use mathlib.Core.List.{map-append, perm_append_singleton}
use mathlib.Core.List.Perm
use kurultay.Base.{
  ℕ, ◌+◌, ◌≤◌, ◌≡◌, refl, sym, ap, subst, ◌∙◌, ◌≢◌, inl, inr, none, List, [], ◌∷◌, ◌++◌, arith, map,
  Perm, length, get_elem?, keep_if-append, ◌==◌, ==_iff, if◌then◌else◌, Bool-cases, ok, >>=-eq-ok,
  ok-injective,
}
use kurultay.Base.Perms.{IsAbsent, IsDistinct, perm-IsDistinct, perm-IsAbsent}
use kurultay.Ordering.Number.{Number}
use kurultay.Ordering.Fractional.{needs_rebalance}
use kurultay.Ordering.Slots.{Sibling, InsertionSlot, item_before, resolve_create_neighbors}
use kurultay.Ordering.Slots.Laws.{
  IsSlice, IsSlotFor, slice_at, slice_at_lem, resolve_create-IsSlotFor,
}
use kurultay.Ordering.Respread.{reposition, create_updates}
use kurultay.Ordering.Chain.{IsOrdered}
use kurultay.Ordering.Tables.{rows_in-IsAbsent, rows_in-IsDistinct}
use kurultay.Ordering.Placement.{
  pos_of, SortedReads, IsFine, IsPlaced, midpoint-IsPlaced, create-IsPlaced as respread-IsPlaced,
}
use kurultay.Store.{Column, Store, column_sibling, assert_board}
use kurultay.Columns.{
  columns_in, batch_update_column_positions, CreateColumnDto, ColumnDto, make_room, create,
}

module _ {Num : Type 0} where
  -- The batch repositions the board's columns and nothing else of them.
  pub columns_in-batch :
      (c : ℕ) (us : List (Sibling Num)) (ts : List (Column Num))
      → columns_in c (batch_update_column_positions c us ts) ≡ map (reposition us) (columns_in c ts)
  unfolding batch_update_column_positions reposition
  columns_in-batch c us [] = refl
  columns_in-batch c us (t ∷ ts) = ground (arith, columns_in-batch c us ts)

  pub columns_in-batch_elsewhere :
      (c d : ℕ) (us : List (Sibling Num)) (ts : List (Column Num))
      → d ≢ c
      → columns_in d (batch_update_column_positions c us ts) ≡ columns_in d ts
  unfolding batch_update_column_positions
  columns_in-batch_elsewhere c d us [] h = refl
  columns_in-batch_elsewhere c d us (t ∷ ts) h =
      ground (arith, columns_in-batch_elsewhere c d us ts h)

  columns_in-snoc :
      (c : ℕ) (t : Column Num) (ts : List (Column Num))
      → t.board_id ≡ c
      → Perm (columns_in c (ts ++ t ∷ [])) (column_sibling t ∷ columns_in c ts)
  columns_in-snoc c t ts e =
      subst (λ rows. Perm rows (column_sibling t ∷ columns_in c ts))
        (sym (
          ap (map column_sibling) (keep_if-append (λ x. x.board_id == c) ts (t ∷ []))
          ∙ map-append _ _ _
          ∙ ap (λ b. columns_in c ts ++ map column_sibling (if b then t ∷ [] else []))
              ((==_iff t.board_id c).1 e)))
        (perm_append_singleton (column_sibling t) (columns_in c ts))

module _ (n : Number) (reads : SortedReads n) where
  -- The room that `make_room` leaves is the slot, whichever way it makes it.
  make_room-IsPlaced :
      (c i : ℕ) (ts : List (Column n.Num)) (t : Column n.Num)
      → let xs = reads.order_by (columns_in c ts) in
        let room = make_room n c (slice_at xs i) xs ts in
        i ≤ length xs
        → length xs + 1 ≤ n.max_length
        → IsFine n xs
        → IsDistinct (λ (x : Column n.Num). x.id) ts
        → IsAbsent (λ (x : Column n.Num). x.id) t.id ts
        → t.board_id ≡ c
        → t.position ≡ room.0
        → IsPlaced n (columns_in c (room.1 ++ t ∷ [])) xs t.id i
  unfolding make_room
  make_room-IsPlaced c i ts t le small fine distinct absent e pos =
      elim (Bool-cases (needs_rebalance n (pos_of (item_before xs i)) (pos_of (get_elem? xs i)))) [
        | inl close ↦ rw close (
            respread-IsPlaced n xs t.id i le absent_xs distinct_xs _ small (
              Perm.trans (columns_in-snoc c t _ e) (
                Perm.cons' (at_position (rw close at pos)) (
                  subst (λ rows. Perm rows (map (reposition (create_updates n i xs)) xs))
                    (sym (columns_in-batch c (create_updates n i xs) ts))
                    (Perm.map _ (reads.order_by-perm (columns_in c ts)))))))
        | inr wide ↦ rw wide (
            midpoint-IsPlaced n xs t.id i le absent_xs distinct_xs _ ordered fine wide (
              Perm.trans (columns_in-snoc c t ts e) (
                Perm.cons' (at_position (rw wide at pos)) (reads.order_by-perm (columns_in c ts)))))
      ]
    where
      xs : List (Sibling n.Num)
      xs = reads.order_by (columns_in c ts)

      columns_in-IsDistinct : IsDistinct (λ s. s.id) (columns_in c ts)
      columns_in-IsDistinct = rows_in-IsDistinct _ column_sibling c ts distinct

      ordered : IsOrdered n xs
      ordered = reads.order_by-IsOrdered (columns_in c ts) columns_in-IsDistinct

      distinct_xs : IsDistinct (λ s. s.id) xs
      distinct_xs = perm-IsDistinct _ (reads.order_by-perm (columns_in c ts)) columns_in-IsDistinct

      absent_xs : IsAbsent (λ s. s.id) t.id xs
      absent_xs =
          perm-IsAbsent _ t.id (reads.order_by-perm (columns_in c ts))
            (rows_in-IsAbsent _ column_sibling t.id c ts absent)

      at_position :
          {p : n.Num}
          → t.position ≡ p
          → ◌≡◌ {A = Sibling n.Num} (column_sibling t) (record { id = t.id; position = p })
      at_position h = λ k. record { id = t.id; position = h k }

  make_room-IsPlaced_slot :
      (c : ℕ) (slot : InsertionSlot n.Num) (ts ts' : List (Column n.Num)) (t : Column n.Num)
      → let xs = reads.order_by (columns_in c ts) in
        let room = make_room n c slot xs ts in
        IsSlice xs slot
        → length xs + 1 ≤ n.max_length
        → IsFine n xs
        → IsDistinct (λ (x : Column n.Num). x.id) ts
        → IsAbsent (λ (x : Column n.Num). x.id) t.id ts
        → t.board_id ≡ c
        → t.position ≡ room.0
        → ts' ≡ room.1 ++ t ∷ []
        → IsPlaced n (columns_in c ts') xs t.id slot.insertion_index
  make_room-IsPlaced_slot c slot ts ts' t slice small fine distinct absent e pos e' =
      subst (λ rows. IsPlaced n (columns_in c rows) xs t.id slot.insertion_index)
        (sym (e' ∙ ap (λ z. (make_room n c z xs ts).1 ++ t ∷ []) (slice_at_lem slice)))
        (make_room-IsPlaced c slot.insertion_index ts t slice.in_range small fine distinct absent e
          (pos ∙ ap (λ z. (make_room n c z xs ts).0) (slice_at_lem slice)))
    where
      xs : List (Sibling n.Num)
      xs = reads.order_by (columns_in c ts)

  -- A created column gets the new id and the request's board. On that board it stands in the slot
  -- behind the column that the request names, or at the end; the other columns keep their order,
  -- and the board's columns, listed by position, are strictly in order. The hypotheses: column ids
  -- are distinct, the new id is not yet used, the positions read are fine enough to split a gap,
  -- and an array can hold one more column.
  pub create_column-IsPlaced :
      (s : Store n.Num) (new_id workspace_id board_id actor_id : ℕ) (dto : CreateColumnDto)
      (d : ColumnDto n.Num) (s' : Store n.Num)
      → let siblings = reads.order_by (columns_in board_id s.columns) in
        create n reads s new_id workspace_id board_id actor_id dto ≡ ok (d, s')
        → IsDistinct (λ (x : Column n.Num). x.id) s.columns
        → IsAbsent (λ (x : Column n.Num). x.id) new_id s.columns
        → IsFine n siblings
        → length siblings + 1 ≤ n.max_length
        → (slot : InsertionSlot n.Num) × (d.column.id ≡ new_id)
          × (d.column.board_id ≡ board_id)
          × IsSlotFor siblings dto.after_column_id none slot
          × IsPlaced n (columns_in board_id s'.columns) siblings new_id slot.insertion_index
  unfolding create
  create_column-IsPlaced s new_id workspace_id board_id actor_id dto d s' e distinct absent fine
        small =
      let (board, e0, e1) = >>=-eq-ok (assert_board s workspace_id board_id) _ e in
      let (slot, e2, e3) =
        >>=-eq-ok
          (resolve_create_neighbors (reads.order_by (columns_in board_id s.columns))
            dto.after_column_id "Column not found")
          _ e1 in
      let found = resolve_create-IsSlotFor _ dto.after_column_id _ slot e2 in
      (
        slot,
        sym (ap (λ p. p.0.column.id) (ok-injective e3)),
        sym (ap (λ p. p.0.column.board_id) (ok-injective e3)),
        found,
        make_room-IsPlaced_slot board_id slot s.columns s'.columns _ found.slice small fine distinct
            absent refl refl (sym (ap (λ p. p.1.columns) (ok-injective e3))),
      )
