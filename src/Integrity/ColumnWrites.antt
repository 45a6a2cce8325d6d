-- ===== src/Integrity/ColumnWrites.antt =====
-- The handlers of `ColumnService` keep every column on a board, and every task in a column.
use kurultay.Base.{
  ℕ, ◌≡◌, refl, ap, subst, ◌∙◌, inl, inr, ◌&&◌, ◌||◌, Bool, true, not, List, ◌++◌, arith, length,
  keep_if, find_first-holds, All, ltb, ◌==◌, Bool-cases, ok, >>=-eq-ok, throw_if, throw_if-eq-ok,
  or_throw-eq-ok, ok-injective, bad_request, not_found, conflict,
}
use kurultay.Ordering.Number.{Number}
use kurultay.Ordering.Fractional.{needs_rebalance}
use kurultay.Ordering.Respread.{reposition}
use kurultay.Ordering.Slots.{
  Sibling, InsertionSlot, resolve_move_neighbors, resolve_create_neighbors,
}
use kurultay.Ordering.Tables.{update_where}
use kurultay.Ordering.Placement.{pos_of, SortedReads}
use kurultay.Store.{Board, Column, Task, Store, column_sibling, assert_board}
use kurultay.Tasks.{is_id}
use kurultay.Columns.{
  CreateColumnDto, UpdateColumnDto, MoveColumnDto, ColumnDto, Locale, en, tr, columns_in,
  is_column_of, batch_update_column_positions, find_column, apply_column_patch, update, remove,
  make_room, write_move, seed_columns, default_columns_for, create_defaults, create, move,
}
use kurultay.Integrity.{has_board, IsSound, IsSoundStore}
use kurultay.Integrity.Keys.{
  All-update_where, All-keep_if, All-append, All-weaken, All-both, any_of-find_first, none_in,
  has_column-append, has_column-update_where, has_column-keep_if,
}

module _ {Num : Type 0} where
  abbrev pub OnBoard : List Board → Column Num → Type 0
  OnBoard boards c = has_board boards c.board_id ≡ true

  -- A change of columns that leaves their ids and boards.
  update-IsSound :
      (boards : List Board) (cs : List (Column Num)) (ts : List (Task Num)) (p : Column Num → Bool)
      (f : Column Num → Column Num)
      → ((c : Column Num) → (f c).id ≡ c.id)
      → ((c : Column Num) → (f c).board_id ≡ c.board_id)
      → IsSound boards cs ts
      → IsSound boards (update_where p f cs) ts
  update-IsSound boards cs ts p f same_id same_board h = record {
    tasks_sound =
        All-weaken _ _ ts
          (λ t k. has_column-update_where t.board_id t.column_id p f cs same_id same_board ∙ k)
          h.tasks_sound;
    tasks_distinct = h.tasks_distinct;
    columns_sound =
        All-update_where (OnBoard boards) p f cs (λ c k. ap (has_board boards) (same_board c) ∙ k)
          h.columns_sound;
  }

  batch-IsSound :
      (boards : List Board) (cs : List (Column Num)) (ts : List (Task Num)) (b : ℕ)
      (us : List (Sibling Num))
      → IsSound boards cs ts
      → IsSound boards (batch_update_column_positions b us cs) ts
  unfolding batch_update_column_positions
  batch-IsSound boards cs ts b us h =
      update-IsSound boards cs ts (λ c. c.board_id == b)
        (λ c. record c { position = (reposition us (column_sibling c)).position }) (λ c. refl)
        (λ c. refl) h

  -- More columns, all on boards.
  append-IsSound :
      (boards : List Board) (cs ds : List (Column Num)) (ts : List (Task Num))
      → IsSound boards cs ts
      → All (OnBoard boards) ds
      → IsSound boards (cs ++ ds) ts
  append-IsSound boards cs ds ts h k = record {
    tasks_sound =
        All-weaken _ _ ts (λ t q. has_column-append t.board_id t.column_id cs ds q) h.tasks_sound;
    tasks_distinct = h.tasks_distinct;
    columns_sound = All-append (OnBoard boards) cs ds h.columns_sound k;
  }

  pub update_column-IsSound :
      (s : Store Num) (w i u : ℕ) (dto : UpdateColumnDto) (d : ColumnDto Num) (s' : Store Num)
      → update s w i u dto ≡ ok (d, s')
      → IsSoundStore s
      → IsSoundStore s'
  unfolding update
  update_column-IsSound s w i u dto d s' e h =
      let (scoped, e0, e1) = >>=-eq-ok (find_column s w i) _ e in
      subst (λ p. IsSoundStore p.1) (ok-injective e1)
        (update-IsSound s.boards s.columns s.tasks (is_column_of s w i) (apply_column_patch dto)
          (λ c. refl) (λ c. refl) h)

  -- A column that is removed has no tasks, so none loses its column.
  pub remove_column-IsSound :
      (s : Store Num) (w i u : ℕ) (s' : Store Num)
      → remove s w i u ≡ ok s'
      → IsSoundStore s
      → IsSoundStore s'
  unfolding remove
  remove_column-IsSound s w i u s' e h =
      let (row, e0, e1) = >>=-eq-ok (find_column s w i) _ e in
      let (v, e2, e3) =
        >>=-eq-ok
          (throw_if (ltb 0 (length (keep_if (λ t. t.column_id == i) s.tasks)))
            (conflict "Column has tasks; move or delete them first"))
          _ e1 in
      let (v', e4, e5) =
        >>=-eq-ok
          (throw_if
            (length (keep_if (λ c. not (is_column_of s w i c)) s.columns) == length s.columns)
            (not_found "Column not found"))
          _ e3 in
      subst IsSoundStore (ok-injective e5) (record {
        tasks_sound =
            All-both _ _ _ s.tasks
              (λ t k away.
                has_column-keep_if t.board_id t.column_id (λ c. not (is_column_of s w i c)) i
                  s.columns (λ c gone. ground arith) away k)
              h.tasks_sound (none_in i s.tasks (throw_if-eq-ok _ _ e2));
        tasks_distinct = h.tasks_distinct;
        columns_sound =
            All-keep_if (OnBoard s.boards) (λ c. not (is_column_of s w i c)) s.columns
              h.columns_sound;
      })

  board_there :
      (s : Store Num) (w b : ℕ) {board : Board}
      → assert_board s w b ≡ ok board
      → has_board s.boards b ≡ true
  unfolding assert_board
  board_there s w b {board} e =
      let found = or_throw-eq-ok _ _ e in
      let holds : (board.id == b && board.workspace_id == w) ≡ true =
        find_first-holds _ s.boards found in
      any_of-find_first _ _ s.boards found (ground arith)

module _ (n : Number) where
  make_room-IsSound :
      (boards : List Board) (ts : List (Task n.Num)) (b : ℕ) (slot : InsertionSlot n.Num)
      (xs : List (Sibling n.Num)) (cs : List (Column n.Num))
      → IsSound boards cs ts
      → IsSound boards (make_room n b slot xs cs).1 ts
  unfolding make_room
  make_room-IsSound boards ts b slot xs cs h =
      elim (Bool-cases (needs_rebalance n (pos_of slot.prev) (pos_of slot.next))) [
        | inl close ↦ rw close (batch-IsSound boards cs ts b _ h)
        | inr wide ↦ rw wide h
      ]

  write_move-IsSound :
      (s : Store n.Num) (w i : ℕ) (column : Column n.Num) (slot : InsertionSlot n.Num)
      (xs : List (Sibling n.Num))
      → IsSoundStore s
      → IsSound s.boards (write_move n s w i column slot xs).1 s.tasks
  unfolding write_move
  write_move-IsSound s w i column slot xs h =
      elim (Bool-cases (needs_rebalance n (pos_of slot.prev) (pos_of slot.next))) [
        | inl close ↦ rw close (batch-IsSound s.boards _ s.tasks column.board_id _ (placed _))
        | inr wide ↦ rw wide (placed _)
      ]
    where
      placed :
          (p : n.Num)
          → IsSound s.boards
              (update_where (is_column_of s w i) (λ c. record c { position = p }) s.columns)
              s.tasks
      placed p =
          update-IsSound s.boards s.columns s.tasks (is_column_of s w i)
            (λ c. record c { position = p }) (λ c. refl) (λ c. refl) h

  pub create_defaults-IsSound :
      (s : Store n.Num) (new_ids : ℕ → ℕ) (w b u : ℕ) (locale : Locale)
      (ds : List (ColumnDto n.Num)) (s' : Store n.Num)
      → create_defaults n s new_ids w b u locale ≡ ok (ds, s')
      → IsSoundStore s
      → IsSoundStore s'
  unfolding create_defaults default_columns_for
  create_defaults-IsSound s new_ids w b u locale ds s' e h =
      let (board, e0, e1) = >>=-eq-ok (assert_board s w b) _ e in
      let (v, e2, e3) =
        >>=-eq-ok
          (throw_if (ltb 0 (length (keep_if (λ c. c.board_id == b) s.columns)))
            (conflict "Board already has columns"))
          _ e1 in
      subst (λ p. IsSoundStore p.1) (ok-injective e3)
        (append-IsSound s.boards s.columns (seed_columns n new_ids b locale) s.tasks h
          (seeded locale (board_there s w b e0)))
    where
      seeded :
          (locale : Locale)
          → has_board s.boards b ≡ true
          → All (OnBoard s.boards) (seed_columns n new_ids b locale)
      seeded en k = (k, (k, (k, tt)))
      seeded tr k = (k, (k, (k, tt)))

module _ (n : Number) (reads : SortedReads n) where
  pub create_column-IsSound :
      (s : Store n.Num) (new_id w b u : ℕ) (dto : CreateColumnDto) (d : ColumnDto n.Num)
      (s' : Store n.Num)
      → create n reads s new_id w b u dto ≡ ok (d, s')
      → IsSoundStore s
      → IsSoundStore s'
  unfolding create
  create_column-IsSound s new_id w b u dto d s' e h =
      let (board, e0, e1) = >>=-eq-ok (assert_board s w b) _ e in
      let (slot, e2, e3) = >>=-eq-ok (resolve_create_neighbors _ _ _) _ e1 in
      subst (λ p. IsSoundStore p.1) (ok-injective e3)
        (append-IsSound s.boards _ _ s.tasks
          (make_room-IsSound n s.boards s.tasks b slot (reads.order_by (columns_in b s.columns))
            s.columns h)
          (board_there s w b e0, tt))

  pub move_column-IsSound :
      (s : Store n.Num) (w i u : ℕ) (dto : MoveColumnDto) (d : ColumnDto n.Num) (s' : Store n.Num)
      → move n reads s w i u dto ≡ ok (d, s')
      → IsSoundStore s
      → IsSoundStore s'
  unfolding move
  move_column-IsSound s w i u dto d s' e h =
      let (column, e0, e1) = >>=-eq-ok (find_column s w i) _ e in
      let (v, e2, e3) =
        >>=-eq-ok
          (throw_if (is_id dto.before_column_id i || is_id dto.after_column_id i)
            (bad_request "A column cannot be its own neighbor"))
          _ e1 in
      let (slot, e4, e5) = >>=-eq-ok (resolve_move_neighbors _ _ _) _ e3 in
      subst (λ p. IsSoundStore p.1) (ok-injective e5) (write_move-IsSound n s w i column slot _ h)
