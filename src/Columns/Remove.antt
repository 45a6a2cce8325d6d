-- ===== src/Columns/Remove.antt =====
-- `ColumnService.remove`: only an empty column goes.
use kurultay.Base.{
  ℕ, ◌≡◌, refl, sym, ap, ◌∙◌, ◌&&◌, not, Bool, true, false, none, List, [], ◌∷◌, arith, length,
  keep_if, find_first, any_of, ltb, ◌==◌, conflict, not_found, ok, err, ◌>>=◌, >>=-eq-ok, throw_if,
  throw_if-eq-ok, or_throw-eq-ok, ok-injective,
}
use kurultay.Base.Perms.{IsDistinct}
use kurultay.Ordering.Tables.{without, rows_in-delete}
use kurultay.Store.{Column, Task, Store, column_sibling}
use kurultay.Columns.{columns_in, is_column_of, find_column, remove}

module _ {Num : Type 0} where
  -- The tasks of a column, whole.
  abbrev pub tasks_of : ℕ → List (Task Num) → List (Task Num)
  tasks_of i = keep_if (λ t. t.column_id == i)

  none_left : (ts : List (Task Num)) → ltb 0 (length ts) ≡ false → ts ≡ []
  none_left [] h = refl
  none_left (t ∷ ts) h = absurd (ground arith)

  find-kept :
      (p : Column Num → Bool) (cs : List (Column Num))
      → find_first p (keep_if (λ c. not (p c)) cs) ≡ none
  find-kept p [] = refl
  find-kept p (c ∷ cs) = ground (arith, find-kept p cs)

  is_column_of-id :
      (s : Store Num) (w i : ℕ) (c : Column Num) → is_column_of s w i c ≡ true → c.id ≡ i
  is_column_of-id s w i c h = ground arith

  -- A removal succeeds only on a column that has no tasks, and touches no task at all. It takes the
  -- column from its board, changes the columns of no board otherwise, and cannot be repeated: the
  -- second one answers 404. The hypothesis: column ids are distinct.
  pub remove_column_lem :
      (s : Store Num) (workspace_id column_id actor_id again_by : ℕ) (s' : Store Num)
      → remove s workspace_id column_id actor_id ≡ ok s'
      → IsDistinct (λ (c : Column Num). c.id) s.columns
      → (tasks_of column_id s.tasks ≡ [])
        × (s'.tasks ≡ s.tasks)
        × ((b : ℕ) → columns_in b s'.columns ≡ without column_id (columns_in b s.columns))
        × (remove s' workspace_id column_id again_by ≡ err (not_found "Column not found"))
  unfolding remove find_column
  remove_column_lem s w i u again s' e distinct =
      let (row, e0, e1) = >>=-eq-ok (find_column s w i) _ e in
      let (v, e2, e3) =
        >>=-eq-ok
          (throw_if (ltb 0 (length (tasks_of i s.tasks)))
            (conflict "Column has tasks; move or delete them first"))
          _ e1 in
      let (v', e4, e5) =
        >>=-eq-ok
          (throw_if
            (length (keep_if (λ c. not (is_column_of s w i c)) s.columns) == length s.columns)
            (not_found "Column not found"))
          _ e3 in
      let columns_eq : s'.columns ≡ keep_if (λ c. not (is_column_of s w i c)) s.columns =
        sym (ap (λ z. z.columns) (ok-injective e5)) in
      let boards_eq : s'.boards ≡ s.boards = sym (ap (λ z. z.boards) (ok-injective e5)) in
      (
        none_left _ (throw_if-eq-ok _ _ e2),
        sym (ap (λ z. z.tasks) (ok-injective e5)),
        λ b.
            ap (columns_in b) columns_eq
            ∙ rows_in-delete (λ c. c.board_id) column_sibling (is_column_of s w i) i
                (is_column_of-id s w i) b s.columns distinct (or_throw-eq-ok _ _ e0),
        rw (gone boards_eq columns_eq, ◌>>=◌),
      )
    where
      gone :
          s'.boards ≡ s.boards
          → s'.columns ≡ keep_if (λ c. not (is_column_of s w i c)) s.columns
          → find_first (is_column_of s' w i) s'.columns ≡ none
      gone hb hc =
          (λ k.
            find_first
              (λ c. c.id == i && any_of (λ b. b.id == c.board_id && b.workspace_id == w) (hb k))
              (hc k))
          ∙ find-kept (is_column_of s w i) s.columns
