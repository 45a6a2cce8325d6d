-- ===== src/Boards/Remove.antt =====
-- `BoardService.remove`: a board goes with its columns and tasks, and nothing else goes.
use kurultay.Base.{
  ℕ, ◌≡◌, ◌≢◌, refl, sym, ap, ◌∙◌, not, Bool, none, List, [], ◌∷◌, arith, length, keep_if,
  find_first, ◌==◌, not_found, ok, err, ◌>>=◌, >>=-eq-ok, throw_if, ok-injective,
}
use kurultay.Store.{Board, Column, Task, Store, assert_board}
use kurultay.Boards.{is_board_of, remove}

module _ {T : Type 0} (board_of : T → ℕ) where
  -- The rows of a board, whole.
  abbrev pub rows_on : ℕ → List T → List T
  rows_on b = keep_if (λ t. board_of t == b)

  rows_on_cleared : (b : ℕ) (ts : List T) → rows_on b (keep_if (λ t. not (board_of t == b)) ts) ≡ []
  rows_on_cleared b [] = refl
  rows_on_cleared b (t ∷ ts) = ground (arith, rows_on_cleared b ts)

  rows_on_elsewhere :
      (b d : ℕ) (ts : List T)
      → d ≢ b
      → rows_on d (keep_if (λ t. not (board_of t == b)) ts) ≡ rows_on d ts
  rows_on_elsewhere b d [] h = refl
  rows_on_elsewhere b d (t ∷ ts) h = ground (arith, rows_on_elsewhere b d ts h)

find-gone : (p : Board → Bool) (bs : List Board) → find_first p (keep_if (λ b. not (p b)) bs) ≡ none
find-gone p [] = refl
find-gone p (b ∷ bs) = ground (arith, find-gone p bs)

module _ {Num : Type 0} where
  -- A removed board leaves no column and no task behind, the columns and tasks of every other board
  -- are as they were, and removing the board again answers 404.
  pub remove_board_lem :
      (s : Store Num) (workspace_id board_id actor_id again_by : ℕ) (s' : Store Num)
      → remove s workspace_id board_id actor_id ≡ ok s'
      → (rows_on (λ (c : Column Num). c.board_id) board_id s'.columns ≡ [])
        × (rows_on (λ (t : Task Num). t.board_id) board_id s'.tasks ≡ [])
        × ((d : ℕ)
            → d ≢ board_id
            → (rows_on (λ (c : Column Num). c.board_id) d s'.columns
                ≡ rows_on (λ (c : Column Num). c.board_id) d s.columns)
              × (rows_on (λ (t : Task Num). t.board_id) d s'.tasks
                  ≡ rows_on (λ (t : Task Num). t.board_id) d s.tasks))
        × (remove s' workspace_id board_id again_by ≡ err (not_found "Board not found"))
  unfolding remove assert_board
  remove_board_lem s w b u again s' e =
      let (board, e0, e1) = >>=-eq-ok (assert_board s w b) _ e in
      let (v, e2, e3) =
        >>=-eq-ok
          (throw_if (length (keep_if (λ x. not (is_board_of w b x)) s.boards) == length s.boards)
            (not_found "Board not found"))
          _ e1 in
      let columns_eq : s'.columns ≡ keep_if (λ c. not (c.board_id == b)) s.columns =
        sym (ap (λ z. z.columns) (ok-injective e3)) in
      let tasks_eq : s'.tasks ≡ keep_if (λ t. not (t.board_id == b)) s.tasks =
        sym (ap (λ z. z.tasks) (ok-injective e3)) in
      let gone : find_first (is_board_of w b) s'.boards ≡ none =
        ap (λ z. find_first (is_board_of w b) z.boards) (sym (ok-injective e3))
        ∙ find-gone (is_board_of w b) s.boards in
      (
        ap (rows_on (λ c. c.board_id) b) columns_eq ∙ rows_on_cleared (λ c. c.board_id) b s.columns,
        ap (rows_on (λ t. t.board_id) b) tasks_eq ∙ rows_on_cleared (λ t. t.board_id) b s.tasks,
        λ d apart. (
          ap (rows_on (λ c. c.board_id) d) columns_eq
              ∙ rows_on_elsewhere (λ c. c.board_id) b d s.columns apart,
          ap (rows_on (λ t. t.board_id) d) tasks_eq
              ∙ rows_on_elsewhere (λ t. t.board_id) b d s.tasks apart,
        ),
        rw (gone, ◌>>=◌),
      )
