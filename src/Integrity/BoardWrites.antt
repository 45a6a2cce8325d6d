-- ===== src/Integrity/BoardWrites.antt =====
-- The handlers of `BoardService` keep the references sound.
use kurultay.Base.{
  ℕ, ◌≡◌, refl, subst, ◌∙◌, ◌≢◌, inl, inr, not, true, List, [], ◌∷◌, ◌++◌, arith, length, keep_if,
  All, ◌==◌, Bool-cases, not_found, ok, >>=-eq-ok, throw_if, ok-injective,
}
use kurultay.Ordering.Number.{Number}
use kurultay.Ordering.Tables.{update_where}
use kurultay.Store.{Board, Column, Task, Store, assert_board}
use kurultay.Columns.{Locale, en, tr, default_columns_for, seed_columns}
use kurultay.Boards.{
  CreateBoardDto, UpdateBoardDto, is_board_of, apply_board_patch, update, remove, create,
}
use kurultay.Integrity.{has_column, has_board, IsSoundStore}
use kurultay.Integrity.Keys.{All-append, All-weaken, IsDistinct-keep_if, has_column-append}

has_board-append :
    (b : ℕ) (bs cs : List Board) → has_board bs b ≡ true → has_board (bs ++ cs) b ≡ true
has_board-append b [] cs h = cc
has_board-append b (x ∷ xs) cs h = ground (arith, has_board-append b xs cs)

has_board-last : (bs : List Board) (board : Board) → has_board (bs ++ board ∷ []) board.id ≡ true
has_board-last [] board = ground arith
has_board-last (x ∷ xs) board = ground (arith, has_board-last xs board)

has_board-update_where :
    (b w i : ℕ) (dto : UpdateBoardDto) (bs : List Board)
    → has_board (update_where (is_board_of w i) (apply_board_patch dto) bs) b ≡ has_board bs b
has_board-update_where b w i dto [] = refl
has_board-update_where b w i dto (x ∷ xs) = ground (arith, has_board-update_where b w i dto xs)

has_board-keep_if :
    (b w i : ℕ) (bs : List Board)
    → b ≢ i
    → has_board bs b ≡ true
    → has_board (keep_if (λ x. not (is_board_of w i x)) bs) b ≡ true
has_board-keep_if b w i [] apart h = cc
has_board-keep_if b w i (x ∷ xs) apart h = ground (arith, has_board-keep_if b w i xs apart)

module _ {Num : Type 0} where
  pub update_board-IsSound :
      (s : Store Num) (w b u : ℕ) (dto : UpdateBoardDto) (board : Board) (s' : Store Num)
      → update s w b u dto ≡ ok (board, s')
      → IsSoundStore s
      → IsSoundStore s'
  unfolding update
  update_board-IsSound s w b u dto board s' e h =
      let (scoped, e0, e1) = >>=-eq-ok (assert_board s w b) _ e in
      subst (λ p. IsSoundStore p.1) (ok-injective e1)
        (record {
          tasks_sound = h.tasks_sound;
          tasks_distinct = h.tasks_distinct;
          columns_sound =
              All-weaken _ _ s.columns
                (λ c k. has_board-update_where c.board_id w b dto s.boards ∙ k) h.columns_sound;
        })

  -- What stays is on other boards, and so is what it refers to.
  columns_kept :
      (w b : ℕ) (boards : List Board) (cs : List (Column Num))
      → All (λ c. has_board boards c.board_id ≡ true) cs
      → All
          (λ c. has_board (keep_if (λ x. not (is_board_of w b x)) boards) c.board_id ≡ true)
          (keep_if (λ c. not (c.board_id == b)) cs)
  columns_kept w b boards [] h = tt
  columns_kept w b boards (c ∷ cs) h = elim (Bool-cases (c.board_id == b)) [
    | inl there ↦ rw there (columns_kept w b boards cs h.1)
    | inr away ↦
        rw away (
          has_board-keep_if c.board_id w b boards (ground arith) h.0,
          columns_kept w b boards cs h.1,
        )
  ]

  has_column-kept :
      (b d i : ℕ) (cs : List (Column Num))
      → d ≢ b
      → has_column cs d i ≡ true
      → has_column (keep_if (λ c. not (c.board_id == b)) cs) d i ≡ true
  has_column-kept b d i [] apart h = cc
  has_column-kept b d i (c ∷ cs) apart h = ground (arith, has_column-kept b d i cs apart)

  tasks_kept :
      (b : ℕ) (cs : List (Column Num)) (ts : List (Task Num))
      → All (λ t. has_column cs t.board_id t.column_id ≡ true) ts
      → All
          (λ t. has_column (keep_if (λ c. not (c.board_id == b)) cs) t.board_id t.column_id ≡ true)
          (keep_if (λ t. not (t.board_id == b)) ts)
  tasks_kept b cs [] h = tt
  tasks_kept b cs (t ∷ ts) h = elim (Bool-cases (t.board_id == b)) [
    | inl there ↦ rw there (tasks_kept b cs ts h.1)
    | inr away ↦
        rw away
          (has_column-kept b t.board_id t.column_id cs (ground arith) h.0, tasks_kept b cs ts h.1)
  ]

  pub remove_board-IsSound :
      (s : Store Num) (w b u : ℕ) (s' : Store Num)
      → remove s w b u ≡ ok s'
      → IsSoundStore s
      → IsSoundStore s'
  unfolding remove
  remove_board-IsSound s w b u s' e h =
      let (board, e0, e1) = >>=-eq-ok (assert_board s w b) _ e in
      let (v, e2, e3) =
        >>=-eq-ok
          (throw_if (length (keep_if (λ x. not (is_board_of w b x)) s.boards) == length s.boards)
            (not_found "Board not found"))
          _ e1 in
      subst IsSoundStore (ok-injective e3) (record {
        tasks_sound = tasks_kept b s.columns s.tasks h.tasks_sound;
        tasks_distinct = IsDistinct-keep_if (λ t. not (t.board_id == b)) s.tasks h.tasks_distinct;
        columns_sound = columns_kept w b s.boards s.columns h.columns_sound;
      })

module _ (n : Number) where
  pub create_board-IsSound :
      (s : Store n.Num) (new_id : ℕ) (new_ids : ℕ → ℕ) (w u : ℕ) (dto : CreateBoardDto)
      (locale : Locale)
      → IsSoundStore s
      → IsSoundStore (create n s new_id new_ids w u dto locale).1
  unfolding create default_columns_for
  create_board-IsSound s new_id new_ids w u dto l0 h = record {
    tasks_sound =
        All-weaken _ _ s.tasks
          (λ t k.
            has_column-append t.board_id t.column_id s.columns (seed_columns n new_ids new_id l0) k)
          h.tasks_sound;
    tasks_distinct = h.tasks_distinct;
    columns_sound =
        All-append _ s.columns _
          (All-weaken _ _ s.columns (λ c k. has_board-append c.board_id s.boards _ k)
            h.columns_sound)
          (seeded l0 (has_board-last s.boards _));
  }
    where
      seeded :
          (locale : Locale)
          → has_board (create n s new_id new_ids w u dto l0).1.boards new_id ≡ true
          → All
              (λ c. has_board (create n s new_id new_ids w u dto l0).1.boards c.board_id ≡ true)
              (seed_columns n new_ids new_id locale)
      seeded en k = (k, (k, (k, tt)))
      seeded tr k = (k, (k, (k, tt)))
