-- ===== src/Columns/Seed.antt =====
-- `ColumnService.createDefaults` and common/board-defaults.ts.
use kurultay.Base.{
  ℕ, ◌+◌, String, none, ◌≤◌, ◌≡◌, refl, sym, ap, ◌∙◌, inl, true, false, List, [], ◌∷◌, ◌++◌, arith,
  map, length, keep_if, keep_if-append, ltb, ◌==◌, ==_refl, subst, ok, err, ◌>>=◌, >>=-eq-ok,
  throw_if, throw_if-eq-ok, ok-injective, conflict,
}
use kurultay.Ordering.Number.{Number}
use kurultay.Ordering.Chain.{IsOrdered}
use kurultay.Store.{
  ColumnCategory, unstarted, started, completed, Column, Store, assert_board, column_sibling,
}
use kurultay.Columns.{
  Locale, en, tr, ColumnDto, columns_in, default_columns_for, seed_columns, create_defaults, to_dto,
}

module _ (n : Number) where
  -- The columns of a board, in the table's order.
  abbrev pub columns_of : ℕ → List (Column n.Num) → List (Column n.Num)
  columns_of board_id = keep_if (λ c. c.board_id == board_id)

  length-eq-zero : (cs : List (Column n.Num)) → ltb 0 (length cs) ≡ false → cs ≡ []
  length-eq-zero [] h = refl
  length-eq-zero (c ∷ cs) h = absurd (ground arith)

  module _ (new_ids : ℕ → ℕ) (board_id : ℕ) where
    columns_of-seed :
        (locale : Locale)
        → columns_of board_id (seed_columns n new_ids board_id locale)
          ≡ seed_columns n new_ids board_id locale
    unfolding default_columns_for
    columns_of-seed en = rw (==_refl board_id)
    columns_of-seed tr = rw (==_refl board_id)

    abbrev seeded : (i : ℕ) → String → ColumnCategory → Column n.Num
    seeded i name category = record {
      id = new_ids i;
      board_id = board_id;
      name = name;
      position = n.gap_times (i + 1);
      color = none;
      category = category;
    }

    -- A new board's columns, as the user sees them.
    abbrev pub three_columns : Locale → List (Column n.Num)
    three_columns en =
        seeded 0 "To Do" unstarted ∷ seeded 1 "In Progress" started ∷ seeded 2 "Done" completed ∷ []
    three_columns tr =
        seeded 0 "Yapılacak" unstarted
        ∷ seeded 1 "Devam Ediyor" started
        ∷ seeded 2 "Bitti" completed
        ∷ []

    seed_columns-three_columns :
        (locale : Locale) → seed_columns n new_ids board_id locale ≡ three_columns locale
    unfolding default_columns_for
    seed_columns-three_columns en = refl
    seed_columns-three_columns tr = refl

    seed-IsOrdered :
        (locale : Locale)
        → 3 ≤ n.max_length
        → IsOrdered n (map column_sibling (seed_columns n new_ids board_id locale))
    unfolding default_columns_for
    seed-IsOrdered en long = (
      inl (n.gap_times_lt 1 2 (omega arith) (omega arith)),
      (inl (n.gap_times_lt 2 3 (omega arith) long), (tt, tt)),
    )
    seed-IsOrdered tr long = (
      inl (n.gap_times_lt 1 2 (omega arith) (omega arith)),
      (inl (n.gap_times_lt 2 3 (omega arith) long), (tt, tt)),
    )

    seed-to_dto :
        (s : Store n.Num) (locale : Locale)
        → map (λ d. d.column) (map (to_dto s) (seed_columns n new_ids board_id locale))
          ≡ seed_columns n new_ids board_id locale
    unfolding default_columns_for
    seed-to_dto s en = refl
    seed-to_dto s tr = refl

    seed-length : (locale : Locale) → ltb 0 (length (seed_columns n new_ids board_id locale)) ≡ true
    unfolding default_columns_for
    seed-length en = refl
    seed-length tr = refl

  -- Seeding succeeds only on a board with no columns, and then leaves it with exactly three, the
  -- ones that it answers: without a colour, at one, two and three times `POSITION_GAP`, unstarted,
  -- started and completed, and named To Do, In Progress and Done, or in Turkish Yapılacak, Devam
  -- Ediyor and Bitti. Listed by position they are in that order; seeding the board again is refused as a conflict, and leaves it alone.
  pub create_defaults_lem :
      (s : Store n.Num) (new_ids : ℕ → ℕ) (workspace_id board_id actor_id : ℕ) (locale : Locale)
      (ds : List (ColumnDto n.Num)) (s' : Store n.Num)
      → create_defaults n s new_ids workspace_id board_id actor_id locale ≡ ok (ds, s')
      → 3 ≤ n.max_length
      → (columns_of board_id s.columns ≡ [])
        × (map (λ d. d.column) ds ≡ columns_of board_id s'.columns)
        × (columns_of board_id s'.columns ≡ three_columns new_ids board_id locale)
        × IsOrdered n (columns_in board_id s'.columns)
        × (create_defaults n s' new_ids workspace_id board_id actor_id locale
            ≡ err (conflict "Board already has columns"))
  unfolding create_defaults assert_board
  create_defaults_lem s new_ids workspace_id board_id actor_id locale ds s' e long =
      let (board, e0, e1) = >>=-eq-ok (assert_board s workspace_id board_id) _ e in
      let (u, e2, e3) =
        >>=-eq-ok
          (throw_if (ltb 0 (length (columns_of board_id s.columns)))
            (conflict "Board already has columns"))
          _ e1 in
      let empty : columns_of board_id s.columns ≡ [] =
        length-eq-zero _ (throw_if-eq-ok _ (conflict "Board already has columns") e2) in
      let rows = seed_columns n new_ids board_id locale in
      let now : columns_of board_id s'.columns ≡ rows =
        ap (λ p. columns_of board_id p.1.columns) (sym (ok-injective e3))
        ∙ keep_if-append (λ c. c.board_id == board_id) s.columns rows
        ∙ ap (λ cs. cs ++ columns_of board_id rows) empty
        ∙ columns_of-seed new_ids board_id locale in
      let there : assert_board s' workspace_id board_id ≡ ok board =
        ap (λ p. assert_board p.1 workspace_id board_id) (sym (ok-injective e3)) ∙ e0 in
      (
        empty,
        ap (λ p. map (λ d. d.column) p.0) (sym (ok-injective e3))
            ∙ seed-to_dto new_ids board_id s locale
            ∙ sym now,
        now ∙ seed_columns-three_columns new_ids board_id locale,
        subst (IsOrdered n) (ap (map column_sibling) (sym now))
            (seed-IsOrdered new_ids board_id locale long),
        rw (there, ◌>>=◌)
            (rw (ap (λ cs. ltb 0 (length cs)) now ∙ seed-length new_ids board_id locale)),
      )
