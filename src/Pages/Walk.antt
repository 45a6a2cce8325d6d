-- ===== src/Pages/Walk.antt =====
-- Reading page after page gives every row once.
use kurultay.Base.{
  list_laws, ℕ, zero, suc, ◌+◌, ◌≤◌, ◌≡◌, refl, sym, ap, subst, ◌∙◌, inl, inr, Bool, true, false,
  Option, none, some, List, [], ◌∷◌, ◌++◌, arith, map, length, take, drop, last?, keep_if, All, ltb,
  Bool-cases,
}
use kurultay.Pages.{
  CursorPage, Direction, ascending, descending, is_past, to_cursor_page, is_after, list_page, walk,
}

is_past_trans :
    (d : Direction) (a b c : ℕ) → is_past d a b ≡ true → is_past d b c ≡ true → is_past d a c ≡ true
unfolding is_past
is_past_trans ascending a b c h k = ground arith
is_past_trans descending a b c h k = ground arith

is_past_asym : (d : Direction) (a b : ℕ) → is_past d a b ≡ true → is_past d b a ≡ false
unfolding is_past
is_past_asym ascending a b h = ground arith
is_past_asym descending a b h = ground arith

is_past_irrefl : (d : Direction) (a : ℕ) → is_past d a a ≡ false
unfolding is_past
is_past_irrefl ascending a = ground arith
is_past_irrefl descending a = ground arith

module _ {Row : Type 0} where
  keep_everything : (p : Row → Bool) (xs : List Row) → All (λ x. p x ≡ true) xs → keep_if p xs ≡ xs
  keep_everything p [] h = refl
  keep_everything p (x ∷ xs) h = rw h.0 (ap (◌∷◌ x) (keep_everything p xs h.1))

  keep_nothing : (p : Row → Bool) (xs : List Row) → All (λ x. p x ≡ false) xs → keep_if p xs ≡ []
  keep_nothing p [] h = refl
  keep_nothing p (x ∷ xs) h = rw h.0 (keep_nothing p xs h.1)

  keep_if-keep_if :
      (p q : Row → Bool) (xs : List Row)
      → ((x : Row) → q x ≡ true → p x ≡ true)
      → keep_if q (keep_if p xs) ≡ keep_if q xs
  keep_if-keep_if p q [] h = refl
  keep_if-keep_if p q (x ∷ xs) h = ground (arith, h x, keep_if-keep_if p q xs h)

  length-take_next : (n : ℕ) (xs : List Row) → ltb n (length (take (suc n) xs)) ≡ ltb n (length xs)
  length-take_next zero [] = refl
  length-take_next zero (x ∷ xs) = ground arith
  length-take_next (suc n) [] = refl
  length-take_next (suc n) (x ∷ xs) = ground (arith, length-take_next n xs)

  take-take_next : (n : ℕ) (xs : List Row) → take n (take (suc n) xs) ≡ take n xs
  take-take_next zero xs = refl
  take-take_next (suc n) [] = refl
  take-take_next (suc n) (x ∷ xs) = ap (◌∷◌ x) (take-take_next n xs)

  take_all : (n : ℕ) (xs : List Row) → ltb n (length xs) ≡ false → take (suc n) xs ≡ xs
  take_all n [] h = refl
  take_all zero (x ∷ xs) h = absurd (ground arith)
  take_all (suc n) (x ∷ xs) h = ap (◌∷◌ x) (take_all n xs (ground arith))

  length-drop : (n : ℕ) (xs : List Row) → length (drop n xs) ≤ length xs
  length-drop zero xs = omega arith
  length-drop (suc n) [] = omega arith
  length-drop (suc n) (x ∷ xs) = omega (arith, length-drop n xs)

  All-kept : (p : Row → Bool) (xs : List Row) → All (λ x. p x ≡ true) (keep_if p xs)
  All-kept p [] = tt
  All-kept p (x ∷ xs) = elim (Bool-cases (p x)) [
    | inl kept ↦ rw kept (kept, All-kept p xs)
    | inr gone ↦ rw gone (All-kept p xs)
  ]

  All-zip : (P Q : Row → Type 0) (xs : List Row) → All P xs → All Q xs → All (λ x. P x × Q x) xs
  All-zip P Q [] h k = tt
  All-zip P Q (x ∷ xs) h k = ((h.0, k.0), All-zip P Q xs h.1 k.1)

module _ {Row : Type 0} (d : Direction) (id_of : Row → ℕ) where
  -- The rows stand in the order of the read.
  abbrev pub IsRead : List Row → Type 0
  IsRead [] = Unit {0}
  IsRead (x ∷ xs) = All (λ y. is_past d (id_of x) (id_of y) ≡ true) xs × IsRead xs

  drop-IsRead : (n : ℕ) (xs : List Row) → IsRead xs → IsRead (drop n xs)
  drop-IsRead zero xs h = h
  drop-IsRead (suc n) [] h = tt
  drop-IsRead (suc n) (x ∷ xs) h = drop-IsRead n xs h.1

  keep_if-IsRead : (p : Row → Bool) (xs : List Row) → IsRead xs → IsRead (keep_if p xs)
  keep_if-IsRead p [] h = tt
  keep_if-IsRead p (x ∷ xs) h = elim (Bool-cases (p x)) [
    | inl kept ↦ rw kept (All-keep _ p xs h.0, keep_if-IsRead p xs h.1)
    | inr gone ↦ rw gone (keep_if-IsRead p xs h.1)
  ]
    where
      All-keep :
          (P : Row → Type 0) (p : Row → Bool) (ys : List Row) → All P ys → All P (keep_if p ys)
      All-keep P p [] k = tt
      All-keep P p (y ∷ ys) k = elim (Bool-cases (p y)) [
        | inl kept ↦ rw kept (k.0, All-keep P p ys k.1)
        | inr gone ↦ rw gone (All-keep P p ys k.1)
      ]

  -- What comes after the last row of a full page is the rest of the rows.
  last_of_page :
      (m : ℕ) (xs : List Row) (P : Row → Type 0)
      → IsRead xs
      → All P xs
      → ltb (suc m) (length xs) ≡ true
      → (r : Row) × (last? (take (suc m) xs) ≡ some r)
        × (keep_if (λ y. is_past d (id_of r) (id_of y)) xs ≡ drop (suc m) xs)
        × P r
  last_of_page m [] P h k long = absurd (ground arith)
  last_of_page zero (x ∷ xs) P h k long =
      (x, refl, rw (is_past_irrefl d (id_of x)) (keep_everything _ xs h.0), k.0)
  last_of_page (suc m) (x ∷ []) P h k long = absurd (ground arith)
  last_of_page (suc m) (x ∷ y ∷ ys) P h k long =
      let (r, e, rest, holds) =
        last_of_page m (y ∷ ys) (λ z. P z × (is_past d (id_of x) (id_of z) ≡ true)) h.1
          (All-zip P (λ z. is_past d (id_of x) (id_of z) ≡ true) (y ∷ ys) k.1 h.0) (ground arith) in
      (r, e, rw (is_past_asym d (id_of x) (id_of r) holds.1) rest, holds.0)

  module _ {Dto : Type 0} (to_dto : Row → Dto) (m : ℕ) where
    page_more :
        (xs : List Row) (r : Row)
        → ltb (suc m) (length xs) ≡ true
        → last? (take (suc m) xs) ≡ some r
        → to_cursor_page id_of (take (suc m + 1) xs) (suc m) to_dto ≡ record {
          items = map to_dto (take (suc m) xs);
          next_cursor = some (id_of r);
          has_more = true;
        }
    unfolding to_cursor_page
    page_more xs r long e =
        subst
          (λ k. to_cursor_page id_of (take k xs) (suc m) to_dto ≡ record {
            items = map to_dto (take (suc m) xs);
            next_cursor = some (id_of r);
            has_more = true;
          })
          one_more
          (rw (length-take_next (suc m) xs ∙ long) (rw (take-take_next (suc m) xs) (rw e refl)))
      where
        one_more : suc (suc m) ≡ suc m + 1
        one_more = omega arith

    page_last :
        (xs : List Row)
        → ltb (suc m) (length xs) ≡ false
        → to_cursor_page id_of (take (suc m + 1) xs) (suc m) to_dto
          ≡ record { items = map to_dto xs; next_cursor = none; has_more = false }
    unfolding to_cursor_page
    page_last xs short =
        subst
          (λ k.
            to_cursor_page id_of (take k xs) (suc m) to_dto
            ≡ record { items = map to_dto xs; next_cursor = none; has_more = false })
          one_more (rw (take_all (suc m) xs short) (rw short refl))
      where
        one_more : suc (suc m) ≡ suc m + 1
        one_more = omega arith

    walk_from :
        (table : List Row) (fuel : ℕ) (cursor : Option ℕ) (xs : List Row)
        → keep_if (is_after d id_of cursor) table ≡ xs
        → IsRead xs
        → length xs + 1 ≤ fuel
        → walk d id_of fuel table cursor (suc m) to_dto ≡ map to_dto xs
    unfolding list_page
    walk_from table zero cursor xs e h enough = absurd (omega arith)
    walk_from table (suc fuel) cursor xs e h enough = elim (Bool-cases (ltb (suc m) (length xs))) [
      | inl long ↦
          let all_after =
            subst (All (λ x. is_after d id_of cursor x ≡ true)) e (All-kept _ table) in
          let (r, last, rest, after_r) =
            last_of_page m xs (λ x. is_after d id_of cursor x ≡ true) h all_after long in
          let later : keep_if (is_after d id_of (some (id_of r))) table ≡ drop (suc m) xs =
            sym (keep_if-keep_if (is_after d id_of cursor) _ table (further cursor r after_r))
            ∙ ap (keep_if _) e
            ∙ rest in
          ap on_page (ap page_of e ∙ page_more xs r long last)
          ∙ ap (λ ys. map to_dto (take (suc m) xs) ++ ys)
              (walk_from table fuel (some (id_of r)) (drop (suc m) xs) later
                (drop-IsRead (suc m) xs h) (shorter xs long enough))
          ∙ simp list_laws
      | inr short ↦ ap on_page (ap page_of e ∙ page_last xs short) ∙ simp list_laws
    ]
      where
        page_of : List Row → CursorPage Dto
        page_of ys = to_cursor_page id_of (take (suc m + 1) ys) (suc m) to_dto

        on_page : CursorPage Dto → List Dto
        on_page page = page.items ++ elim page.next_cursor [
          | none ↦ []
          | some c ↦ walk d id_of fuel table (some c) (suc m) to_dto
        ]

        further :
            (cursor : Option ℕ) (r : Row)
            → is_after d id_of cursor r ≡ true
            → (x : Row) → is_after d id_of (some (id_of r)) x ≡ true
            → is_after d id_of cursor x ≡ true
        further none r h x k = refl
        further (some c) r h x k = is_past_trans d c (id_of r) (id_of x) h k

        shorter :
            (xs : List Row)
            → ltb (suc m) (length xs) ≡ true
            → length xs + 1 ≤ suc fuel
            → length (drop (suc m) xs) + 1 ≤ fuel
        shorter [] long bound = absurd (ground arith)
        shorter (x ∷ xs) long bound = omega (arith, length-drop m xs, bound)

-- A client that starts without a cursor and asks for page after page, by the cursor of the page
-- before, gets every row once, in the order of the read, and nothing after that: no row is lost or
-- repeated at a page's edge. The hypotheses: the rows stand strictly in the order of their ids, a
-- page has room for a row, and as many pages may be asked for as there are rows, and one more.
pub walk_lem :
    {Row Dto : Type 0} (d : Direction) (id_of : Row → ℕ) (to_dto : Row → Dto) (table : List Row)
    (limit fuel : ℕ)
    → IsRead d id_of table
    → 1 ≤ limit
    → length table + 1 ≤ fuel
    → walk d id_of fuel table none limit to_dto ≡ map to_dto table
walk_lem d id_of to_dto table zero fuel h room enough = absurd (omega arith)
walk_lem {Row} d id_of to_dto table (suc m) fuel h room enough =
    walk_from d id_of to_dto m table fuel none table (keep_everything _ table (all_true table)) h
      enough
  where
    all_true : (xs : List Row) → All (λ x. true ≡ true) xs
    all_true [] = tt
    all_true (x ∷ xs) = (refl, all_true xs)
