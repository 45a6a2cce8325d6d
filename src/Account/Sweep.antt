-- ===== src/Account/Sweep.antt =====
-- The paged redaction of the comments is one pass over all of them.
use mathlib.Core.List.{append_assoc}
use kurultay.Base.{
  ℕ, suc, ◌+◌, ◌<◌, ◌≡◌, refl, sym, ap, subst, ◌∙◌, inl, inr, Bool, true, false, not, ◌&&◌, some,
  List, [], ◌∷◌, ◌++◌, map, arith, All, keep_if, last?, length, ◌==◌, if◌then◌else◌, Bool-cases,
  ==_refl,
}
use kurultay.Ordering.Tables.{update_where}
use kurultay.Mentions.{Text, text_eq}
use kurultay.Account.{Comment}
use kurultay.Account.Redaction.{includes, redacted_body, redact_page}

-- The rows stand in the order of their ids, none twice.
abbrev pub IsAscending : List ℕ → Type 0
IsAscending [] = Unit {0}
IsAscending (i ∷ is) = All (λ j. i < j) is × IsAscending is

abbrev pub ids : List Comment → List ℕ
ids = map (λ c. c.id)

text_eq-eq : (a b : Text) → text_eq a b ≡ true → a ≡ b
text_eq-eq [] [] e = refl
text_eq-eq [] (d ∷ ds) e = cc
text_eq-eq (c ∷ cs) [] e = cc
text_eq-eq (c ∷ cs) (d ∷ ds) e = ground (arith, text_eq-eq cs ds)

module _ {T : Type 0} where
  pub last?-All : (P : T → Type 0) (xs : List T) {l : T} → last? xs ≡ some l → All P xs → P l
  last?-All P [] e h = cc
  last?-All P (x ∷ []) e h = let same : x ≡ _ = ground arith in subst P same h.0
  last?-All P (x ∷ y ∷ ys) e h = last?-All P (y ∷ ys) e h.1

  pub All-append_left : (P : T → Type 0) (xs ys : List T) → All P (xs ++ ys) → All P xs
  All-append_left P [] ys h = tt
  All-append_left P (x ∷ xs) ys h = (h.0, All-append_left P xs ys h.1)

  pub All-append_right : (P : T → Type 0) (xs ys : List T) → All P (xs ++ ys) → All P ys
  All-append_right P [] ys h = h
  All-append_right P (x ∷ xs) ys h = All-append_right P xs ys h.1

  pub All-keep_if : (P : T → Type 0) (p : T → Bool) (xs : List T) → All P xs → All P (keep_if p xs)
  All-keep_if P p [] h = tt
  All-keep_if P p (x ∷ xs) h = elim (Bool-cases (p x)) [
    | inl kept ↦ rw kept (h.0, All-keep_if P p xs h.1)
    | inr gone ↦ rw gone (All-keep_if P p xs h.1)
  ]

module _ (user_id : Text) where
  -- The comment without the person's name, where the query finds it.
  abbrev pub redact_row : Comment → Comment
  redact_row c =
      if includes user_id c.body then record c { body = redacted_body user_id c.body } else c

  abbrev pub is_found : Comment → Bool
  is_found c = includes user_id c.body

  abbrev is_changed : Comment → Bool
  is_changed c = is_found c && not (text_eq (redacted_body user_id c.body) c.body)

  -- How many comments the redaction changes.
  abbrev pub changed_count : List Comment → ℕ
  changed_count rows = length (keep_if is_changed rows)

  update_one :
      (front : List Comment) (x : Comment) (back : List Comment) (f : Comment → Comment)
      → IsAscending (ids (front ++ x ∷ back))
      → update_where (λ c. c.id == x.id) f (front ++ x ∷ back) ≡ front ++ f x ∷ back
  update_one [] x back f h = rw ((==_refl x.id), above back h.0)
    where
      above :
          (ys : List Comment)
          → All (λ j. x.id < j) (ids ys)
          → update_where (λ c. c.id == x.id) f ys ≡ ys
      above [] k = refl
      above (y ∷ ys) k = ground (arith, above ys k.1)
  update_one (y ∷ front) x back f h =
      let far : y.id < x.id = head_below front h.0 in
      let miss : (y.id == x.id) ≡ false = ground arith in
      rw miss (ap (◌∷◌ y) (update_one front x back f h.1))
    where
      head_below : (zs : List Comment) → All (λ j. y.id < j) (ids (zs ++ x ∷ back)) → y.id < x.id
      head_below [] k = k.0
      head_below (z ∷ zs) k = head_below zs k.1

  pub ids_same :
      (front : List Comment) (x y : Comment) (back : List Comment)
      → y.id ≡ x.id
      → ids (front ++ y ∷ back) ≡ ids (front ++ x ∷ back)
  ids_same [] x y back e = ap (λ i. i ∷ ids back) e
  ids_same (z ∷ front) x y back e = ap (◌∷◌ z.id) (ids_same front x y back e)

  -- The rest of a page, behind a row that is written as `y`.
  redact_behind :
      (front : List Comment) (x y : Comment) (seg back : List Comment) (n : ℕ)
      → y.id ≡ x.id
      → IsAscending (ids (front ++ x ∷ (seg ++ back)))
      → (IsAscending (ids ((front ++ y ∷ []) ++ (seg ++ back)))
          → redact_page user_id (keep_if is_found seg) ((front ++ y ∷ []) ++ (seg ++ back)) n
            ≡ ((front ++ y ∷ []) ++ (map redact_row seg ++ back), n + changed_count seg))
      → redact_page user_id (keep_if is_found seg) (front ++ y ∷ (seg ++ back)) n
        ≡ (front ++ y ∷ (map redact_row seg ++ back), n + changed_count seg)
  redact_behind front x y seg back n e h ih =
      let joined = append_assoc front (y ∷ []) (seg ++ back) in
      subst
        (λ t.
          redact_page user_id (keep_if is_found seg) t n
          ≡ (front ++ y ∷ (map redact_row seg ++ back), n + changed_count seg))
        joined
        (ih (subst IsAscending (sym (ap ids joined ∙ ids_same front x y (seg ++ back) e)) h)
          ∙ ap (λ t. (t, n + changed_count seg))
              (append_assoc front (y ∷ []) (map redact_row seg ++ back)))

  -- A page's first row, by whether its body changes.
  redact_first :
      (x : Comment) (page rows : List Comment) (n : ℕ) {b : Bool}
      → text_eq (redacted_body user_id x.body) x.body ≡ b
      → redact_page user_id (x ∷ page) rows n
        ≡ redact_page user_id page
            (if b
              then rows
              else update_where
                  (λ c. c.id == x.id)
                  (λ c. record c { body = redacted_body user_id x.body })
                  rows)
            (if b then n else suc n)
  unfolding redact_page
  redact_first x page rows n e =
      ap
        (λ t.
          redact_page user_id page
            (if t
              then rows
              else update_where (λ c. c.id == x.id)
                  (λ c. record c { body = redacted_body user_id x.body }) rows)
            (if t then n else suc n))
        e

  pub redact_page_lem :
      (front seg back : List Comment) (n : ℕ)
      → IsAscending (ids (front ++ (seg ++ back)))
      → redact_page user_id (keep_if is_found seg) (front ++ (seg ++ back)) n
        ≡ (front ++ (map redact_row seg ++ back), n + changed_count seg)
  unfolding redact_page
  redact_page_lem front [] back n h = ap (λ k. (front ++ back, k)) (omega arith)
  redact_page_lem front (x ∷ seg) back n h = elim (Bool-cases (is_found x)) [
    | inr missed ↦
        rw missed
          (redact_behind front x x seg back n refl h (redact_page_lem (front ++ x ∷ []) seg back n))
    | inl found ↦
        let y : Comment = record x { body = redacted_body user_id x.body } in
        elim (Bool-cases (text_eq (redacted_body user_id x.body) x.body)) [
          | inl same ↦
              let kept : y ≡ x =
                ap (λ b. record x { body = b })
                  (text_eq-eq (redacted_body user_id x.body) x.body same) in
              rw found (
                rw same (
                  redact_first x (keep_if is_found seg) (front ++ x ∷ (seg ++ back)) n same
                  ∙ redact_behind front x x seg back n refl h
                      (redact_page_lem (front ++ x ∷ []) seg back n)
                  ∙ ap (λ z. (front ++ z ∷ (map redact_row seg ++ back), n + changed_count seg))
                      (sym kept)))
          | inr other ↦ rw found (
              rw other (
                redact_first x (keep_if is_found seg) (front ++ x ∷ (seg ++ back)) n other
                ∙ ap (λ t. redact_page user_id (keep_if is_found seg) t (suc n))
                    (update_one front x (seg ++ back)
                      (λ c. record c { body = redacted_body user_id x.body }) h)
                ∙ redact_behind front x y seg back (suc n) refl h
                    (redact_page_lem (front ++ y ∷ []) seg back (suc n))
                ∙ ap (λ k. (front ++ y ∷ (map redact_row seg ++ back), k)) (omega arith)))
        ]
  ]
