-- ===== src/Account/Redacted.antt =====
-- The paged redaction ends, and is one pass over all the comments.
use mathlib.Core.List.{append_assoc, append-nil, map-append}
use kurultay.Base.{
  ℕ, zero, suc, ◌+◌, ◌<◌, ◌≤◌, ◌≡◌, refl, sym, ap, subst, ◌∙◌, inl, inr, true, false, Option, none,
  some, List, [], ◌∷◌, ◌++◌, map, arith, All, keep_if, keep_if-append, take, last?, length,
  length-append, ltb, ◌==◌, if◌then◌else◌, Bool-cases,
}
use kurultay.Mentions.{Text}
use kurultay.Account.{Comment}
use kurultay.Account.Redaction.{is_after, id_of, is_on_page, redact_page, redact_comment_mentions}
use kurultay.Account.Sweep.{
  IsAscending, ids, last?-All, All-append_left, All-append_right, All-keep_if, redact_row, is_found,
  changed_count, redact_page_lem,
}
use kurultay.Account.Pages.{cut, IsPast, ids-All, page_rows, turn}

All-append_both :
    {T : Type 0} (P : T → Type 0) (xs ys : List T) → All P xs → All P ys → All P (xs ++ ys)
All-append_both P [] ys h k = k
All-append_both P (x ∷ xs) ys h k = (h.0, All-append_both P xs ys h.1 k)

IsAscending-drop :
    (front back : List Comment) → IsAscending (ids (front ++ back)) → IsAscending (ids back)
IsAscending-drop [] back h = h
IsAscending-drop (c ∷ front) back h = IsAscending-drop front back h.1

module _ (user_id : Text) where
  redact_row-id : (c : Comment) → (redact_row user_id c).id ≡ c.id
  redact_row-id c = elim (Bool-cases (is_found user_id c)) [
    | inl found ↦ rw found
    | inr missed ↦ rw missed
  ]

  ids_redacted :
      (front seg back : List Comment)
      → ids ((front ++ map (redact_row user_id) seg) ++ back) ≡ ids (front ++ (seg ++ back))
  ids_redacted [] [] back = refl
  ids_redacted [] (c ∷ seg) back =
      ap (λ i. i ∷ ids (map (redact_row user_id) seg ++ back)) (redact_row-id c)
      ∙ ap (◌∷◌ c.id) (ids_redacted [] seg back)
  ids_redacted (c ∷ front) seg back = ap (◌∷◌ c.id) (ids_redacted front seg back)

  nothing_found :
      (seg : List Comment)
      → length (keep_if (is_found user_id) seg) ≡ 0
      → (map (redact_row user_id) seg ≡ seg) × (changed_count user_id seg ≡ 0)
  nothing_found [] e = (refl, refl)
  nothing_found (c ∷ seg) e = elim (Bool-cases (is_found user_id c)) [
    | inl found ↦ absurd (ground arith)
    | inr missed ↦
        let (same, none_changed) = nothing_found seg (rw missed at e) in
        rw missed (ap (◌∷◌ c) same, none_changed)
  ]

  changed_count-append :
      (seg back : List Comment)
      → changed_count user_id (seg ++ back) ≡ changed_count user_id seg + changed_count user_id back
  changed_count-append seg back =
      ap length (keep_if-append _ seg back) ∙ length-append (keep_if _ seg) (keep_if _ back)

  front_below :
      (front seg back : List Comment) {l : Comment}
      → IsAscending (ids (front ++ (seg ++ back)))
      → last? (keep_if (is_found user_id) seg) ≡ some l
      → IsPast (some l.id) false front
  front_below [] seg back h e = tt
  front_below (x ∷ front) seg back {l} h e =
      let far : x.id < l.id =
        last?-All (λ c. x.id < c.id) _ e
          (All-keep_if (λ c. x.id < c.id) (is_found user_id) seg
            (All-append_left (λ c. x.id < c.id) seg back
              (All-append_right (λ c. x.id < c.id) front (seg ++ back)
                (ids-All x.id (front ++ (seg ++ back)) h.0)))) in
      (ground arith, front_below front seg back h.1 e)

  seg_below :
      (l : Comment) (seg : List Comment)
      → All (λ c. c.id ≤ l.id) seg
      → IsPast (some l.id) false (map (redact_row user_id) seg)
  seg_below l [] h = tt
  seg_below l (c ∷ seg) h = (ground (arith, redact_row-id c, h.0), seg_below l seg h.1)

  back_above :
      (l : Comment) (back : List Comment)
      → All (λ c. l.id < c.id) back
      → IsPast (some l.id) true back
  back_above l [] h = tt
  back_above l (c ∷ back) h = (ground (arith, h.0), back_above l back h.1)

  -- The last page.
  last_page :
      (front seg : List Comment) (n : ℕ) (page_length : ℕ)
      → length (keep_if (is_found user_id) seg) ≡ page_length
      → IsAscending (ids (front ++ (seg ++ [])))
      → (if page_length == 0
          then some (front ++ (seg ++ []), n)
          else some (redact_page user_id (keep_if (is_found user_id) seg) (front ++ (seg ++ [])) n))
        ≡ some
            (front ++ map (redact_row user_id) (seg ++ []), n + changed_count user_id (seg ++ []))
  last_page front seg n zero e h =
      let (same, none_changed) = nothing_found seg e in
      rw (append-nil seg, same, none_changed) (ap (λ k. some (front ++ seg, k)) (omega arith))
  last_page front seg n (suc k) e h =
      let more : (suc k == 0) ≡ false = ground arith in
      rw more (
        ap some (redact_page_lem user_id front seg [] n h)
        ∙ rw (append-nil seg, append-nil (map (redact_row user_id) seg)) refl)

  short_page :
      (front back seg : List Comment) (n : ℕ)
      → back ≡ seg ++ []
      → IsAscending (ids (front ++ back))
      → (if length (keep_if (is_found user_id) seg) == 0
          then some (front ++ back, n)
          else some (redact_page user_id (keep_if (is_found user_id) seg) (front ++ back) n))
        ≡ some (front ++ map (redact_row user_id) back, n + changed_count user_id back)
  short_page front back seg n e h =
      subst
        (λ b.
          (if length (keep_if (is_found user_id) seg) == 0
            then some (front ++ b, n)
            else some (redact_page user_id (keep_if (is_found user_id) seg) (front ++ b) n))
          ≡ some (front ++ map (redact_row user_id) b, n + changed_count user_id b))
        (sym e) (last_page front seg n _ refl (subst (λ b. IsAscending (ids (front ++ b))) e h))

  page_done :
      (front back seg rest : List Comment) (n : ℕ)
      → back ≡ seg ++ rest
      → IsAscending (ids (front ++ back))
      → redact_page user_id (keep_if (is_found user_id) seg) (front ++ back) n
        ≡ ((front ++ map (redact_row user_id) seg) ++ rest, n + changed_count user_id seg)
  page_done front back seg rest n e h =
      ap (λ b. redact_page user_id (keep_if (is_found user_id) seg) (front ++ b) n) e
      ∙ redact_page_lem user_id front seg rest n (subst (λ b. IsAscending (ids (front ++ b))) e h)
      ∙ ap (λ t. (t, n + changed_count user_id seg))
          (sym (append_assoc front (map (redact_row user_id) seg) rest))

  whole_pass :
      (front back seg rest : List Comment) (n : ℕ)
      → back ≡ seg ++ rest
      → ◌≡◌ {A = Option (List Comment × ℕ)}
          (some (
            (front ++ map (redact_row user_id) seg) ++ map (redact_row user_id) rest,
            (n + changed_count user_id seg) + changed_count user_id rest,
          ))
          (some (front ++ map (redact_row user_id) back, n + changed_count user_id back))
  whole_pass front back seg rest n e = ap some (
      ap (λ t. (t, (n + changed_count user_id seg) + changed_count user_id rest))
        (append_assoc front (map (redact_row user_id) seg) (map (redact_row user_id) rest)
          ∙ ap (λ t. front ++ t) (sym (map-append (redact_row user_id) seg rest)))
      ∙ ap (λ k. (front ++ map (redact_row user_id) (seg ++ rest), k))
          (omega (arith, changed_count-append seg rest))
      ∙ ap (λ b. (front ++ map (redact_row user_id) b, n + changed_count user_id b)) (sym e))

  seg_pos :
      (seg : List Comment) {k : ℕ}
      → length (keep_if (is_found user_id) seg) ≡ suc k
      → 1 ≤ length seg
  seg_pos [] e = absurd (omega arith)
  seg_pos (c ∷ seg) e = omega arith

  -- With fuel for one round more than there are rows behind the cursor, the loop ends.
  redact_from :
      (size fuel : ℕ) (cursor : Option ℕ) (front back : List Comment) (n : ℕ)
      → IsAscending (ids (front ++ back))
      → IsPast cursor false front
      → IsPast cursor true back
      → length back < fuel
      → redact_comment_mentions user_id (suc size) fuel cursor (front ++ back) n
        ≡ some (front ++ map (redact_row user_id) back, n + changed_count user_id back)
  redact_from size zero cursor front back n h past ahead enough = absurd (omega arith)
  redact_from size (suc fuel) cursor front back n h past ahead enough =
      let (seg, rest, c) = cut user_id size back (IsAscending-drop front back h) in
      let page = keep_if (is_found user_id) seg in
      let read : take (suc size) (keep_if (is_on_page user_id cursor) (front ++ back)) ≡ page =
        ap (take (suc size)) (page_rows user_id cursor front back past ahead) ∙ c.page in
      turn user_id (suc size) fuel cursor (front ++ back) page n read ∙ elim c.bottom [
        | inl (short, none_left) ↦
            let last_one : ltb (length page) (suc size) ≡ true = ground arith in
            rw last_one (short_page front back seg n (c.joined ∙ ap (λ t. seg ++ t) none_left) h)
        | inr (l, full, bottom, under, over) ↦
            let more : (length page == 0) ≡ false = ground arith in
            let whole : ltb (length page) (suc size) ≡ false = ground arith in
            let asc : IsAscending (ids (front ++ (seg ++ rest))) =
              subst (λ b. IsAscending (ids (front ++ b))) c.joined h in
            let fewer : length rest < fuel =
              omega (arith, ap length c.joined, length-append {0} seg rest, seg_pos seg full) in
            rw more (
              rw whole (
                ap
                  (λ o.
                    redact_comment_mentions user_id (suc size) fuel (id_of o)
                      (redact_page user_id page (front ++ back) n).0
                      (redact_page user_id page (front ++ back) n).1)
                  bottom
                ∙ ap (λ q. redact_comment_mentions user_id (suc size) fuel (some l.id) q.0 q.1)
                    (page_done front back seg rest n c.joined h)
                ∙ redact_from size fuel (some l.id) (front ++ map (redact_row user_id) seg) rest
                    (n + changed_count user_id seg)
                    (subst IsAscending (sym (ids_redacted front seg rest)) asc)
                    (All-append_both (λ x. is_after (some l.id) x.id ≡ false) front _
                      (front_below front seg rest asc bottom) (seg_below l seg under))
                    (back_above l rest over) fewer
                ∙ whole_pass front back seg rest n c.joined))
      ]

  all_ahead : (rows : List Comment) → IsPast none true rows
  all_ahead [] = tt
  all_ahead (c ∷ rows) = (refl, all_ahead rows)

  -- The loop over the pages ends, whatever the size of a page, and does what one pass over the
  -- table does: it takes the name out of every comment that the query finds, changes no other one,
  -- and counts the comments whose body it has changed. The hypotheses: the comments stand in the
  -- order of their ids, a page has room for a row, and there is a round for each comment, and one
  -- more.
  pub redact_comment_mentions_lem :
      (size fuel : ℕ) (comments : List Comment)
      → IsAscending (map (λ c. c.id) comments)
      → 0 < size
      → length comments < fuel
      → redact_comment_mentions user_id size fuel none comments 0
        ≡ some (map (redact_row user_id) comments, changed_count user_id comments)
  redact_comment_mentions_lem zero fuel comments h pos enough = absurd (omega arith)
  redact_comment_mentions_lem (suc size) fuel comments h pos enough =
      redact_from size fuel none [] comments 0 h tt (all_ahead comments) enough
      ∙ ap (λ k. some (map (redact_row user_id) comments, k)) (omega arith)
