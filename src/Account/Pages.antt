-- ===== src/Account/Pages.antt =====
-- The pages of the redaction, one behind the other.
use kurultay.Base.{
  ℕ, zero, suc, ◌<◌, ◌≤◌, ◌≡◌, refl, ap, subst, ◌∙◌, ◌⊎◌, inl, inr, Bool, true, false, Option, some,
  List, [], ◌∷◌, ◌++◌, arith, All, keep_if, keep_if-append, take, last?, length, ltb, ◌==◌,
  if◌then◌else◌, Bool-cases,
}
use kurultay.Mentions.{Text}
use kurultay.Account.{Comment}
use kurultay.Account.Redaction.{is_after, id_of, is_on_page, redact_page, redact_comment_mentions}
use kurultay.Account.Sweep.{IsAscending, ids, last?-All, All-append_left, All-keep_if, is_found}

-- All the rows are behind the cursor, or none is.
abbrev pub IsPast : Option ℕ → Bool → List Comment → Type 0
IsPast cursor b = All (λ (c : Comment). is_after cursor c.id ≡ b)

pub ids-All :
    (i : ℕ) (cs : List Comment) → All (λ j. i < j) (ids cs) → All (λ (c : Comment). i < c.id) cs
ids-All i [] h = tt
ids-All i (c ∷ cs) h = (h.0, ids-All i cs h.1)

last_cons : {T : Type 0} (x : T) (xs : List T) {l : T} → last? xs ≡ some l → last? (x ∷ xs) ≡ some l
last_cons x [] e = cc
last_cons x (y ∷ ys) e = e

module _ (user_id : Text) where
  -- The rows that a page reaches over, and the rows that are left for the next ones.
  pub record Cut (size : ℕ) (rows seg back : List Comment) : Type 0 where
    pub joined : rows ≡ seg ++ back
    pub page : take size (keep_if (is_found user_id) rows) ≡ keep_if (is_found user_id) seg
    pub bottom :
        ((length (keep_if (is_found user_id) seg) < size) × (back ≡ []))
        ⊎ ((l : Comment) × (length (keep_if (is_found user_id) seg) ≡ size)
            × (last? (keep_if (is_found user_id) seg) ≡ some l)
            × All (λ c. c.id ≤ l.id) seg
            × All (λ c. l.id < c.id) back)

  Cut-found :
      (size : ℕ) (x : Comment) (rows seg back : List Comment)
      → All (λ c. x.id < c.id) rows
      → is_found user_id x ≡ true
      → Cut size rows seg back
      → Cut (suc size) (x ∷ rows) (x ∷ seg) back
  Cut-found size x rows seg back above found h = record {
    joined = ap (◌∷◌ x) h.joined;
    page = rw found (ap (◌∷◌ x) h.page);
    bottom = elim h.bottom [
      | inl (short, none_left) ↦ inl (rw found (omega (arith, short)), none_left)
      | inr (l, full, bottom, under, over) ↦
          let up = subst (All (λ c. x.id < c.id)) h.joined above in
          let far : x.id < l.id =
            last?-All (λ c. x.id < c.id) _ bottom
              (All-keep_if (λ c. x.id < c.id) (is_found user_id) seg
                (All-append_left (λ c. x.id < c.id) seg back up)) in
          inr (
            l,
            rw found (ap suc full),
            rw found (last_cons x (keep_if (is_found user_id) seg) bottom),
            (omega arith, under),
            over,
          )
    ];
  }

  Cut-passed :
      (size : ℕ) (x : Comment) (rows seg back : List Comment)
      → All (λ c. x.id < c.id) rows
      → is_found user_id x ≡ false
      → Cut size rows seg back
      → Cut size (x ∷ rows) (x ∷ seg) back
  Cut-passed size x rows seg back above missed h = record {
    joined = ap (◌∷◌ x) h.joined;
    page = rw missed h.page;
    bottom = elim h.bottom [
      | inl (short, none_left) ↦ inl (rw missed short, none_left)
      | inr (l, full, bottom, under, over) ↦
          let up = subst (All (λ c. x.id < c.id)) h.joined above in
          let far : x.id < l.id =
            last?-All (λ c. x.id < c.id) _ bottom
              (All-keep_if (λ c. x.id < c.id) (is_found user_id) seg
                (All-append_left (λ c. x.id < c.id) seg back up)) in
          inr (l, rw missed full, rw missed bottom, (omega arith, under), over)
    ];
  }

  -- Each page reaches over a part of the rows, as far as its last row.
  pub cut :
      (size : ℕ) (rows : List Comment)
      → IsAscending (ids rows)
      → (seg : List Comment) × (back : List Comment) × Cut (suc size) rows seg back
  cut size [] h = ([], [], record { joined = refl; page = refl; bottom = inl (omega arith, refl) })
  cut zero (x ∷ rows) h = elim (Bool-cases (is_found user_id x)) [
    | inr missed ↦
        let (seg, back, c) = cut zero rows h.1 in
        (x ∷ seg, back, Cut-passed 1 x rows seg back (ids-All x.id rows h.0) missed c)
    | inl found ↦ (
      x ∷ [],
      rows,
      record {
        joined = refl;
        page = rw found refl;
        bottom = inr (x, rw found refl, rw found refl, (omega arith, tt), ids-All x.id rows h.0);
      },
    )
  ]
  cut (suc size) (x ∷ rows) h = elim (Bool-cases (is_found user_id x)) [
    | inr missed ↦
        let (seg, back, c) = cut (suc size) rows h.1 in
        (
          x ∷ seg,
          back,
          Cut-passed (suc (suc size)) x rows seg back (ids-All x.id rows h.0) missed c,
        )
    | inl found ↦
        let (seg, back, c) = cut size rows h.1 in
        (x ∷ seg, back, Cut-found (suc size) x rows seg back (ids-All x.id rows h.0) found c)
  ]

  front_rows :
      (cursor : Option ℕ) (front : List Comment)
      → IsPast cursor false front
      → keep_if (is_on_page user_id cursor) front ≡ []
  front_rows cursor [] h = refl
  front_rows cursor (c ∷ cs) h = ground (arith, front_rows cursor cs h.1)

  back_rows :
      (cursor : Option ℕ) (back : List Comment)
      → IsPast cursor true back
      → keep_if (is_on_page user_id cursor) back ≡ keep_if (is_found user_id) back
  back_rows cursor [] h = refl
  back_rows cursor (c ∷ cs) h = ground (arith, back_rows cursor cs h.1)

  pub page_rows :
      (cursor : Option ℕ) (front back : List Comment)
      → IsPast cursor false front
      → IsPast cursor true back
      → keep_if (is_on_page user_id cursor) (front ++ back) ≡ keep_if (is_found user_id) back
  page_rows cursor front back h k =
      keep_if-append (is_on_page user_id cursor) front back
      ∙ ap (λ t. t ++ keep_if (is_on_page user_id cursor) back) (front_rows cursor front h)
      ∙ back_rows cursor back k

  -- A round of the loop, by the page that it reads.
  pub turn :
      (size fuel : ℕ) (cursor : Option ℕ) (rows page : List Comment) (n : ℕ)
      → take size (keep_if (is_on_page user_id cursor) rows) ≡ page
      → redact_comment_mentions user_id size (suc fuel) cursor rows n ≡ (
          if length page == 0
          then some (rows, n)
          else if ltb (length page) size
          then some (redact_page user_id page rows n)
          else redact_comment_mentions user_id size fuel
              (id_of (last? page))
              (redact_page user_id page rows n).0
              (redact_page user_id page rows n).1)
  unfolding redact_comment_mentions
  turn size fuel cursor rows page n e =
      ap
        (λ page.
          if length page == 0
          then some (rows, n)
          else if ltb (length page) size
          then some (redact_page user_id page rows n)
          else redact_comment_mentions user_id size fuel (id_of (last? page))
              (redact_page user_id page rows n).0 (redact_page user_id page rows n).1)
        e
