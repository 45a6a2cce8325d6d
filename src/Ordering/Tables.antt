-- ===== src/Ordering/Tables.antt =====
-- The rows of a table that share a scope (the tasks of a column, the columns of a board), seen as
-- siblings, and what `update` and `deleteMany` with a predicate do to them.
use mathlib.Core.List.Perm
use kurultay.Base.{
  ℕ, ◌≡◌, refl, subst, ◌≢◌, inl, inr, Bool, true, false, not, some, List, [], ◌∷◌, arith, map, Perm,
  keep_if, find_first, find_first-All, ◌==◌, if◌then◌else◌, Bool-cases,
}
use kurultay.Base.Perms.{perm_of_eq, IsAbsent, IsDistinct}
use kurultay.Ordering.Slots.{Sibling}

-- `UPDATE … SET … WHERE p`
abbrev pub update_where : {T : Type 0} → (T → Bool) → (T → T) → List T → List T
update_where p f = map (λ t. if p t then f t else t)

module _ {Num : Type 0} where
  -- The siblings without the one of id `i`.
  abbrev pub without : ℕ → List (Sibling Num) → List (Sibling Num)
  without i = keep_if (λ s. not (s.id == i))

  without-IsAbsent_kept :
      (a i : ℕ) (xs : List (Sibling Num))
      → IsAbsent (λ s. s.id) a xs
      → IsAbsent (λ s. s.id) a (without i xs)
  without-IsAbsent_kept a i [] h = tt
  without-IsAbsent_kept a i (x ∷ xs) h = ground (arith, without-IsAbsent_kept a i xs h.1)

  pub without-IsAbsent : (i : ℕ) (xs : List (Sibling Num)) → IsAbsent (λ s. s.id) i (without i xs)
  without-IsAbsent i [] = tt
  without-IsAbsent i (x ∷ xs) = ground (arith, without-IsAbsent i xs)

  pub without-IsDistinct :
      (i : ℕ) (xs : List (Sibling Num))
      → IsDistinct (λ s. s.id) xs
      → IsDistinct (λ s. s.id) (without i xs)
  without-IsDistinct i [] d = tt
  without-IsDistinct i (x ∷ xs) d =
      ground (arith, without-IsDistinct i xs d.1, without-IsAbsent_kept x.id i xs d.0)

module _ {T Num : Type 0} (scope : T → ℕ) (sib : T → Sibling Num) where
  abbrev pub rows_in : ℕ → List T → List (Sibling Num)
  rows_in c ts = map sib (keep_if (λ t. scope t == c) ts)

  abbrev key : T → ℕ
  key t = (sib t).id

  pub rows_in-IsAbsent :
      (a c : ℕ) (ts : List T) → IsAbsent key a ts → IsAbsent (λ s. s.id) a (rows_in c ts)
  rows_in-IsAbsent a c [] h = tt
  rows_in-IsAbsent a c (t ∷ ts) h = ground (arith, rows_in-IsAbsent a c ts h.1)

  pub rows_in-IsDistinct :
      (c : ℕ) (ts : List T) → IsDistinct key ts → IsDistinct (λ s. s.id) (rows_in c ts)
  rows_in-IsDistinct c [] d = tt
  rows_in-IsDistinct c (t ∷ ts) d =
      ground (arith, rows_in-IsDistinct c ts d.1, rows_in-IsAbsent (key t) c ts d.0)

  pub without_absent :
      (i : ℕ) (xs : List (Sibling Num)) → IsAbsent (λ s. s.id) i xs → without i xs ≡ xs
  without_absent i [] h = refl
  without_absent i (x ∷ xs) h = ground (arith, without_absent i xs h.1)

  module _ (p : T → Bool) (i : ℕ) (only : (x : T) → p x ≡ true → key x ≡ i) where
    update_absent : (f : T → T) (ts : List T) → IsAbsent key i ts → update_where p f ts ≡ ts
    update_absent f [] h = refl
    update_absent f (t ∷ ts) h = ground (arith, only t, update_absent f ts h.1)

    find_first-key : (ts : List T) {t : T} → find_first p ts ≡ some t → p t ≡ true
    find_first-key [] e = cc
    find_first-key (x ∷ xs) {t} e = ground (arith, find_first-key xs {t = t})

    rows_in-absent :
        (x : T) (xs : List T)
        → p x ≡ true
        → IsAbsent key (key x) xs
        → (c : ℕ) → without i (rows_in c xs) ≡ rows_in c xs
    rows_in-absent x xs hit h c =
        without_absent i (rows_in c xs)
          (rows_in-IsAbsent i c xs (subst (λ a. IsAbsent key a xs) (only x hit) h))

    passed :
        (c : ℕ) (f : T → T) (x : T) (xs : List T) {t : T}
        → IsAbsent key (key x) xs
        → find_first p xs ≡ some t
        → p x ≡ false
        → Perm (rows_in c (update_where p f xs)) (sib (f t) ∷ without i (rows_in c xs))
        → Perm (rows_in c (update_where p f (x ∷ xs))) (sib (f t) ∷ without i (rows_in c (x ∷ xs)))
    passed c f x xs {t} far e miss ih = elim (Bool-cases (scope x == c)) [
      | inl inside ↦
          rw (miss, inside, other)
            (Perm.trans (Perm.cons (sib x) ih) (Perm.swap (sib (f t)) (sib x) _))
      | inr outside ↦ rw (miss, outside) ih
    ]
      where
        apart : key t ≢ key x
        apart = find_first-All (λ t. key t ≢ key x) p xs e far

        other : (key x == i) ≡ false
        other = ground (arith, apart, only t (find_first-key xs e))

    -- The updated row joins the rows of its new scope, from which its old version is gone.
    pub rows_in-update :
        (c : ℕ) (f : T → T) (ts : List T) {t : T}
        → IsDistinct key ts
        → find_first p ts ≡ some t
        → scope (f t) ≡ c
        → Perm (rows_in c (update_where p f ts)) (sib (f t) ∷ without i (rows_in c ts))
    rows_in-update c f [] d e h = cc
    rows_in-update c f (x ∷ xs) {t} d e h = elim (Bool-cases (p x)) [
      | inl hit ↦ perm_of_eq (
          ground (
            arith,
            only x hit,
            update_absent f xs,
            rows_in-absent x xs hit d.0 c,
            subst (λ a. IsAbsent key a xs) (only x hit) d.0,
          ))
      | inr miss ↦
          passed c f x xs d.0 (ground arith) miss (rows_in-update c f xs d.1 (ground arith) h)
    ]

    -- Any other scope only loses the updated row.
    pub rows_in-update_elsewhere :
        (c : ℕ) (f : T → T) (ts : List T) {t : T}
        → IsDistinct key ts
        → find_first p ts ≡ some t
        → scope (f t) ≢ c
        → rows_in c (update_where p f ts) ≡ without i (rows_in c ts)
    rows_in-update_elsewhere c f [] d e h = cc
    rows_in-update_elsewhere c f (x ∷ xs) {t} d e h = elim (Bool-cases (p x)) [
      | inl hit ↦ ground (
        arith,
        only x hit,
        update_absent f xs,
        rows_in-absent x xs hit d.0 c,
        subst (λ a. IsAbsent key a xs) (only x hit) d.0,
      )
      | inr miss ↦
          let found : find_first p xs ≡ some t = ground arith in
          let far : key t ≢ key x = find_first-All (λ y. key y ≢ key x) p xs found d.0 in
          ground (
            arith,
            far,
            only t (find_first-key xs found),
            rows_in-update_elsewhere c f xs d.1 found h,
          )
    ]

    delete_absent : (ts : List T) → IsAbsent key i ts → keep_if (λ t. not (p t)) ts ≡ ts
    delete_absent [] h = refl
    delete_absent (t ∷ ts) h = ground (arith, only t, delete_absent ts h.1)

    -- Deleting the row takes it out of every scope.
    pub rows_in-delete :
        (c : ℕ) (ts : List T) {t : T}
        → IsDistinct key ts
        → find_first p ts ≡ some t
        → rows_in c (keep_if (λ t. not (p t)) ts) ≡ without i (rows_in c ts)
    rows_in-delete c [] d e = cc
    rows_in-delete c (x ∷ xs) {t} d e = elim (Bool-cases (p x)) [
      | inl hit ↦ ground (
        arith,
        only x hit,
        delete_absent xs,
        rows_in-absent x xs hit d.0 c,
        subst (λ a. IsAbsent key a xs) (only x hit) d.0,
      )
      | inr miss ↦
          let found : find_first p xs ≡ some t = ground arith in
          let far : key t ≢ key x = find_first-All (λ y. key y ≢ key x) p xs found d.0 in
          ground (arith, far, only t (find_first-key xs found), rows_in-delete c xs d.1 found)
    ]
