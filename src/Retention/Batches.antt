-- ===== src/Retention/Batches.antt =====
-- Deleting in batches deletes what one statement without a limit would, up to the ceiling.
use kurultay.Base.{
  ℕ, zero, suc, ◌+◌, ◌*◌, ◌≤◌, ◌≡◌, refl, sym, ap, ◌∙◌, inl, inr, Bool, true, not, List, [], ◌∷◌,
  arith, length, keep_if, take, ltb, Bool-cases,
}
use kurultay.Retention.{without_first, deleted_by, delete_in_batches}

module _ {T : Type 0} (p : T → Bool) where
  without_first-all :
      (k : ℕ) (rows : List T)
      → length (keep_if p rows) ≤ k
      → without_first p k rows ≡ keep_if (λ x. not (p x)) rows
  without_first-all k [] h = refl
  without_first-all zero (x ∷ xs) h = elim (Bool-cases (p x)) [
    | inl hit ↦ absurd (ground arith)
    | inr miss ↦
        rw miss (ap (◌∷◌ x) (sym (none_first xs) ∙ without_first-all zero xs (rw miss at h)))
  ]
    where
      none_first : (ys : List T) → without_first p zero ys ≡ ys
      none_first [] = refl
      none_first (y ∷ ys) = refl
  without_first-all (suc k) (x ∷ xs) h = elim (Bool-cases (p x)) [
    | inl hit ↦ rw hit (without_first-all k xs (ground arith))
    | inr miss ↦ rw miss (ap (◌∷◌ x) (without_first-all (suc k) xs (ground arith)))
  ]

  deleted-all :
      (k : ℕ) (rows : List T)
      → length (keep_if p rows) ≤ k
      → deleted_by p k rows ≡ length (keep_if p rows)
  deleted-all k rows h = all_taken k (keep_if p rows) h
    where
      all_taken : (k : ℕ) (xs : List T) → length xs ≤ k → length (take k xs) ≡ length xs
      all_taken zero [] h = refl
      all_taken (suc k) [] h = refl
      all_taken zero (x ∷ xs) h = absurd (omega arith)
      all_taken (suc k) (x ∷ xs) h = ap suc (all_taken k xs (omega arith))

  untouched : (rows : List T) → without_first p 0 rows ≡ rows
  untouched [] = refl
  untouched (x ∷ xs) = refl

  -- What a batch leaves of the rows that are to go.
  left_over :
      (k : ℕ) (rows : List T)
      → length (keep_if p (without_first p k rows)) + deleted_by p k rows ≡ length (keep_if p rows)
  left_over zero [] = refl
  left_over (suc k) [] = refl
  left_over zero (x ∷ xs) = omega arith
  left_over (suc k) (x ∷ xs) = elim (Bool-cases (p x)) [
    | inl hit ↦ rw hit (omega (arith, left_over k xs))
    | inr miss ↦ rw (miss, miss) (left_over (suc k) xs)
  ]

  kept_over :
      (k : ℕ) (rows : List T)
      → keep_if (λ x. not (p x)) (without_first p k rows) ≡ keep_if (λ x. not (p x)) rows
  kept_over k [] = refl
  kept_over zero (x ∷ xs) = refl
  kept_over (suc k) (x ∷ xs) = elim (Bool-cases (p x)) [
    | inl hit ↦ rw hit (kept_over k xs)
    | inr miss ↦ rw (miss, miss) (ap (◌∷◌ x) (kept_over (suc k) xs))
  ]

  short_of : (k : ℕ) (xs : List T) → ltb (length (take k xs)) k ≡ true → length xs ≤ k
  short_of zero xs h = absurd (ground arith)
  short_of (suc k) [] h = omega arith
  short_of (suc k) (x ∷ xs) h = let rest = short_of k xs (ground arith) in omega arith

  -- With passes for all the rows that are to go, those go and no others.
  pub delete_in_batches_lem :
      (passes size : ℕ) (rows : List T) (total : ℕ)
      → length (keep_if p rows) ≤ size * passes
      → delete_in_batches p passes size rows total
        ≡ (keep_if (λ x. not (p x)) rows, total + length (keep_if p rows))
  unfolding delete_in_batches
  delete_in_batches_lem zero size rows total h =
      let none_left : length (keep_if p rows) ≡ 0 = grind arith in
      ap (λ k. (rows, k)) (omega (arith, none_left))
      ∙ ap (λ r. (r, total + length (keep_if p rows)))
          (sym (untouched rows) ∙ without_first-all 0 rows (omega (arith, none_left)))
  delete_in_batches_lem (suc passes) size rows total h =
      elim (Bool-cases (ltb (deleted_by p size rows) size)) [
        | inl short ↦
            let few : length (keep_if p rows) ≤ size = short_of size (keep_if p rows) short in
            rw short (
              ap (λ r. (r, total + deleted_by p size rows)) (without_first-all size rows few)
              ∙ ap (λ k. (keep_if (λ x. not (p x)) rows, total + k)) (deleted-all size rows few))
        | inr full ↦
            let left = without_first p size rows in
            let whole : size ≤ deleted_by p size rows = ground arith in
            let rounds : size * suc passes ≡ size * passes + size = grind arith in
            let fewer : length (keep_if p left) ≤ size * passes =
              omega (arith, left_over size rows, whole, rounds) in
            rw full (
              delete_in_batches_lem passes size left (total + deleted_by p size rows) fewer
              ∙ ap (λ r. (r, (total + deleted_by p size rows) + length (keep_if p left)))
                  (kept_over size rows)
              ∙ ap (λ k. (keep_if (λ x. not (p x)) rows, k)) (omega (arith, left_over size rows)))
      ]
