-- ===== src/Ordering/Respread/Laws.antt =====
-- A batch of updates puts exactly the respread list in place, and that list is ordered.
use kurultay.Base.{
  ℕ, zero, suc, ◌+◌, ◌≤◌, ◌<◌, ◌≡◌, refl, sym, ap, ◌∙◌, ◌≢◌, inl, Bool, true, false, not, none,
  some, List, [], ◌∷◌, arith, map, length, get_elem?, get_or, insert_at, keep_if, find_first, ltb,
  ◌==◌, if◌then◌else◌,
}
use kurultay.Base.Perms.{IsAbsent, IsDistinct}
use kurultay.Ordering.Number.{Number}
use kurultay.Ordering.Fractional.{rebalance_positions, rebalance_positions_at}
use kurultay.Ordering.Slots.{Sibling}
use kurultay.Ordering.Chain.{IsOrdered}
use kurultay.Ordering.Respread.{position_at, respread_from, reposition}

module _ {Num : Type 0} where
  find_absent :
      (p : ℕ → Bool) (k : ℕ) (at : ℕ → Num) (a : ℕ) (zs : List (Sibling Num))
      → IsAbsent (λ z. z.id) a zs
      → find_first (λ u. u.id == a) (keep_if (λ u. p u.id) (respread_from k at zs)) ≡ none
  find_absent p k at a [] h = refl
  find_absent p k at a (z ∷ zs) h = ground (arith, find_absent p (suc k) at a zs h.1)

  map-reposition_cons :
      (u : Sibling Num) (us zs : List (Sibling Num))
      → IsAbsent (λ z. z.id) u.id zs
      → map (reposition (u ∷ us)) zs ≡ map (reposition us) zs
  unfolding reposition
  map-reposition_cons u us [] h = refl
  map-reposition_cons u us (z ∷ zs) h = ground (arith, map-reposition_cons u us zs h.1)

  -- The rows whose updates are left out already have their positions.
  abbrev pub IsKept : (ℕ → Bool) → ℕ → (ℕ → Num) → List (Sibling Num) → Type 0
  IsKept p k at [] = Unit {0}
  IsKept p k at (z ∷ zs) = (p z.id ≡ false → z.position ≡ at k) × IsKept p (suc k) at zs

  pub map-reposition_kept :
      (p : ℕ → Bool) (k : ℕ) (at : ℕ → Num) (zs : List (Sibling Num))
      → IsDistinct (λ z. z.id) zs
      → IsKept p k at zs
      → map (reposition (keep_if (λ u. p u.id) (respread_from k at zs))) zs ≡ respread_from k at zs
  unfolding reposition
  map-reposition_kept p k at [] d h = refl
  map-reposition_kept p k at (z ∷ zs) d h = ground (
    arith,
    map-reposition_kept p (suc k) at zs d.1 h.1,
    find_absent p (suc k) at z.id zs d.0,
    map-reposition_cons (record { id = z.id; position = at k })
        (keep_if (λ u. p u.id) (respread_from (suc k) at zs)) zs d.0,
  )

  pub map-reposition_all :
      (k : ℕ) (at : ℕ → Num) (zs : List (Sibling Num))
      → IsDistinct (λ z. z.id) zs
      → map (reposition (respread_from k at zs)) zs ≡ respread_from k at zs
  map-reposition_all k at zs d =
      rw (keep_all (respread_from k at zs)) at
        (map-reposition_kept (λ _. true) k at zs d (IsKept_all k zs))
    where
      keep_all : (us : List (Sibling Num)) → keep_if (λ u. true) us ≡ us
      keep_all [] = refl
      keep_all (u ∷ us) = ap (◌∷◌ u) (keep_all us)

      IsKept_all : (k : ℕ) (zs : List (Sibling Num)) → IsKept (λ _. true) k at zs
      IsKept_all k [] = tt
      IsKept_all k (z ∷ zs) = (λ e. cc, IsKept_all (suc k) zs)

  IsKept-absent :
      (t k : ℕ) (at : ℕ → Num) (xs : List (Sibling Num))
      → IsAbsent (λ z. z.id) t xs
      → IsKept (λ a. not (a == t)) k at xs
  IsKept-absent t k at [] h = tt
  IsKept-absent t k at (x ∷ xs) h = (λ e. ground arith, IsKept-absent t (suc k) at xs h.1)

  pub IsKept-insert_at :
      (i k : ℕ) (at : ℕ → Num) (s : Sibling Num) (xs : List (Sibling Num))
      → i ≤ length xs
      → IsAbsent (λ z. z.id) s.id xs
      → s.position ≡ at (k + i)
      → IsKept (λ a. not (a == s.id)) k at (insert_at i s xs)
  IsKept-insert_at zero k at s xs le h e =
      (λ _. e ∙ ap at (omega arith), IsKept-absent s.id (suc k) at xs h)
  IsKept-insert_at (suc i) k at s [] le h e = absurd (omega arith)
  IsKept-insert_at (suc i) k at s (x ∷ xs) le h e = (
    λ d. ground arith,
    IsKept-insert_at i (suc k) at s xs (omega arith) h.1 (e ∙ ap at (omega arith)),
  )

  IsAbsent-insert_at :
      (a i : ℕ) (s : Sibling Num) (xs : List (Sibling Num))
      → s.id ≢ a
      → IsAbsent (λ z. z.id) a xs
      → IsAbsent (λ z. z.id) a (insert_at i s xs)
  IsAbsent-insert_at a zero s xs d h = (d, h)
  IsAbsent-insert_at a (suc i) s [] d h = (d, tt)
  IsAbsent-insert_at a (suc i) s (x ∷ xs) d h = (h.0, IsAbsent-insert_at a i s xs d h.1)

  pub IsDistinct-insert_at :
      (i : ℕ) (s : Sibling Num) (xs : List (Sibling Num))
      → IsAbsent (λ z. z.id) s.id xs
      → IsDistinct (λ z. z.id) xs
      → IsDistinct (λ z. z.id) (insert_at i s xs)
  IsDistinct-insert_at zero s xs h d = (h, d)
  IsDistinct-insert_at (suc i) s [] h d = (tt, tt)
  IsDistinct-insert_at (suc i) s (x ∷ xs) h d =
      (IsAbsent-insert_at x.id i s xs (λ e. h.0 (sym e)) d.0, IsDistinct-insert_at i s xs h.1 d.1)

  respread_shift :
      (m k : ℕ) (at : ℕ → Num) (xs : List (Sibling Num))
      → m ≤ k
      → respread_from k (λ j. at (if ltb j m then j else j + 1)) xs ≡ respread_from (suc k) at xs
  respread_shift m k at [] le = refl
  respread_shift m k at (x ∷ xs) le = ground (arith, respread_shift m (suc k) at xs)

  -- Respreading around the free slot `m`, and then filling it, respreads the longer list.
  pub insert_at-respread :
      (i k m : ℕ) (at : ℕ → Num) (s : Sibling Num) (xs : List (Sibling Num))
      → i ≤ length xs
      → m ≡ k + i
      → insert_at i
          (record { id = s.id; position = at m })
          (respread_from k (λ j. at (if ltb j m then j else j + 1)) xs)
        ≡ respread_from k at (insert_at i s xs)
  insert_at-respread zero k m at s xs le e = ground (arith, respread_shift m k at xs)
  insert_at-respread (suc i) k m at s [] le e = absurd (omega arith)
  insert_at-respread (suc i) k m at s (x ∷ xs) le e =
      ground (arith, insert_at-respread i (suc k) m at s xs)

  pub length-respread :
      (k : ℕ) (at : ℕ → Num) (xs : List (Sibling Num)) → length (respread_from k at xs) ≡ length xs
  length-respread k at [] = refl
  length-respread k at (x ∷ xs) = ap suc (length-respread (suc k) at xs)

  pub length-insert_at :
      (i : ℕ) (s : Sibling Num) (xs : List (Sibling Num))
      → length (insert_at i s xs) ≡ length xs + 1
  length-insert_at zero s xs = omega arith
  length-insert_at (suc i) s [] = refl
  length-insert_at (suc i) s (x ∷ xs) = omega (arith, length-insert_at i s xs)

module _ (n : Number) where
  pub position_at_lem :
      (count i : ℕ)
      → i < count
      → position_at n (rebalance_positions n count) i ≡ n.gap_times (i + 1)
  position_at_lem count i h = get_elem?→get_or _ i (rebalance_positions_at n count i h)
    where
      get_elem?→get_or :
          (ps : List n.Num) (i : ℕ) {v : n.Num}
          → get_elem? ps i ≡ some v
          → get_or ps i (n.gap_times 0) ≡ v
      get_elem?→get_or [] i e = cc
      get_elem?→get_or (p ∷ ps) zero e = cc
      get_elem?→get_or (p ∷ ps) (suc i) e = get_elem?→get_or ps i e

  pub respread-IsOrdered :
      (count k : ℕ) (zs : List (Sibling n.Num))
      → k + length zs ≤ count
      → count ≤ n.max_length
      → IsOrdered n (respread_from k (position_at n (rebalance_positions n count)) zs)
  respread-IsOrdered count k [] le small = (tt)
  respread-IsOrdered count k (x ∷ []) le small = (tt, tt)
  respread-IsOrdered count k (x ∷ y ∷ zs) le small = (
    inl (
        rw (position_at_lem count k (omega arith), position_at_lem count (suc k) (omega arith))
          (n.gap_times_lt (k + 1) (suc k + 1) (omega arith) (omega arith))),
    respread-IsOrdered count (suc k) (y ∷ zs) (omega arith) small,
  )
