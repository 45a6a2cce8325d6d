-- ===== src/Ordering/Placement.antt =====
-- Where a created or moved row ends up: in the slot that was found, with the list still in order,
-- whether its position is a midpoint or the list was respread.
use mathlib.Core.List.Perm
use kurultay.Base.{
  ℕ, zero, suc, ◌+◌, ◌≤◌, ◌≡◌, refl, ap, subst, ◌∙◌, inl, true, false, not, Option, none, some,
  List, [], ◌∷◌, arith, map, Perm, length, get_elem?, insert_at, keep_if, All, ◌==◌,
}
use kurultay.Base.Perms.{IsAbsent, IsDistinct, perm-insert_at}
use kurultay.Ordering.Number.{Number}
use kurultay.Ordering.Fractional.{midpoint, needs_rebalance, rebalance_positions}
use kurultay.Ordering.Slots.{Sibling, item_before}
use kurultay.Ordering.Chain.{IsOrdered, Fits, insert_at-IsOrdered}
use kurultay.Ordering.Respread.{
  respread_from, position_at, reposition, create_updates, other_updates,
}
use kurultay.Ordering.Respread.Laws.{
  map-reposition_all, map-reposition_kept, IsKept-insert_at, IsDistinct-insert_at,
  insert_at-respread, length-insert_at, respread-IsOrdered,
}

-- `prev?.position ?? null`
abbrev pub pos_of : {Num : Type 0} → Option (Sibling Num) → Option Num
pos_of none = none
pos_of (some s) = some s.position

abbrev pub ids : {Num : Type 0} → List (Sibling Num) → List ℕ
ids = map (λ s. s.id)

-- The database's `orderBy: [{ position: 'asc' }, { id: 'asc' }]`.
pub record SortedReads (n : Number) : Type 0 where
  pub order_by : List (Sibling n.Num) → List (Sibling n.Num)
  pub order_by-perm : (xs : List (Sibling n.Num)) → Perm xs (order_by xs)
  pub order_by-IsOrdered :
      (xs : List (Sibling n.Num)) → IsDistinct (λ s. s.id) xs → IsOrdered n (order_by xs)

module _ (n : Number) where
  abbrev pub IsFine : List (Sibling n.Num) → Type 0
  IsFine = All (λ s. n.is_fine s.position ≡ true)

  -- `rows`, in any order, are the siblings `zs` in position order.
  pub record IsListing (rows zs : List (Sibling n.Num)) : Type 0 where
    pub perm : Perm rows zs
    pub ordered : IsOrdered n zs

  get_elem?-IsFine :
      (xs : List (Sibling n.Num)) (i : ℕ) {s : Sibling n.Num}
      → IsFine xs
      → get_elem? xs i ≡ some s
      → n.is_fine s.position ≡ true
  get_elem?-IsFine [] i h e = cc
  get_elem?-IsFine (x ∷ xs) zero h e = cc (h.0)
  get_elem?-IsFine (x ∷ xs) (suc i) h e = get_elem?-IsFine xs i h.1 e

  item_before-IsFine :
      (xs : List (Sibling n.Num)) (i : ℕ) {s : Sibling n.Num}
      → IsFine xs
      → item_before xs i ≡ some s
      → n.is_fine s.position ≡ true
  item_before-IsFine xs zero h e = cc
  item_before-IsFine xs (suc i) h e = get_elem?-IsFine xs i h e

  midpoint-Fits :
      (a : ℕ) (o q : Option (Sibling n.Num))
      → ((s : Sibling n.Num) → o ≡ some s → n.is_fine s.position ≡ true)
      → ((s : Sibling n.Num) → q ≡ some s → n.is_fine s.position ≡ true)
      → needs_rebalance n (pos_of o) (pos_of q) ≡ false
      → Fits n o (record { id = a; position = midpoint n (pos_of o) (pos_of q) }) q
  unfolding midpoint needs_rebalance
  midpoint-Fits a none none fo fq h = tt
  midpoint-Fits a none (some q) fo fq h = inl (n.sub_gap-lt q.position (fq q refl))
  midpoint-Fits a (some p) none fo fq h = inl (n.lt-add_gap p.position (fo p refl))
  midpoint-Fits a (some p) (some q) fo fq h = (
    inl (n.lt-mean p.position q.position (fo p refl) (fq q refl) h),
    inl (n.mean-lt p.position q.position (fo p refl) (fq q refl) h),
  )

  -- In a list that is strictly in order and whose positions are all fine (the doubles there are
  -- dense enough for gaps of `MIN_GAP`), a row put at the midpoint of the gap before place `i`
  -- keeps the list strictly in order, wherever `needsRebalance` does not ask for a respread.
  pub midpoint-IsOrdered :
      (a i : ℕ) (xs : List (Sibling n.Num))
      → IsOrdered n xs
      → IsFine xs
      → i ≤ length xs
      → needs_rebalance n (pos_of (item_before xs i)) (pos_of (get_elem? xs i)) ≡ false
      → IsOrdered n (
          insert_at i
            (record {
              id = a;
              position = midpoint n (pos_of (item_before xs i)) (pos_of (get_elem? xs i));
            })
            xs)
  midpoint-IsOrdered a i xs ordered fine le wide = insert_at-IsOrdered n i _ xs le ordered (
      midpoint-Fits a (item_before xs i) (get_elem? xs i) (λ s e. item_before-IsFine xs i fine e)
        (λ s e. get_elem?-IsFine xs i fine e) wide)

  ids-respread :
      (k : ℕ) (at : ℕ → n.Num) (xs : List (Sibling n.Num)) → ids (respread_from k at xs) ≡ ids xs
  ids-respread k at [] = refl
  ids-respread k at (x ∷ xs) = ap (◌∷◌ x.id) (ids-respread (suc k) at xs)

  pub ids-insert_at :
      (i : ℕ) (s : Sibling n.Num) (xs : List (Sibling n.Num))
      → ids (insert_at i s xs) ≡ insert_at i s.id (ids xs)
  ids-insert_at zero s xs = refl
  ids-insert_at (suc i) s [] = refl
  ids-insert_at (suc i) s (x ∷ xs) = ap (◌∷◌ x.id) (ids-insert_at i s xs)

  -- The row `a` stands at place `i` among the siblings `xs`, whose order has not changed.
  pub record IsPlaced (rows xs : List (Sibling n.Num)) (a i : ℕ) : Type 0 where
    pub listing : List (Sibling n.Num)
    pub is_listing : IsListing rows listing
    pub ids_eq : ids listing ≡ insert_at i a (ids xs)

  respread-insert_at_ids :
      (i k : ℕ) (at : ℕ → n.Num) (a : ℕ) (p q : n.Num) (xs : List (Sibling n.Num))
      → respread_from k at (insert_at i (record { id = a; position = p }) xs)
        ≡ respread_from k at (insert_at i (record { id = a; position = q }) xs)
  respread-insert_at_ids zero k at a p q xs = refl
  respread-insert_at_ids (suc i) k at a p q [] = refl
  respread-insert_at_ids (suc i) k at a p q (x ∷ xs) =
      ap (◌∷◌ (record { id = x.id; position = at k }))
        (respread-insert_at_ids i (suc k) at a p q xs)

  module _ (xs : List (Sibling n.Num)) (a i : ℕ) (le : i ≤ length xs)
      (absent : IsAbsent (λ s. s.id) a xs) (distinct : IsDistinct (λ s. s.id) xs) where
    abbrev middle : Sibling n.Num
    middle = record {
      id = a;
      position = midpoint n (pos_of (item_before xs i)) (pos_of (get_elem? xs i));
    }

    pub midpoint-IsPlaced :
        (rows : List (Sibling n.Num))
        → IsOrdered n xs
        → IsFine xs
        → needs_rebalance n (pos_of (item_before xs i)) (pos_of (get_elem? xs i)) ≡ false
        → Perm rows (middle ∷ xs)
        → IsPlaced rows xs a i
    midpoint-IsPlaced rows ordered fine wide perm = record {
      listing = insert_at i middle xs;
      is_listing = record {
        perm = Perm.trans perm (Perm.symm (perm-insert_at i middle xs));
        ordered = midpoint-IsOrdered a i xs ordered fine le wide;
      };
      ids_eq = ids-insert_at i middle xs;
    }

    -- The row at the slot's place in a respread list of `count` rows.
    abbrev respread_row : ℕ → Sibling n.Num
    respread_row count = record { id = a; position = position_at n (rebalance_positions n count) i }

    respread-IsPlaced :
        (count : ℕ) (rows : List (Sibling n.Num))
        → length xs + 1 ≡ count
        → count ≤ n.max_length
        → Perm rows (
            respread_from 0
              (position_at n (rebalance_positions n count))
              (insert_at i (respread_row count) xs))
        → IsPlaced rows xs a i
    respread-IsPlaced count rows e small perm = record {
      listing =
          respread_from 0 (position_at n (rebalance_positions n count))
            (insert_at i (respread_row count) xs);
      is_listing = record {
        perm = perm;
        ordered =
            respread-IsOrdered n count 0 (insert_at i (respread_row count) xs)
              (omega (arith, length-insert_at i (respread_row count) xs)) small;
      };
      ids_eq = ids-respread 0 _ _ ∙ ids-insert_at i (respread_row count) xs;
    }

    pub create-IsPlaced :
        (rows : List (Sibling n.Num))
        → length xs + 1 ≤ n.max_length
        → Perm rows (respread_row (length xs + 1) ∷ map (reposition (create_updates n i xs)) xs)
        → IsPlaced rows xs a i
    unfolding create_updates
    create-IsPlaced rows small perm = respread-IsPlaced (length xs + 1) rows refl small (
        subst (Perm rows)
          (insert_at-respread i 0 i (position_at n (rebalance_positions n (length xs + 1)))
            (respread_row (length xs + 1)) xs le (omega arith))
          (Perm.trans
            (subst (λ zs. Perm rows (respread_row (length xs + 1) ∷ zs))
              (map-reposition_all 0 _ xs distinct) perm)
            (Perm.symm (perm-insert_at i _ _))))

    pub move-IsPlaced :
        (rows : List (Sibling n.Num)) (old : n.Num)
        → length xs + 1 ≤ n.max_length
        → let moved : Sibling n.Num = record { id = a; position = old } in
          Perm rows (
            map
              (reposition (other_updates n i moved xs))
              (respread_row (length (insert_at i moved xs)) ∷ xs))
          → IsPlaced rows xs a i
    unfolding other_updates
    move-IsPlaced rows old small perm =
        respread-IsPlaced count rows (omega (arith, long)) (omega (arith, long)) (
          Perm.trans perm (
            subst (Perm _)
              (ap (λ us. map (reposition (keep_if (λ u. not (u.id == a)) us)) zs)
                  (respread-insert_at_ids i 0 at a old row.position xs)
                ∙ map-reposition_kept (λ b. not (b == a)) 0 at zs
                    (IsDistinct-insert_at i row xs absent distinct)
                    (IsKept-insert_at i 0 at row xs le absent (ap at (omega arith))))
              (Perm.map _ (Perm.symm (perm-insert_at i row xs)))))
      where
        count : ℕ
        count = length (insert_at i (record { id = a; position = old }) xs)

        at : ℕ → n.Num
        at = position_at n (rebalance_positions n count)

        row : Sibling n.Num
        row = respread_row count

        zs : List (Sibling n.Num)
        zs = insert_at i row xs

        long : count ≡ length xs + 1
        long = length-insert_at i _ xs
