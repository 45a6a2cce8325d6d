-- ===== src/Ordering/Chain.antt =====
-- Lists in position order, ties broken by id, as `orderBy: [{ position: 'asc' }, { id: 'asc' }]`.
use kurultay.Base.{
  ℕ, zero, suc, ◌≤◌, ◌<◌, ◌≡◌, sym, subst, ◌∙◌, ◌⊎◌, inl, inr, Bool, true, Option, none, some, List,
  [], ◌∷◌, arith, length, get_elem?, insert_at, keep_if, Bool-cases,
}
use kurultay.Ordering.Number.{Number}
use kurultay.Ordering.Slots.{Sibling, item_before}

module _ (n : Number) where
  abbrev pub Before : Sibling n.Num → Sibling n.Num → Type 0
  Before a b = (n.lt a.position b.position ≡ true) ⊎ ((a.position ≡ b.position) × (a.id < b.id))

  abbrev pub BeforeHead : Sibling n.Num → List (Sibling n.Num) → Type 0
  BeforeHead a [] = Unit {0}
  BeforeHead a (b ∷ xs) = Before a b

  abbrev pub IsOrdered : List (Sibling n.Num) → Type 0
  IsOrdered [] = Unit {0}
  IsOrdered (a ∷ xs) = BeforeHead a xs × IsOrdered xs

  -- `a` may stand between the two neighbours, each of which may be missing.
  abbrev pub Fits : Option (Sibling n.Num) → Sibling n.Num → Option (Sibling n.Num) → Type 0
  Fits none a none = Unit {0}
  Fits none a (some q) = Before a q
  Fits (some p) a none = Before p a
  Fits (some p) a (some q) = Before p a × Before a q

  Fits-after : (a p : Sibling n.Num) (o : Option (Sibling n.Num)) → Fits (some p) a o → Before p a
  Fits-after a p none f = f
  Fits-after a p (some q) f = f.0

  Fits-before :
      (a : Sibling n.Num) (o : Option (Sibling n.Num)) (xs : List (Sibling n.Num))
      → Fits o a (get_elem? xs 0)
      → BeforeHead a xs
  Fits-before a none [] f = tt
  Fits-before a none (x ∷ xs) f = f
  Fits-before a (some p) [] f = tt
  Fits-before a (some p) (x ∷ xs) f = f.1

  -- A row that fits its slot leaves the list ordered.
  pub insert_at-IsOrdered :
      (i : ℕ) (a : Sibling n.Num) (xs : List (Sibling n.Num))
      → i ≤ length xs
      → IsOrdered xs
      → Fits (item_before xs i) a (get_elem? xs i)
      → IsOrdered (insert_at i a xs)
  insert_at-IsOrdered zero a xs le h f = (Fits-before a none xs f, h)
  insert_at-IsOrdered (suc i) a [] le h f = absurd (omega arith)
  insert_at-IsOrdered (suc zero) a (x ∷ xs) le h f =
      (Fits-after a x (get_elem? xs 0) f, (Fits-before a (some x) xs f, h.1))
  insert_at-IsOrdered (suc (suc i)) a (x ∷ []) le h f = absurd (omega arith)
  insert_at-IsOrdered (suc (suc i)) a (x ∷ y ∷ ys) le h f =
      (h.0, insert_at-IsOrdered (suc i) a (y ∷ ys) (omega arith) h.1 f)

  Before-trans : (a b c : Sibling n.Num) → Before a b → Before b c → Before a c
  Before-trans a b c (inl p) (inl q) = inl (n.lt_trans a.position b.position c.position p q)
  Before-trans a b c (inl p) (inr q) = inl (subst (λ x. n.lt a.position x ≡ true) q.0 p)
  Before-trans a b c (inr p) (inl q) = inl (subst (λ x. n.lt x c.position ≡ true) (sym p.0) q)
  Before-trans a b c (inr p) (inr q) = inr (p.0 ∙ q.0, omega arith)

  BeforeHead-skip :
      (a b : Sibling n.Num) (xs : List (Sibling n.Num))
      → Before a b
      → BeforeHead b xs
      → BeforeHead a xs
  BeforeHead-skip a b [] h k = tt
  BeforeHead-skip a b (x ∷ xs) h k = Before-trans a b x h k

  BeforeHead-keep_if :
      (p : Sibling n.Num → Bool) (a : Sibling n.Num) (xs : List (Sibling n.Num))
      → BeforeHead a xs
      → IsOrdered xs
      → BeforeHead a (keep_if p xs)
  BeforeHead-keep_if p a [] h k = tt
  BeforeHead-keep_if p a (x ∷ xs) h k = elim (Bool-cases (p x)) [
    | inl kept ↦ rw kept h
    | inr gone ↦ rw gone (BeforeHead-keep_if p a xs (BeforeHead-skip a x xs h k.0) k.1)
  ]

  -- Part of an ordered list is ordered.
  pub keep_if-IsOrdered :
      (p : Sibling n.Num → Bool) (xs : List (Sibling n.Num))
      → IsOrdered xs
      → IsOrdered (keep_if p xs)
  keep_if-IsOrdered p [] h = tt
  keep_if-IsOrdered p (x ∷ xs) h = elim (Bool-cases (p x)) [
    | inl kept ↦ rw kept (BeforeHead-keep_if p x xs h.0 h.1, keep_if-IsOrdered p xs h.1)
    | inr gone ↦ rw gone (keep_if-IsOrdered p xs h.1)
  ]
