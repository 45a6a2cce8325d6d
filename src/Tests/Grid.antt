-- ===== src/Tests/Grid.antt =====
-- Doubles on a grid of half a `MIN_GAP`: the natural multiples of 0.0000005, with a `POSITION_GAP`
-- of 2000000000 steps; and a sort by position and id.
use mathlib.Core.List.Perm
use kurultay.Base.{
  ℕ, ◌+◌, ◌-◌, ◌*◌, ◌/◌, ◌≡◌, ◌≢◌, inl, inr, ◌&&◌, ◌||◌, Bool, true, false, List, [], ◌∷◌, arith,
  Perm, ltb, leb, ◌==◌, if◌then◌else◌, Bool-cases,
}
use kurultay.Base.Perms.{IsAbsent, IsDistinct, perm-IsAbsent}
use kurultay.Ordering.Number.{Number}
use kurultay.Ordering.Slots.{Sibling}
use kurultay.Ordering.Chain.{Before, BeforeHead, IsOrdered}
use kurultay.Ordering.Placement.{SortedReads}

abbrev pub grid : Number
grid = record {
  Num = ℕ;
  lt = ltb;
  add_gap = λ a. a + 2000000000;
  sub_gap = λ a. a - 2000000000;
  mean = λ a b. (a + b) / 2;
  is_close = λ a b. ltb (b - a) 2;
  gap_times = λ n. n * 2000000000;
  is_fine = λ a. leb 2000000000 a;
  max_length = 4294967295;
  lt_irrefl = λ a. ground arith;
  lt_trans = λ a b c p q. ground arith;
  lt_of_not_lt = λ a b c h k. ground arith;
  lt-add_gap = λ a h. ground arith;
  sub_gap-lt = λ a h. ground arith;
  lt-mean = λ a b h k w. ground arith;
  mean-lt = λ a b h k w. ground arith;
  gap_times_lt = λ m n h k. ground arith;
}

abbrev comes_before : Sibling ℕ → Sibling ℕ → Bool
comes_before a b = ltb a.position b.position || (a.position == b.position && ltb a.id b.id)

abbrev insert_row : Sibling ℕ → List (Sibling ℕ) → List (Sibling ℕ)
insert_row a [] = a ∷ []
insert_row a (x ∷ xs) =
    let rest = insert_row a xs in if comes_before a x then a ∷ x ∷ xs else x ∷ rest

abbrev sort : List (Sibling ℕ) → List (Sibling ℕ)
sort [] = []
sort (x ∷ xs) = insert_row x (sort xs)

perm-insert_row : (a : Sibling ℕ) (xs : List (Sibling ℕ)) → Perm (a ∷ xs) (insert_row a xs)
perm-insert_row a [] = Perm.refl _
perm-insert_row a (x ∷ xs) = elim (Bool-cases (comes_before a x)) [
  | inl first ↦ rw first (Perm.refl _)
  | inr later ↦ rw later (Perm.trans (Perm.swap x a xs) (Perm.cons x (perm-insert_row a xs)))
]

pub perm-sort : (xs : List (Sibling ℕ)) → Perm xs (sort xs)
perm-sort [] = Perm.refl _
perm-sort (x ∷ xs) = Perm.trans (Perm.cons x (perm-sort xs)) (perm-insert_row x (sort xs))

comes_before-Before : (a b : Sibling ℕ) → comes_before a b ≡ true → Before grid a b
comes_before-Before a b h = elim (Bool-cases (ltb a.position b.position)) [
  | inl below ↦ inl below
  | inr same ↦ inr (ground arith, ground arith)
]

Before-comes_before : (a b : Sibling ℕ) → comes_before a b ≡ false → b.id ≢ a.id → Before grid b a
Before-comes_before a b h d = elim (Bool-cases (ltb b.position a.position)) [
  | inl below ↦ inl below
  | inr same ↦ inr (ground arith, ground arith)
]

BeforeHead-insert_row :
    (x a : Sibling ℕ) (xs : List (Sibling ℕ))
    → Before grid x a
    → BeforeHead grid x xs
    → BeforeHead grid x (insert_row a xs)
BeforeHead-insert_row x a [] h k = h
BeforeHead-insert_row x a (y ∷ ys) h k = elim (Bool-cases (comes_before a y)) [
  | inl first ↦ rw first h
  | inr later ↦ rw later k
]

insert_row-IsOrdered :
    (a : Sibling ℕ) (xs : List (Sibling ℕ))
    → IsAbsent (λ s. s.id) a.id xs
    → IsOrdered grid xs
    → IsOrdered grid (insert_row a xs)
insert_row-IsOrdered a [] far h = (tt, tt)
insert_row-IsOrdered a (x ∷ xs) far h = elim (Bool-cases (comes_before a x)) [
  | inl first ↦ rw first (comes_before-Before a x first, h)
  | inr later ↦ rw later (
    BeforeHead-insert_row x a xs (Before-comes_before a x later far.0) h.0,
    insert_row-IsOrdered a xs far.1 h.1,
  )
]

pub sort-IsOrdered : (xs : List (Sibling ℕ)) → IsDistinct (λ s. s.id) xs → IsOrdered grid (sort xs)
sort-IsOrdered [] d = tt
sort-IsOrdered (x ∷ xs) d =
    insert_row-IsOrdered x (sort xs) (perm-IsAbsent (λ s. s.id) x.id (perm-sort xs) d.0)
      (sort-IsOrdered xs d.1)

abbrev pub sorted : SortedReads grid
sorted = record { order_by = sort; order_by-perm = perm-sort; order_by-IsOrdered = sort-IsOrdered }
