-- ===== src/Base/Lists.antt =====
-- Lists measured and indexed by native numbers, the array methods of the source, and tables.
use Prim.Native.Nat.{ℕ, zero, suc, ◌+◌}
use mathlib.Core.Path.{◌≡◌, refl, ap, sym, subst}
use mathlib.Core.Bool.{Bool, true, false, ◌||◌}
use mathlib.Core.List.{List, [], ◌∷◌, ◌++◌, map}
use mathlib.Core.Option.{Option, none, some}
use native.Mathlib.Omega.{arith}
use mathlib.Core.Logic.{inl, inr}
use kurultay.Base.Tests.{if◌then◌else◌, Bool-cases}

module _ {ℓ} {A : Type ℓ} where
  abbrev pub length : List A → ℕ
  length [] = 0
  length (x ∷ xs) = suc (length xs)

  abbrev pub get_elem? : List A → ℕ → Option A
  get_elem? [] i = none
  get_elem? (x ∷ xs) zero = some x
  get_elem? (x ∷ xs) (suc i) = get_elem? xs i

  abbrev pub get_or : List A → ℕ → A → A
  get_or [] i d = d
  get_or (x ∷ xs) zero d = x
  get_or (x ∷ xs) (suc i) d = get_or xs i d

  abbrev pub take : ℕ → List A → List A
  take zero xs = []
  take (suc n) [] = []
  take (suc n) (x ∷ xs) = x ∷ take n xs

  abbrev pub drop : ℕ → List A → List A
  drop zero xs = xs
  drop (suc n) [] = []
  drop (suc n) (x ∷ xs) = drop n xs

  -- `array.at(-1)`.
  abbrev pub last? : List A → Option A
  last? [] = none
  last? (x ∷ []) = some x
  last? (x ∷ y ∷ ys) = last? (y ∷ ys)

  -- `array.splice(i, 0, a)`; past the end it appends.
  abbrev pub insert_at : ℕ → A → List A → List A
  insert_at zero a xs = a ∷ xs
  insert_at (suc i) a [] = a ∷ []
  insert_at (suc i) a (x ∷ xs) = x ∷ insert_at i a xs

  -- `array.filter(p)`.
  abbrev pub keep_if : (A → Bool) → List A → List A
  keep_if p [] = []
  keep_if p (x ∷ xs) = let rest = keep_if p xs in if p x then x ∷ rest else rest

  -- `array.find(p)`, and a query's `findFirst`.
  abbrev pub find_first : (A → Bool) → List A → Option A
  find_first p [] = none
  find_first p (x ∷ xs) = let rest = find_first p xs in if p x then some x else rest

  -- `array.some(p)`.
  abbrev pub any_of : (A → Bool) → List A → Bool
  any_of p [] = false
  any_of p (x ∷ xs) = p x || any_of p xs

  abbrev pub All {κ} : (A → Type κ) → List A → Type κ
  All P [] = Unit
  All P (x ∷ xs) = P x × All P xs

  pub find_first-holds :
      (p : A → Bool) (xs : List A) {a : A} → find_first p xs ≡ some a → p a ≡ true
  find_first-holds p [] e = cc
  find_first-holds p (x ∷ xs) {a} e = ground (arith, find_first-holds p xs {a = a})

  pub find_first-All {κ} :
      (P : A → Type κ) (p : A → Bool) (xs : List A) {a : A}
      → find_first p xs ≡ some a
      → All P xs
      → P a
  find_first-All P p [] e h = cc
  find_first-All P p (x ∷ xs) {a} e h = elim (Bool-cases (p x)) [
    | inl hit ↦ let same : x ≡ a = ground arith in rw (← same) h.0
    | inr miss ↦ find_first-All P p xs (ground arith) h.1
  ]

  pub length-append : (xs ys : List A) → length (xs ++ ys) ≡ length xs + length ys
  length-append [] ys = omega arith
  length-append (x ∷ xs) ys = omega (arith, length-append xs ys)

  pub take-append-drop : (n : ℕ) (xs : List A) → take n xs ++ drop n xs ≡ xs
  take-append-drop zero xs = refl
  take-append-drop (suc n) [] = refl
  take-append-drop (suc n) (x ∷ xs) = rw (take-append-drop n xs)

  pub keep_if-append :
      (p : A → Bool) (xs ys : List A) → keep_if p (xs ++ ys) ≡ keep_if p xs ++ keep_if p ys
  keep_if-append p [] ys = refl
  keep_if-append p (x ∷ xs) ys = ground (arith, keep_if-append p xs ys)

  pub each-map {κ μ} :
      {P : A → Type κ} {Q : A → Type μ}
      → ((x : A) → P x → Q x)
      → (xs : List A) → All P xs
      → All Q xs
  each-map f [] h = tt
  each-map f (x ∷ xs) h = (f x h.0, each-map f xs h.1)

  -- Whatever has the property is found among what is kept for it.
  pub each_kept :
      (p : A → Bool) (same : A → A → Bool)
      → ((x : A) → same x x ≡ true)
      → (xs : List A) → All (λ x. p x ≡ true → any_of (λ y. same y x) (keep_if p xs) ≡ true) xs
  each_kept p same itself [] = tt
  each_kept p same itself (x ∷ xs) = elim (Bool-cases (p x)) [
    | inl hit ↦
        among (x ∷ keep_if p xs) (if_kept hit) (λ _. first _ (itself x))
          (each-map (λ y h held. later (same x y) (h held)) xs (each_kept p same itself xs))
    | inr miss ↦ among (keep_if p xs) (if_dropped miss) (λ held. cc) (each_kept p same itself xs)
  ]
    where
      among :
          (kept : List A)
          → keep_if p (x ∷ xs) ≡ kept
          → (p x ≡ true → any_of (λ y. same y x) kept ≡ true)
          → All (λ z. p z ≡ true → any_of (λ y. same y z) kept ≡ true) xs
          → All (λ z. p z ≡ true → any_of (λ y. same y z) (keep_if p (x ∷ xs)) ≡ true) (x ∷ xs)
      among kept e h hs =
          subst (λ k. All (λ z. p z ≡ true → any_of (λ y. same y z) k ≡ true) (x ∷ xs)) (sym e)
            (h, hs)

      if_kept : p x ≡ true → keep_if p (x ∷ xs) ≡ x ∷ keep_if p xs
      if_kept e = rw e refl

      if_dropped : p x ≡ false → keep_if p (x ∷ xs) ≡ keep_if p xs
      if_dropped e = rw e refl

      first : {a : Bool} (b : Bool) → a ≡ true → (a || b) ≡ true
      first b e = rw e refl

      later : (a : Bool) {b : Bool} → b ≡ true → (a || b) ≡ true
      later true e = refl
      later false e = e

module _ {ℓ κ} {A : Type ℓ} {B : Type κ} where
  -- `array.map((a, index) => …)`, counted from `i`.
  abbrev pub map_from : ℕ → (ℕ → A → B) → List A → List B
  map_from i f [] = []
  map_from i f (x ∷ xs) = f i x ∷ map_from (suc i) f xs

  pub length-map : (xs : List A) (f : A → B) → length (map f xs) ≡ length xs
  length-map [] f = refl
  length-map (x ∷ xs) f = ap suc (length-map xs f)
