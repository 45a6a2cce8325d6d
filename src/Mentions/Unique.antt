-- ===== src/Mentions/Unique.antt =====
-- The ids that are read are each once, and in the order of their first mentions.
use kurultay.Base.{
  ◌≡◌, refl, sym, ap, ◌∙◌, inl, inr, ◌&&◌, ◌||◌, not, Bool, true, false, List, [], ◌∷◌, arith,
  keep_if, any_of, ==_refl, Bool-cases,
}
use kurultay.Mentions.{Text, text_eq, unique_from}

-- The list without the later occurrences of its texts.
abbrev pub firsts : List Text → List Text
firsts [] = []
firsts (x ∷ xs) = x ∷ keep_if (λ y. not (text_eq y x)) (firsts xs)

-- No text stands twice in the list.
abbrev pub IsOnce : List Text → Type 0
IsOnce [] = Unit
IsOnce (x ∷ xs) = (any_of (text_eq x) xs ≡ false) × IsOnce xs

text_eq_refl : (a : Text) → text_eq a a ≡ true
text_eq_refl [] = refl
text_eq_refl (c ∷ cs) = rw (==_refl c, text_eq_refl cs)

text_eq-eq : (a b : Text) → text_eq a b ≡ true → a ≡ b
text_eq-eq [] [] e = refl
text_eq-eq [] (d ∷ ds) e = cc
text_eq-eq (c ∷ cs) [] e = cc
text_eq-eq (c ∷ cs) (d ∷ ds) e =
    let head : c ≡ d = ground arith in
    let tail : cs ≡ ds = text_eq-eq cs ds (ground arith) in rw (head, tail)

keep_if-keep_if :
    (p q r : Text → Bool) (xs : List Text)
    → ((x : Text) → r x ≡ (q x && p x))
    → keep_if p (keep_if q xs) ≡ keep_if r xs
keep_if-keep_if p q r [] h = refl
keep_if-keep_if p q r (x ∷ xs) h =
    let here = h x in ground (arith, here, keep_if-keep_if p q r xs h)

-- A text that is among the seen ones is held back by that alone.
seen_already :
    (seen : List Text) (y z : Text)
    → any_of (text_eq y) seen ≡ true
    → not (any_of (text_eq z) seen) ≡ (not (text_eq z y) && not (any_of (text_eq z) seen))
seen_already seen y z h = elim (Bool-cases (text_eq z y)) [
  | inl same ↦
      let there : any_of (text_eq z) seen ≡ true =
        ap (λ t. any_of (text_eq t) seen) (text_eq-eq z y same) ∙ h in
      rw (same, there) refl
  | inr other ↦ rw other refl
]

unique_from-firsts :
    (seen xs : List Text)
    → unique_from seen xs ≡ keep_if (λ x. not (any_of (text_eq x) seen)) (firsts xs)
unique_from-firsts seen [] = refl
unique_from-firsts seen (x ∷ xs) = elim (Bool-cases (any_of (text_eq x) seen)) [
  | inl there ↦ rw there (
      unique_from-firsts seen xs
      ∙ sym (
          keep_if-keep_if (λ y. not (any_of (text_eq y) seen)) (λ y. not (text_eq y x))
            (λ y. not (any_of (text_eq y) seen)) (firsts xs) (λ z. seen_already seen x z there)))
  | inr new ↦ rw new (
      ap (◌∷◌ x) (
        unique_from-firsts (x ∷ seen) xs
        ∙ sym (
            keep_if-keep_if (λ y. not (any_of (text_eq y) seen)) (λ y. not (text_eq y x))
              (λ y. not (any_of (text_eq y) (x ∷ seen))) (firsts xs) (λ z. both z))))
]
  where
    both :
        (z : Text)
        → not (any_of (text_eq z) (x ∷ seen)) ≡ (not (text_eq z x) && not (any_of (text_eq z) seen))
    both z = ground arith

all_kept : (xs : List Text) → keep_if (λ x. not (any_of (text_eq x) [])) xs ≡ xs
all_kept [] = refl
all_kept (x ∷ xs) = ap (◌∷◌ x) (all_kept xs)

pub unique_from_lem : (xs : List Text) → unique_from [] xs ≡ firsts xs
unique_from_lem xs = unique_from-firsts [] xs ∙ all_kept (firsts xs)

-- A text that is kept out is not found, and every other one as before.
any_of-keep_if :
    (x z : Text) (xs : List Text)
    → any_of (text_eq z) (keep_if (λ y. not (text_eq y x)) xs)
      ≡ (not (text_eq z x) && any_of (text_eq z) xs)
any_of-keep_if x z [] = elim (Bool-cases (text_eq z x)) [
  | inl same ↦ rw same
  | inr other ↦ rw other
]
any_of-keep_if x z (y ∷ ys) = elim (Bool-cases (text_eq y x)) [
  | inl out ↦ elim (Bool-cases (text_eq z x)) [
    | inl same ↦ rw (out, any_of-keep_if x z ys, same)
    | inr other ↦ rw (out, any_of-keep_if x z ys, other, apart z other out)
  ]
  | inr kept ↦ elim (Bool-cases (text_eq z y)) [
    | inl this ↦
        let other : text_eq z x ≡ false = ap (λ t. text_eq t x) (text_eq-eq z y this) ∙ kept in
        rw (kept, this, other)
    | inr that ↦ rw (kept, that, any_of-keep_if x z ys)
  ]
]
  where
    apart : (z : Text) → text_eq z x ≡ false → text_eq y x ≡ true → text_eq z y ≡ false
    apart z other out = elim (Bool-cases (text_eq z y)) [
      | inl this ↦
          let same : text_eq z x ≡ true = ap (λ t. text_eq t x) (text_eq-eq z y this) ∙ out in cc
      | inr that ↦ that
    ]

pub any_of-firsts :
    (z : Text) (xs : List Text) → any_of (text_eq z) (firsts xs) ≡ any_of (text_eq z) xs
any_of-firsts z [] = refl
any_of-firsts z (x ∷ xs) =
    ap (λ b. text_eq z x || b)
      (any_of-keep_if x z (firsts xs) ∙ ap (λ b. not (text_eq z x) && b) (any_of-firsts z xs))
    ∙ absorbed (text_eq z x) (any_of (text_eq z) xs)
  where
    absorbed : (a b : Bool) → (a || (not a && b)) ≡ (a || b)
    absorbed true b = refl
    absorbed false b = refl

keep_if-IsOnce :
    (x : Text) (xs : List Text) → IsOnce xs → IsOnce (keep_if (λ y. not (text_eq y x)) xs)
keep_if-IsOnce x [] h = tt
keep_if-IsOnce x (y ∷ ys) h = elim (Bool-cases (text_eq y x)) [
  | inl out ↦ rw out (keep_if-IsOnce x ys h.1)
  | inr kept ↦ rw kept (any_of-keep_if x y ys ∙ rw (kept, h.0) refl, keep_if-IsOnce x ys h.1)
]

pub firsts-IsOnce : (xs : List Text) → IsOnce (firsts xs)
firsts-IsOnce [] = tt
firsts-IsOnce (x ∷ xs) = (
  any_of-keep_if x x (firsts xs) ∙ rw (text_eq_refl x) refl,
  keep_if-IsOnce x (firsts xs) (firsts-IsOnce xs),
)
