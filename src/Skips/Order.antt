-- ===== src/Skips/Order.antt =====
-- The report is in a fixed order, and its size follows the kinds of problem.
use kurultay.Base.{
  ℕ, zero, suc, ◌≤◌, ◌≡◌, inl, inr, true, false, Option, String, List, [], ◌∷◌, ◌++◌, arith, length,
  length-append, All, leb, str_eq, Bool-cases,
}
use kurultay.Skips.{
  SkipScope, SkipReason, SkipGroup, Skip, has_key, goes_before, insert_group, sort_groups,
  to_report, push_samples, trimmed, upsert, add_many, collect_onto, collect, skip_sample_limit,
}

abbrev pub Precedes : SkipGroup → List SkipGroup → Type 0
Precedes g [] = Unit {0}
Precedes g (x ∷ xs) = goes_before g x ≡ true

-- Strictly in the report's order, so no heading appears twice.
abbrev pub IsSorted : List SkipGroup → Type 0
IsSorted [] = Unit {0}
IsSorted (g ∷ gs) = Precedes g gs × IsSorted gs

abbrev IsNewKey : SkipGroup → List SkipGroup → Type 0
IsNewKey g = All (λ x. has_key g.scope g.reason x ≡ false)

abbrev IsKeyed : List SkipGroup → Type 0
IsKeyed [] = Unit {0}
IsKeyed (g ∷ gs) = IsNewKey g gs × IsKeyed gs

-- A group has items, and at most the limit's number of samples.
abbrev pub IsBounded : SkipGroup → Type 0
IsBounded g = (1 ≤ g.count) × (length g.samples ≤ skip_sample_limit)

All-insert_group :
    (P : SkipGroup → Type 0) (g : SkipGroup) (gs : List SkipGroup)
    → P g
    → All P gs
    → All P (insert_group g gs)
All-insert_group P g [] p h = (p, tt)
All-insert_group P g (x ∷ xs) p h = elim (Bool-cases (goes_before g x)) [
  | inl first ↦ rw first (p, h)
  | inr later ↦ rw later (h.0, All-insert_group P g xs p h.1)
]

All-sort_groups : (P : SkipGroup → Type 0) (gs : List SkipGroup) → All P gs → All P (sort_groups gs)
All-sort_groups P [] h = tt
All-sort_groups P (g ∷ gs) h = All-insert_group P g (sort_groups gs) h.0 (All-sort_groups P gs h.1)

goes_before_flip :
    (a b : SkipGroup)
    → has_key a.scope a.reason b ≡ false
    → goes_before a b ≡ false
    → goes_before b a ≡ true
goes_before_flip a b far h = ground arith

Precedes-insert_group :
    (x g : SkipGroup) (gs : List SkipGroup)
    → goes_before x g ≡ true
    → Precedes x gs
    → Precedes x (insert_group g gs)
Precedes-insert_group x g [] h k = h
Precedes-insert_group x g (y ∷ ys) h k = elim (Bool-cases (goes_before g y)) [
  | inl first ↦ rw first h
  | inr later ↦ rw later k
]

IsSorted-insert_group :
    (g : SkipGroup) (gs : List SkipGroup)
    → IsNewKey g gs
    → IsSorted gs
    → IsSorted (insert_group g gs)
IsSorted-insert_group g [] far h = (tt, tt)
IsSorted-insert_group g (x ∷ xs) far h = elim (Bool-cases (goes_before g x)) [
  | inl first ↦ rw first (first, h)
  | inr later ↦ rw later (
    Precedes-insert_group x g xs (goes_before_flip g x far.0 later) h.0,
    IsSorted-insert_group g xs far.1 h.1,
  )
]

IsSorted-sort_groups : (gs : List SkipGroup) → IsKeyed gs → IsSorted (sort_groups gs)
IsSorted-sort_groups [] h = tt
IsSorted-sort_groups (g ∷ gs) h =
    IsSorted-insert_group g (sort_groups gs) (All-sort_groups _ gs h.0)
      (IsSorted-sort_groups gs h.1)

module _ (trim : String → String) where
  IsNewKey-upsert :
      (a : SkipGroup) (s : SkipScope) (r : SkipReason) (n : ℕ) (samples : List (Option String))
      (gs : List SkipGroup)
      → has_key s r a ≡ false
      → IsNewKey a gs
      → IsNewKey a (upsert trim s r n samples gs)
  unfolding upsert
  IsNewKey-upsert a s r n samples [] far h = (ground arith, tt)
  IsNewKey-upsert a s r n samples (g ∷ gs) far h = elim (Bool-cases (has_key s r g)) [
    | inl hit ↦ rw hit (h.0, h.1)
    | inr miss ↦ rw miss (h.0, IsNewKey-upsert a s r n samples gs far h.1)
  ]

  IsKeyed-upsert :
      (s : SkipScope) (r : SkipReason) (n : ℕ) (samples : List (Option String))
      (gs : List SkipGroup)
      → IsKeyed gs
      → IsKeyed (upsert trim s r n samples gs)
  unfolding upsert
  IsKeyed-upsert s r n samples [] h = (tt, tt)
  IsKeyed-upsert s r n samples (g ∷ gs) h = elim (Bool-cases (has_key s r g)) [
    | inl hit ↦ rw hit (h.0, h.1)
    | inr miss ↦
        rw miss (IsNewKey-upsert g s r n samples gs miss h.0, IsKeyed-upsert s r n samples gs h.1)
  ]

  push_samples-bound :
      (samples : List String) (xs : List (Option String))
      → length samples ≤ skip_sample_limit
      → length (push_samples trim samples xs) ≤ skip_sample_limit
  unfolding push_samples
  push_samples-bound samples [] h = h
  push_samples-bound samples (x ∷ xs) h =
      elim (Bool-cases (leb skip_sample_limit (length samples))) [
        | inl full ↦ rw full h
        | inr free ↦ rw free (elim (Bool-cases (str_eq (trimmed trim x) "")) [
          | inl empty ↦ rw empty (push_samples-bound samples xs h)
          | inr named ↦ rw named (
              push_samples-bound (samples ++ trimmed trim x ∷ []) xs
                (ground (arith, length-append samples (trimmed trim x ∷ []))))
        ])
      ]

  IsBounded-upsert :
      (s : SkipScope) (r : SkipReason) (n : ℕ) (samples : List (Option String))
      (gs : List SkipGroup)
      → 1 ≤ n
      → All IsBounded gs
      → All IsBounded (upsert trim s r n samples gs)
  unfolding upsert
  IsBounded-upsert s r n samples [] pos h =
      ((omega arith, push_samples-bound [] samples (omega arith)), tt)
  IsBounded-upsert s r n samples (g ∷ gs) pos h = elim (Bool-cases (has_key s r g)) [
    | inl hit ↦ rw hit ((omega (arith, h.0.0), push_samples-bound g.samples samples h.0.1), h.1)
    | inr miss ↦ rw miss (h.0, IsBounded-upsert s r n samples gs pos h.1)
  ]

  add_many-keeps :
      (gs : List SkipGroup) (s : SkipScope) (r : SkipReason) (n : ℕ)
      (samples : List (Option String))
      → IsKeyed gs × All IsBounded gs
      → IsKeyed (add_many trim gs s r n samples) × All IsBounded (add_many trim gs s r n samples)
  unfolding add_many
  add_many-keeps gs s r zero samples h = h
  add_many-keeps gs s r (suc n) samples h = (
    IsKeyed-upsert s r (suc n) samples gs h.0,
    IsBounded-upsert s r (suc n) samples gs (omega arith) h.1,
  )

  collect-keeps :
      (gs : List SkipGroup) (ks : List Skip)
      → IsKeyed gs × All IsBounded gs
      → IsKeyed (collect_onto trim gs ks) × All IsBounded (collect_onto trim gs ks)
  collect-keeps gs [] h = h
  collect-keeps gs (k ∷ ks) h =
      collect-keeps (add_many trim gs k.scope k.reason k.count k.samples) ks
        (add_many-keeps gs k.scope k.reason k.count k.samples h)

-- Whatever was skipped and in whatever order, the report lists its headings strictly in the order
-- of scopes and reasons, so none twice; every heading that it lists has an item, and at most twenty
-- samples.
pub to_report-IsSorted :
    (trim : String → String) (ks : List Skip)
    → IsSorted (to_report (collect trim ks)) × All IsBounded (to_report (collect trim ks))
unfolding to_report
to_report-IsSorted trim ks =
    let kept = collect-keeps trim [] ks (tt, tt) in
    (
      IsSorted-sort_groups (collect trim ks) kept.0,
      All-sort_groups IsBounded (collect trim ks) kept.1,
    )
