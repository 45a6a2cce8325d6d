-- ===== src/Skips/Counts.antt =====
-- The report counts every skipped item, once.
use kurultay.Base.{
  ℕ, zero, suc, ◌+◌, ◌≡◌, refl, ◌∙◌, ◌&&◌, Option, String, List, [], ◌∷◌, arith, ◌==◌,
  if◌then◌else◌,
}
use kurultay.Skips.{
  SkipScope, SkipReason, SkipGroup, Skip, scope_index, reason_index, has_key, insert_group,
  sort_groups, to_report, upsert, add_many, collect_onto, collect,
}

-- The items counted under a scope and a reason.
abbrev pub counted : SkipScope → SkipReason → List SkipGroup → ℕ
counted scope reason [] = 0
counted scope reason (g ∷ gs) =
    let rest = counted scope reason gs in if has_key scope reason g then g.count + rest else rest

abbrev pub skipped : SkipScope → SkipReason → List Skip → ℕ
skipped scope reason [] = 0
skipped scope reason (k ∷ ks) =
    let rest = skipped scope reason ks in
    if scope_index k.scope == scope_index scope && reason_index k.reason == reason_index reason
    then k.count + rest
    else rest

module _ (scope : SkipScope) (reason : SkipReason) where
  counted-insert_group :
      (g : SkipGroup) (gs : List SkipGroup)
      → counted scope reason (insert_group g gs) ≡ counted scope reason (g ∷ gs)
  counted-insert_group g [] = refl
  counted-insert_group g (x ∷ xs) = ground (arith, counted-insert_group g xs)

  counted-sort_groups :
      (gs : List SkipGroup) → counted scope reason (sort_groups gs) ≡ counted scope reason gs
  counted-sort_groups [] = refl
  counted-sort_groups (g ∷ gs) =
      counted-insert_group g (sort_groups gs) ∙ ground (arith, counted-sort_groups gs)

  module _ (trim : String → String) where
    counted-upsert :
        (s : SkipScope) (r : SkipReason) (n : ℕ) (samples : List (Option String))
        (gs : List SkipGroup)
        → counted scope reason (upsert trim s r n samples gs)
          ≡ (if scope_index s == scope_index scope && reason_index r == reason_index reason
              then n
              else 0)
            + counted scope reason gs
    unfolding upsert
    counted-upsert s r n samples [] = ground arith
    counted-upsert s r n samples (g ∷ gs) = ground (arith, counted-upsert s r n samples gs)

    counted-add_many :
        (gs : List SkipGroup) (s : SkipScope) (r : SkipReason) (n : ℕ)
        (samples : List (Option String))
        → counted scope reason (add_many trim gs s r n samples)
          ≡ (if scope_index s == scope_index scope && reason_index r == reason_index reason
              then n
              else 0)
            + counted scope reason gs
    unfolding add_many
    counted-add_many gs s r zero samples = ground arith
    counted-add_many gs s r (suc n) samples = counted-upsert s r (suc n) samples gs

    counted-collect_onto :
        (gs : List SkipGroup) (ks : List Skip)
        → counted scope reason (collect_onto trim gs ks)
          ≡ skipped scope reason ks + counted scope reason gs
    counted-collect_onto gs [] = omega arith
    counted-collect_onto gs (k ∷ ks) =
        counted-collect_onto (add_many trim gs k.scope k.reason k.count k.samples) ks
        ∙ ground (arith, counted-add_many gs k.scope k.reason k.count k.samples)

-- Under each scope and reason the report counts exactly the items that were skipped for it: the
-- limit on the samples drops no count, and no item is counted under another heading.
pub counted-to_report :
    (trim : String → String) (ks : List Skip) (scope : SkipScope) (reason : SkipReason)
    → counted scope reason (to_report (collect trim ks)) ≡ skipped scope reason ks
unfolding to_report
counted-to_report trim ks scope reason =
    counted-sort_groups scope reason (collect trim ks)
    ∙ counted-collect_onto scope reason trim [] ks
    ∙ omega arith
