-- ===== src/Retention/Orphans.antt =====
-- The sweep in batches removes the old files that no attachment claims.
use mathlib.Core.List.{append_assoc, append-nil}
use kurultay.Base.{
  ℕ, ◌-◌, ◌*◌, ◌≤◌, ◌<◌, ◌≡◌, refl, sym, ap, ◌∙◌, inl, inr, ◌&&◌, Bool, true, false, not, List, [],
  ◌∷◌, ◌++◌, map, arith, length, length-append, keep_if, keep_if-append, leb, Bool-cases,
}
use kurultay.Retention.{
  Environment, StoredFile, Records, Sweep, is_claimed, flush, push_key, sweep_files,
  orphan_grace_ms, sweep_orphan_files,
}

-- Neither recent nor claimed.
abbrev pub is_orphan : (claimed : List ℕ) (cutoff : ℕ) → StoredFile → Bool
is_orphan claimed cutoff f = not (leb cutoff f.modified_at) && not (is_claimed claimed f.key)

abbrev pub orphans : (claimed : List ℕ) (cutoff : ℕ) → List StoredFile → List ℕ
orphans claimed cutoff files = map (λ f. f.key) (keep_if (is_orphan claimed cutoff) files)

module _ (claimed : List ℕ) where
  -- What is removed, once the batch is flushed.
  abbrev outcome : Sweep → List ℕ
  outcome s = (flush claimed s).removed

  push_key-outcome :
      (size key : ℕ) (s : Sweep)
      → outcome (push_key claimed size key s)
        ≡ outcome s ++ keep_if (λ k. not (is_claimed claimed k)) (key ∷ [])
  push_key-outcome size key s =
      let free = λ (k : ℕ). not (is_claimed claimed k) in
      let grown : s.removed ++ keep_if free (s.batch ++ key ∷ [])
          ≡ (s.removed ++ keep_if free s.batch) ++ keep_if free (key ∷ []) =
        ap (λ t. s.removed ++ t) (keep_if-append free s.batch (key ∷ []))
        ∙ sym (append_assoc s.removed (keep_if free s.batch) (keep_if free (key ∷ []))) in
      elim (Bool-cases (leb size (length (s.batch ++ key ∷ [])))) [
        | inl full ↦ rw full (append-nil _ ∙ grown)
        | inr room ↦ rw room grown
      ]

  removed-le : (s : Sweep) → length s.removed ≤ length (outcome s)
  removed-le s = omega (arith, length-append {0} s.removed (keep_if _ s.batch))

  orphans_head :
      (cutoff : ℕ) (f : StoredFile) (fs : List StoredFile)
      → leb cutoff f.modified_at ≡ false
      → orphans claimed cutoff (f ∷ fs)
        ≡ keep_if (λ k. not (is_claimed claimed k)) (f.key ∷ []) ++ orphans claimed cutoff fs
  orphans_head cutoff f fs e = elim (Bool-cases (is_claimed claimed f.key)) [
    | inl taken ↦ rw (e, taken) refl
    | inr free ↦ rw (e, free) refl
  ]

  sweep_files_step :
      (cutoff size ceiling : ℕ) (f : StoredFile) (fs : List StoredFile) (s : Sweep)
      → leb cutoff f.modified_at ≡ false
      → leb ceiling (length (push_key claimed size f.key s).removed) ≡ false
      → (sweep_files claimed cutoff size ceiling (f ∷ fs) s).removed
        ≡ (sweep_files claimed cutoff size ceiling fs (push_key claimed size f.key s)).removed
  unfolding sweep_files
  sweep_files_step cutoff size ceiling f fs s old below = rw (old, below) refl

  -- Below the ceiling the sweep removes all the orphans, in the order of the listing.
  sweep_files_lem :
      (cutoff size ceiling : ℕ) (fs : List StoredFile) (s : Sweep)
      → length (outcome s ++ orphans claimed cutoff fs) < ceiling
      → (sweep_files claimed cutoff size ceiling fs s).removed
        ≡ outcome s ++ orphans claimed cutoff fs
  unfolding sweep_files
  sweep_files_lem cutoff size ceiling [] s h = sym (append-nil _)
  sweep_files_lem cutoff size ceiling (f ∷ fs) s h = elim (Bool-cases (leb cutoff f.modified_at)) [
    | inl recent ↦ rw recent (sweep_files_lem cutoff size ceiling fs s (rw recent at h))
    | inr old ↦
        let free = keep_if (λ k. not (is_claimed claimed k)) (f.key ∷ []) in
        let pushed = push_key claimed size f.key s in
        let same : outcome pushed ++ orphans claimed cutoff fs
            ≡ outcome s ++ orphans claimed cutoff (f ∷ fs) =
          ap (λ t. t ++ orphans claimed cutoff fs) (push_key-outcome size f.key s)
          ∙ append_assoc (outcome s) free (orphans claimed cutoff fs)
          ∙ ap (λ t. outcome s ++ t) (sym (orphans_head cutoff f fs old)) in
        let under : length (outcome pushed ++ orphans claimed cutoff fs) < ceiling =
          omega (arith, ap length same) in
        let below : leb ceiling (length pushed.removed) ≡ false =
          let few = removed-le pushed in
          let all = length-append {0} (outcome pushed) (orphans claimed cutoff fs) in
          ground (arith, few, all) in
        sweep_files_step cutoff size ceiling f fs s old below
        ∙ sweep_files_lem cutoff size ceiling fs pushed under
        ∙ same
  ]

pub sweep_orphan_files_lem :
    (env : Environment) (now size passes : ℕ) (s : Records)
    → s.persists_files ≡ true
    → length (orphans s.claimed (now - orphan_grace_ms env) s.files) < size * passes
    → sweep_orphan_files env now size passes s
      ≡ orphans s.claimed (now - orphan_grace_ms env) s.files
unfolding sweep_orphan_files
sweep_orphan_files_lem env now size passes s e h = rw e (
    sweep_files_lem s.claimed (now - orphan_grace_ms env) size (size * passes) s.files
      (record { removed = []; batch = [] }) h)
