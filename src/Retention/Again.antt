-- ===== src/Retention/Again.antt =====
-- A cleanup that is run again finds nothing: what a retry of the job relies on.
use kurultay.Base.{ℕ, ◌≡◌, Bool, true, List, any_of, ◌==◌, ◌>>=◌}
use kurultay.Retention.{StoredFile}
use kurultay.Retention.Orphans.{is_orphan}

module _ (claimed : List ℕ) (cutoff : ℕ) where
  abbrev is_gone : List ℕ → StoredFile → Bool
  is_gone gone f = any_of (λ k. k == f.key) gone

  abbrev Goes : List ℕ → StoredFile → Type 0
  Goes gone f = is_orphan claimed cutoff f ≡ true → is_gone gone f ≡ true
