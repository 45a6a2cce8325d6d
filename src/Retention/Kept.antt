-- ===== src/Retention/Kept.antt =====
-- What a cleanup leaves and counts, said without batches.
use kurultay.Base.{
  ℕ, ◌-◌, ◌*◌, ◌≤◌, ◌<◌, ◌≡◌, refl, sym, ap, ◌∙◌, inl, inr, ◌&&◌, Bool, true, false, not, List, [],
  ◌∷◌, arith, length, keep_if, any_of, ltb, ◌==◌, ok, Bool-cases,
}
use kurultay.Retention.{
  pos, Environment, ExpiringRow, NotificationRow, DatedRow, Records, CleanupCounts, is_before,
  cutoff_for, orphan_grace_ms, delete_in_batches, expire, run_cleanup,
}
use kurultay.Retention.Batches.{delete_in_batches_lem}
use kurultay.Retention.Orphans.{orphans, sweep_orphan_files_lem}

abbrev pub has_expired : (now : ℕ) → ExpiringRow → Bool
has_expired now r = ltb r.expires_at now

-- 0 days keep every row; a day has 86400000 milliseconds.
abbrev pub was_read : (now days : ℕ) → NotificationRow → Bool
was_read now days r = not (days == 0) && is_before r.read_at (now - days * 86400000)

abbrev pub is_old : (now days : ℕ) → DatedRow → Bool
is_old now days r = not (days == 0) && ltb r.created_at (now - days * 86400000)

abbrev pub old_files : Environment → (now : ℕ) → Records → List ℕ
old_files env now s = orphans s.claimed (now - orphan_grace_ms env) s.files

module _ {T : Type 0} where
  abbrev pub spared : (T → Bool) → List T → List T
  spared p rows = keep_if (λ x. not (p x)) rows

  none_go : (rows : List T) → spared (λ x. false) rows ≡ rows
  none_go [] = refl
  none_go (x ∷ xs) = ap (◌∷◌ x) (none_go xs)

  no_count : (rows : List T) → length (keep_if (λ x. false) rows) ≡ 0
  no_count [] = refl
  no_count (x ∷ xs) = no_count xs

  counted_from_0 :
      (passes size : ℕ) (p : T → Bool) (rows : List T)
      → length (keep_if p rows) ≤ size * passes
      → delete_in_batches p passes size rows 0 ≡ (spared p rows, length (keep_if p rows))
  counted_from_0 passes size p rows h =
      delete_in_batches_lem p passes size rows 0 h ∙ ap (λ k. (spared p rows, k)) (omega arith)

  expire_lem :
      (passes size days : ℕ) (p : T → Bool) (rows : List T)
      → length (keep_if (λ x. not (days == 0) && p x) rows) ≤ size * passes
      → expire passes size days p rows ≡ (
        spared (λ x. not (days == 0) && p x) rows,
        length (keep_if (λ x. not (days == 0) && p x) rows),
      )
  expire_lem passes size days p rows h = elim (Bool-cases (days == 0)) [
    | inl kept ↦ rw kept (
        ap (λ r. (r, 0)) (sym (none_go rows))
        ∙ ap (λ k. (spared (λ x. false) rows, k)) (sym (no_count rows)))
    | inr counted ↦ rw counted (counted_from_0 passes size p rows (rw counted at h))
  ]

abbrev pub kept : Environment → (now notification_days activity_days : ℕ) → Records → Records
kept env now notification_days activity_days s = record s {
  sessions = spared (has_expired now) s.sessions;
  verifications = spared (has_expired now) s.verifications;
  notifications = spared (was_read now notification_days) s.notifications;
  activities = spared (is_old now activity_days) s.activities;
  usage_pings = spared (is_old now activity_days) s.usage_pings;
  files = keep_if (λ f. not (any_of (λ k. k == f.key) (old_files env now s))) s.files;
}

abbrev pub counts :
    Environment → (now notification_days activity_days : ℕ) → Records → CleanupCounts
counts env now notification_days activity_days s = record {
  sessions = length (keep_if (has_expired now) s.sessions);
  verifications = length (keep_if (has_expired now) s.verifications);
  notifications = length (keep_if (was_read now notification_days) s.notifications);
  activities = length (keep_if (is_old now activity_days) s.activities);
  usage_pings = length (keep_if (is_old now activity_days) s.usage_pings);
  orphaned_files = length (old_files env now s);
}

-- No table has more to delete than the passes can.
pub record IsWithin (env : Environment) (now m a size passes : ℕ) (s : Records) : Type 0 where
  pub sessions : length (keep_if (has_expired now) s.sessions) ≤ size * passes
  pub verifications : length (keep_if (has_expired now) s.verifications) ≤ size * passes
  pub notifications : length (keep_if (was_read now m) s.notifications) ≤ size * passes
  pub activities : length (keep_if (is_old now a) s.activities) ≤ size * passes
  pub usage_pings : length (keep_if (is_old now a) s.usage_pings) ≤ size * passes
  pub files : length (old_files env now s) < size * passes

-- With the switch on, windows that are not negative, a storage that persists files and no more to
-- delete than the passes allow, a cleanup leaves exactly the sessions and verifications that have
-- not expired, the notifications that are unread or were read within their window, the activities
-- and pings within theirs, and the files that are claimed or recent; a window of 0 days keeps its
-- rows; the counts are the numbers of what is gone.
pub run_cleanup_lem :
    (env : Environment) (now m a size passes : ℕ) (s : Records)
    → env.cleanup_enabled ≡ true
    → env.notification_retention_days ≡ pos m
    → env.activity_retention_days ≡ pos a
    → s.persists_files ≡ true
    → IsWithin env now m a size passes s
    → run_cleanup env now size passes s ≡ ok (kept env now m a s, counts env now m a s)
unfolding run_cleanup cutoff_for
run_cleanup_lem env now m a size passes s on days_m days_a stored w =
    rw
      (
        on,
        days_m,
        days_a,
        counted_from_0 passes size (has_expired now) s.sessions w.sessions,
        counted_from_0 passes size (has_expired now) s.verifications w.verifications,
        expire_lem passes size m (λ r. is_before r.read_at (cutoff_for now m)) s.notifications
            w.notifications,
        expire_lem passes size a (λ r. ltb r.created_at (cutoff_for now a)) s.activities
            w.activities,
        expire_lem passes size a (λ r. ltb r.created_at (cutoff_for now a)) s.usage_pings
            w.usage_pings,
        sweep_orphan_files_lem env now size passes s stored w.files,
      )
      refl
