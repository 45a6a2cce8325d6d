-- ===== src/Retention.antt =====
-- retention/cleanup.worker.ts: the nightly deletion of what has expired. Times are milliseconds; a
-- cutoff before the epoch is 0, and no row is older than either. The rows stand in the order in
-- which a scan finds them. `CLEANUP_BATCH_SIZE` and `MAX_BATCHES_PER_TABLE` are arguments.
pub mod Batches
pub mod Orphans
pub mod Kept
pub mod Again
use kurultay.Base.{
  ℕ, zero, suc, ◌+◌, ◌-◌, ◌*◌, ◌&&◌, not, Bool, true, false, Option, none, some, List, [], ◌∷◌,
  ◌++◌, map, length, keep_if, take, any_of, ltb, leb, ◌==◌, if◌then◌else◌, unhandled, Result, ok,
  err, ◌>>=◌,
}

-- What `envInt` reads: `negsuc n` is -(n + 1).
pub data ℤ : Type 0 where
  pos : ℕ → ℤ
  negsuc : ℕ → ℤ

-- `Math.max(i, 0)`
abbrev pub pos_part : ℤ → ℕ
pos_part (pos i) = i
pos_part (negsuc i) = 0

abbrev pub max : ℕ → ℕ → ℕ
max a b = if leb a b then b else a

pub record Environment : Type 0 where
  pub cleanup_enabled : Bool
  pub notification_retention_days : ℤ
  pub activity_retention_days : ℤ
  pub backup_interval : ℤ
  pub backup_keep : ℤ

abbrev pub ms_per_day : ℕ
ms_per_day = 24 * 60 * 60 * 1000

unfoldable pub orphan_grace_ms : Environment → ℕ
orphan_grace_ms env =
    max (pos_part env.backup_interval * max (pos_part env.backup_keep) 1 * 1000) ms_per_day

-- A negative number of days is refused.
abbrev pub retention_days : ℤ → Result ℕ
retention_days (pos days) = ok days
retention_days (negsuc days) = err unhandled

unfoldable pub cutoff_for : (now days : ℕ) → ℕ
cutoff_for now days = now - days * ms_per_day

-- One `DELETE … WHERE id IN (SELECT id … LIMIT size)`: the first rows of that kind go.
module _ {T : Type 0} (p : T → Bool) where
  abbrev pub without_first : ℕ → List T → List T
  without_first k [] = []
  without_first zero (x ∷ xs) = x ∷ xs
  without_first (suc k) (x ∷ xs) =
      let gone = without_first k xs in
      let kept = x ∷ without_first (suc k) xs in if p x then gone else kept

  -- The number of rows that such a statement deletes.
  abbrev pub deleted_by : ℕ → List T → ℕ
  deleted_by size rows = length (take size (keep_if p rows))

  -- `deleteInBatches`, with the passes that are left.
  unfoldable pub delete_in_batches : (passes size : ℕ) → List T → (total : ℕ) → List T × ℕ
  delete_in_batches zero size rows total = (rows, total)
  delete_in_batches (suc passes) size rows total =
      let deleted = deleted_by size rows in
      let left = without_first size rows in
      let more = delete_in_batches passes size left (total + deleted) in
      if ltb deleted size then (left, total + deleted) else more

pub record ExpiringRow : Type 0 where
  pub id : ℕ
  pub expires_at : ℕ

pub record NotificationRow : Type 0 where
  pub id : ℕ
  pub read_at : Option ℕ

-- A row of `Activity` or `UsagePing`.
pub record DatedRow : Type 0 where
  pub id : ℕ
  pub created_at : ℕ

pub record StoredFile : Type 0 where
  pub key : ℕ
  pub modified_at : ℕ

abbrev pub is_before : Option ℕ → ℕ → Bool
is_before none cutoff = false
is_before (some time) cutoff = ltb time cutoff

pub record Records : Type 0 where
  pub sessions : List ExpiringRow
  pub verifications : List ExpiringRow
  pub notifications : List NotificationRow
  pub activities : List DatedRow
  pub usage_pings : List DatedRow
  -- the storage keys of the attachments
  pub claimed : List ℕ
  -- what the storage lists; its listing is read before a file is removed
  pub files : List StoredFile
  pub persists_files : Bool

-- The keys removed so far, and the batch that is being filled.
pub record Sweep : Type 0 where
  pub removed : List ℕ
  pub batch : List ℕ

module _ (claimed : List ℕ) where
  abbrev pub is_claimed : ℕ → Bool
  is_claimed key = any_of (λ k. k == key) claimed

  -- `flush`
  abbrev pub flush : Sweep → Sweep
  flush s = record {
    removed = s.removed ++ keep_if (λ key. not (is_claimed key)) s.batch;
    batch = [];
  }

  abbrev pub push_key : (size key : ℕ) → Sweep → Sweep
  push_key size key s =
      let pushed = record s { batch = s.batch ++ key ∷ [] } in
      if leb size (length pushed.batch) then flush pushed else pushed

  -- The loop over the listing; the sweep ends at the ceiling.
  unfoldable pub sweep_files : (cutoff size ceiling : ℕ) → List StoredFile → Sweep → Sweep
  sweep_files cutoff size ceiling [] s = flush s
  sweep_files cutoff size ceiling (f ∷ fs) s =
      let pushed = push_key size f.key s in
      let passed = sweep_files cutoff size ceiling fs s in
      let more = sweep_files cutoff size ceiling fs pushed in
      if leb cutoff f.modified_at
      then passed
      else if leb ceiling (length pushed.removed)
      then flush pushed
      else more

unfoldable pub sweep_orphan_files : Environment → (now size passes : ℕ) → Records → List ℕ
unfolding sweep_files orphan_grace_ms
sweep_orphan_files env now size passes s =
    if s.persists_files
    then (sweep_files s.claimed (now - orphan_grace_ms env) size (size * passes) s.files
        (record { removed = []; batch = [] })).removed
    else []

pub record CleanupCounts : Type 0 where
  pub sessions : ℕ
  pub verifications : ℕ
  pub notifications : ℕ
  pub activities : ℕ
  pub usage_pings : ℕ
  pub orphaned_files : ℕ

-- A table that is kept for so many days: 0 keeps it for good.
abbrev pub expire : {T : Type 0} → (passes size : ℕ) → (days : ℕ) → (T → Bool) → List T → List T × ℕ
expire passes size days p rows =
    if days == 0 then (rows, 0) else delete_in_batches p passes size rows 0

abbrev pub no_counts : CleanupCounts
no_counts = record {
  sessions = 0;
  verifications = 0;
  notifications = 0;
  activities = 0;
  usage_pings = 0;
  orphaned_files = 0;
}

-- `runCleanup`, in batches of `size` rows and so many passes for a table.
unfoldable pub run_cleanup :
    Environment → (now size passes : ℕ) → Records → Result (Records × CleanupCounts)
unfolding delete_in_batches cutoff_for sweep_orphan_files
run_cleanup env now size passes s = do
  notification_days ← retention_days env.notification_retention_days
  activity_days ← retention_days env.activity_retention_days
  let (sessions, sessions_gone) =
      delete_in_batches (λ r. ltb r.expires_at now) passes size s.sessions 0
  let (verifications, verifications_gone) =
      delete_in_batches (λ r. ltb r.expires_at now) passes size s.verifications 0
  let (notifications, notifications_gone) =
      expire passes size notification_days
        (λ r. is_before r.read_at (cutoff_for now notification_days)) s.notifications
  let (activities, activities_gone) =
      expire passes size activity_days (λ r. ltb r.created_at (cutoff_for now activity_days))
        s.activities
  let (usage_pings, usage_pings_gone) =
      expire passes size activity_days (λ r. ltb r.created_at (cutoff_for now activity_days))
        s.usage_pings
  let orphans = sweep_orphan_files env now size passes s
  if env.cleanup_enabled
      then ok (
        record s {
          sessions = sessions;
          verifications = verifications;
          notifications = notifications;
          activities = activities;
          usage_pings = usage_pings;
          files = keep_if (λ f. not (any_of (λ k. k == f.key) orphans)) s.files;
        },
        record {
          sessions = sessions_gone;
          verifications = verifications_gone;
          notifications = notifications_gone;
          activities = activities_gone;
          usage_pings = usage_pings_gone;
          orphaned_files = length orphans;
        },
      )
      else ok (s, no_counts)
