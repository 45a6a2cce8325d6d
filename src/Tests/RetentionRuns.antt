-- ===== src/Tests/RetentionRuns.antt =====
-- A nightly cleanup of small tables, in batches of two rows.
use kurultay.Base.{ℕ, ◌*◌, ◌-◌, ◌≡◌, refl, ap, length, true, none, some, [], ◌∷◌, arith, ok, ◌>>=◌}
use kurultay.Retention.{
  pos, negsuc, Environment, Records, cutoff_for, run_cleanup, ms_per_day, orphan_grace_ms,
}
use kurultay.Retention.Orphans.{orphans}
use kurultay.Retention.Kept.{kept, counts, IsWithin, run_cleanup_lem}

abbrev settings : Environment
settings = record {
  cleanup_enabled = true;
  notification_retention_days = pos 2;
  activity_retention_days = pos 0;
  backup_interval = pos 0;
  backup_keep = negsuc 3;
}

abbrev today : ℕ
today = 10 * ms_per_day

abbrev tables : Records
tables = record {
  sessions =
      record { id = 1; expires_at = 5 }
      ∷ record { id = 2; expires_at = 6 }
      ∷ record { id = 3; expires_at = today }
      ∷ record { id = 4; expires_at = 7 }
      ∷ [];
  verifications = record { id = 1; expires_at = 5 } ∷ [];
  notifications =
      record { id = 1; read_at = none }
      ∷ record { id = 2; read_at = some 9 }
      ∷ record { id = 3; read_at = some today }
      ∷ [];
  activities = record { id = 1; created_at = 0 } ∷ [];
  usage_pings = [];
  claimed = 70 ∷ [];
  files =
      record { key = 70; modified_at = 1 }
      ∷ record { key = 71; modified_at = 1 }
      ∷ record { key = 72; modified_at = today }
      ∷ [];
  persists_files = true;
}

orphans_are : orphans tables.claimed (today - orphan_grace_ms settings) tables.files ≡ 71 ∷ []
unfolding orphan_grace_ms
orphans_are = refl

abbrev tables-IsWithin : IsWithin settings today 2 0 2 3 tables
unfolding cutoff_for
tables-IsWithin = record {
  sessions = omega arith;
  verifications = omega arith;
  notifications = omega arith;
  activities = omega arith;
  usage_pings = omega arith;
  files = omega (arith, ap length orphans_are);
}

run_cleanup_lem_example :
    run_cleanup settings today 2 3 tables
    ≡ ok (kept settings today 2 0 tables, counts settings today 2 0 tables)
run_cleanup_lem_example =
    run_cleanup_lem settings today 2 0 2 3 tables refl refl refl refl tables-IsWithin
