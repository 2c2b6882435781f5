-- ===== src/Store/Pruner.antt =====
-- internal/store/pruner.go: a round of the pruner.
use glint.Common.{ℕ, ◌*◌, ◌/◌, Bool, if◌then◌else◌}
use glint.Common.Int.{ℤ, pos, ltb_ℤ, ◌-ℤ◌}
use glint.Common.Text.{Str, str}
use glint.Common.Dict.{str_key, int_key, pair_key}
use glint.Common.Time.{second, hour}
use glint.Store.Rows.{Database}
use glint.Store.{Store}

-- The retention periods, in nanoseconds.
pub record RetentionConfig : Type 0 where
  pub node_snapshots : ℕ
  pub guest_snapshots : ℕ
  pub smart_snapshots : ℕ
  pub backup_snapshots : ℕ
  pub datastore_snapshots : ℕ
  pub alert_log : ℕ

unfoldable pub default_retention : RetentionConfig
default_retention = record {
  node_snapshots = 48 * hour;
  guest_snapshots = 48 * hour;
  smart_snapshots = 30 * (24 * hour);
  backup_snapshots = 7 * (24 * hour);
  datastore_snapshots = 7 * (24 * hour);
  alert_log = 30 * (24 * hour);
}

-- int64(t.retention.Seconds()) of whole seconds.
unfoldable pub cutoff : ℕ → ℕ → ℤ
cutoff now retention = pos (now / second) -ℤ pos (retention / second)

-- The loop's body for a table: the rows before and after.
unfoldable pub prune_table {ℓ} : {T : Type ℓ} → Bool → T → T → T
prune_table carried after before = if carried then after else before

module _ {F : Type 0} (d : Database F) where
  -- `carried` says of each table whether the database carries the DELETE out.
  unfoldable pub prune : (Str → Bool) → RetentionConfig → ℕ → Store d → Store d
  unfolding cutoff prune_table
  prune carried retention now s = record s {
    node_snapshots =
        prune_table (carried (str "node_snapshots"))
          (d.node_snapshots.delete (λ r. ltb_ℤ r.timestamp (cutoff now retention.node_snapshots))
            s.node_snapshots)
          s.node_snapshots;
    guest_snapshots =
        prune_table (carried (str "guest_snapshots"))
          (d.guest_snapshots.delete (λ r. ltb_ℤ r.timestamp (cutoff now retention.guest_snapshots))
            s.guest_snapshots)
          s.guest_snapshots;
    smart_snapshots =
        prune_table (carried (str "smart_snapshots"))
          (d.smart_snapshots.delete (λ r. ltb_ℤ r.timestamp (cutoff now retention.smart_snapshots))
            s.smart_snapshots)
          s.smart_snapshots;
    backup_snapshots =
        prune_table (carried (str "backup_snapshots"))
          (d.backup_snapshots.delete
            (λ r. ltb_ℤ r.timestamp (cutoff now retention.backup_snapshots)) s.backup_snapshots)
          s.backup_snapshots;
    datastore_snapshots =
        prune_table (carried (str "datastore_snapshots"))
          (d.datastore_snapshots.delete
            (λ r. ltb_ℤ r.timestamp (cutoff now retention.datastore_snapshots))
            s.datastore_snapshots)
          s.datastore_snapshots;
    alert_log =
        prune_table (carried (str "alert_log"))
          (d.alert_log.delete (λ r. ltb_ℤ r.timestamp (cutoff now retention.alert_log)) s.alert_log)
          s.alert_log;
  }
