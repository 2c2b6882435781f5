-- ===== src/Store.antt =====
-- internal/store/store.go: the store. Its tables are parameters (Store.Sql). Each operation takes whether the database
-- carries its statements out; one that it refuses changes nothing and is an error.
pub mod Sql
pub mod Rows
pub mod Pruner
pub mod Query
pub mod Spec
pub mod Refinement
pub mod Memory
pub mod Tests
use glint.Common.{
  ℕ, ◌*◌, ◌/◌, Bool, true, false, ◌&&◌, Option, none, some, List, [], ◌∷◌, if◌then◌else◌,
}
use glint.Common.Int.{ℤ, pos, ltb_ℤ, leb_ℤ, eqb_ℤ, ◌-ℤ◌}
use glint.Common.Text.{Str, str, str_eq}
use glint.Common.Result.{Result, ok, err}
use glint.Common.Float.{Float}
use glint.Common.Dict.{Eq, str_key, int_key, pair_key}
use glint.Common.Time.{second, hour}
use glint.Model.{
  Backup, DatastoreStatus, Disk, GuestSnapshot, NodeSnapshot, SmartAttribute, SparklinePoint,
}
use glint.Store.Sql.{Log, Table}
use glint.Store.Rows.{
  AlertRow, BackupRow, Database, DatastoreRow, DiskRow, PbsInstanceRow, PveInstanceRow, SmartRow,
  backup_row, backup_row_key, datastore_key, datastore_row, disk_row, guest_key, merge_disk, merged,
  node_key, pve_instance_row, smart_key, smart_row, verified_column,
}

pub record Store {F : Type 0} (d : Database F) : Type 0 where
  pub pve_instances : d.pve_instances.Rows
  pub pbs_instances : d.pbs_instances.Rows
  pub disks : d.disks.Rows
  pub node_snapshots : d.node_snapshots.Rows
  pub guest_snapshots : d.guest_snapshots.Rows
  pub smart_snapshots : d.smart_snapshots.Rows
  pub backup_snapshots : d.backup_snapshots.Rows
  pub datastore_snapshots : d.datastore_snapshots.Rows
  pub alert_log : d.alert_log.Rows

pub data StoreError : Type 0 where
  exec_failed : StoreError
  marshal_failed : StoreError
  unknown_metric : Str → StoreError
  query_failed : StoreError
  scan_failed : StoreError

-- A statement that the database carries out or refuses.
unfoldable pub exec {ℓ} : {S : Type ℓ} → Bool → S → S → Option StoreError × S
exec carried after before = if carried then (none, after) else (some exec_failed, before)

module _ {F : Type 0} (d : Database F) where
  unfoldable pub insert_node_snapshot :
      Bool → NodeSnapshot F → Store d → Option StoreError × Store d
  unfolding exec
  insert_node_snapshot carried r s =
      exec carried (record s { node_snapshots = d.node_snapshots.replace r s.node_snapshots }) s

  unfoldable pub insert_guest_snapshot :
      Bool → GuestSnapshot F → Store d → Option StoreError × Store d
  unfolding exec
  insert_guest_snapshot carried r s =
      exec carried (record s { guest_snapshots = d.guest_snapshots.replace r s.guest_snapshots }) s

  unfoldable pub insert_smart_snapshot :
      (List SmartAttribute → Option Str) → Bool → ℤ → Disk → Store d → Option StoreError × Store d
  unfolding exec smart_row
  insert_smart_snapshot marshal carried ts x s = elim (marshal x.attributes) [
    | none ↦ (some marshal_failed, s)
    | some attrs_json ↦
        exec carried
          (record s {
            smart_snapshots =
                d.smart_snapshots.replace (smart_row ts x attrs_json) s.smart_snapshots;
          })
          s
  ]

  unfoldable pub insert_backup_snapshot : Bool → ℤ → Backup → Store d → Option StoreError × Store d
  unfolding exec backup_row
  insert_backup_snapshot carried ts b s =
      exec carried
        (record s {
          backup_snapshots = d.backup_snapshots.replace (backup_row ts b) s.backup_snapshots;
        })
        s

  unfoldable pub insert_datastore_snapshot :
      Bool → ℤ → DatastoreStatus F → Store d → Option StoreError × Store d
  unfolding exec datastore_row
  insert_datastore_snapshot carried ts x s =
      exec carried
        (record s {
          datastore_snapshots =
              d.datastore_snapshots.replace (datastore_row ts x) s.datastore_snapshots;
        })
        s

  unfoldable pub insert_alert : Bool → AlertRow → Store d → Option StoreError × Store d
  unfolding exec
  insert_alert carried r s =
      exec carried (record s { alert_log = d.alert_log.append r s.alert_log }) s

  -- INSERT … ON CONFLICT(wwn) DO UPDATE SET ….
  unfoldable pub upsert_disk : Bool → ℤ → Disk → Store d → Option StoreError × Store d
  unfolding exec disk_row merged
  upsert_disk carried now x s =
      let row = merged (d.disks.find x.wwn s.disks) (disk_row now x) in
      exec carried (record s { disks = d.disks.replace row s.disks }) s

  -- On conflict all columns but the key are taken from the new row.
  unfoldable pub upsert_pve_instance :
      Bool → Str → Str → Bool → Str → Store d → Option StoreError × Store d
  unfolding exec pve_instance_row
  upsert_pve_instance carried name host is_cluster cluster_id s =
      exec carried
        (record s {
          pve_instances =
              d.pve_instances.replace (pve_instance_row name host is_cluster cluster_id)
                s.pve_instances;
        })
        s

  unfoldable pub upsert_pbs_instance : Bool → Str → Str → Store d → Option StoreError × Store d
  unfolding exec
  upsert_pbs_instance carried name host s =
      exec carried
        (record s {
          pbs_instances =
              d.pbs_instances.replace (record { name = name; host = host }) s.pbs_instances;
        })
        s
