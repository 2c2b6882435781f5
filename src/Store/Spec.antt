-- ===== src/Store/Spec.antt =====
-- What the store promises, without its tables: a function from keys to rows for each, and the list of alerts.
use glint.Common.{ℕ, ◌/◌, Bool, Option, none, some, List, [], ◌∷◌, ◌++◌, filter, if◌then◌else◌}
use glint.Common.Int.{ℤ, pos, leb_ℤ, ◌-ℤ◌}
use glint.Common.Text.{Str, str}
use glint.Common.Time.{second}
use glint.Common.Dict.{Eq, str_key, int_key, pair_key, kept}
use glint.Model.{Backup, DatastoreStatus, Disk, GuestSnapshot, NodeSnapshot, SmartAttribute}
use glint.Store.Rows.{
  AlertRow, BackupRow, DatastoreRow, DiskRow, PbsInstanceRow, PveInstanceRow, SmartRow,
}
use glint.Store.Pruner.{RetentionConfig}

-- An operation of the store, and whether the database carries it out; the SMART attributes are encoded.
pub data Op (F : Type 0) : Type 0 where
  node_stored : Bool → NodeSnapshot F → Op F
  guest_stored : Bool → GuestSnapshot F → Op F
  smart_stored : Bool → ℤ → Disk → Op F
  backup_stored : Bool → ℤ → Backup → Op F
  datastore_stored : Bool → ℤ → DatastoreStatus F → Op F
  alert_stored : Bool → AlertRow → Op F
  disk_stored : Bool → ℤ → Disk → Op F
  pve_instance_stored : Bool → (name host : Str) → Bool → Str → Op F
  pbs_instance_stored : Bool → (name host : Str) → Op F
  pruned : (Str → Bool) → RetentionConfig → ℕ → Op F

pub record Contents (F : Type 0) : Type 0 where
  pub pve_instances : Str → Option PveInstanceRow
  pub pbs_instances : Str → Option PbsInstanceRow
  pub disks : Str → Option DiskRow
  pub node_snapshots : ℤ × (Str × Str) → Option (NodeSnapshot F)
  pub guest_snapshots : ℤ × (Str × ℤ) → Option (GuestSnapshot F)
  pub smart_snapshots : ℤ × Str → Option SmartRow
  pub backup_snapshots : ℤ × (Str × (Str × ℤ)) → Option BackupRow
  pub datastore_snapshots : ℤ × (Str × Str) → Option (DatastoreRow F)
  pub alert_log : List AlertRow

-- A Boolean as SQLite keeps it.
abbrev pub flag : Bool → ℤ
flag b = if b then pos 1 else pos 0

-- What is kept of a disk, of which there may be a row already: where and under which name it was found last,
-- and of the rest what was stored first.
abbrev pub disk_kept : Option DiskRow → ℤ → Disk → DiskRow
disk_kept old now x = record {
  wwn = x.wwn;
  instance_name = x.instance_name;
  node = x.node;
  dev_path = x.dev_path;
  model = x.model;
  serial = x.serial;
  disk_type = elim old [ none ↦ x.disk_type | some r ↦ r.disk_type ];
  protocol = elim old [ none ↦ x.protocol | some r ↦ r.protocol ];
  size_bytes = elim old [ none ↦ x.size_bytes | some r ↦ r.size_bytes ];
  first_seen = elim old [ none ↦ now | some r ↦ r.first_seen ];
  last_seen = now;
}

-- What is kept of a disk's SMART data, a backup and a datastore.
abbrev pub smart_kept : ℤ → Disk → Str → SmartRow
smart_kept ts x attributes = record {
  timestamp = ts;
  wwn = x.wwn;
  health = x.health;
  status = x.status;
  temperature = x.temperature;
  power_on_hours = x.power_on_hours;
  wearout = x.wearout;
  attributes_json = attributes;
}

abbrev pub backup_kept : ℤ → Backup → BackupRow
backup_kept ts x = record {
  timestamp = ts;
  pbs_instance = x.pbs_instance;
  datastore = x.datastore;
  backup_type = x.backup_type;
  backup_id = x.backup_id;
  backup_time = x.backup_time;
  size_bytes = x.size_bytes;
  verified = elim x.verified [ none ↦ none | some v ↦ some (flag v) ];
}

abbrev pub datastore_kept : {F : Type 0} → ℤ → DatastoreStatus F → DatastoreRow F
datastore_kept ts x = record {
  timestamp = ts;
  pbs_instance = x.pbs_instance;
  store_name = x.name;
  total_bytes = x.total_bytes;
  used_bytes = x.used_bytes;
  avail_bytes = x.avail_bytes;
  dedup_ratio = x.dedup_ratio;
  est_full_date = x.est_full_date;
}

module _ {K R : Type 0} (e : Eq K) where
  abbrev pub put : K → R → (K → Option R) → K → Option R
  put j r m k = if e.beq j k then some r else m k

-- A row that a prune at `now` leaves: it is at most the retention period old, in whole seconds.
abbrev pub recent : ℕ → ℕ → ℤ → Bool
recent now retention ts = leb_ℤ (pos (now / second) -ℤ pos (retention / second)) ts

-- The rows that a prune leaves, where it is carried out.
abbrev pub keep : {K R : Type 0} → Bool → (R → Bool) → (K → Option R) → K → Option R
keep carried p m k = if carried then kept p (m k) else m k

module _ {F : Type 0} (marshal : List SmartAttribute → Option Str) where
  -- What an operation does to the contents.
  unfoldable pub change : Op F → Contents F → Contents F
  change (node_stored b r) c =
      if b
      then record c {
        node_snapshots = put pair_key (r.timestamp, (r.instance_name, r.node)) r c.node_snapshots;
      }
      else c
  change (guest_stored b r) c =
      if b
      then record c {
        guest_snapshots = put pair_key (r.timestamp, (r.instance_name, r.vmid)) r c.guest_snapshots;
      }
      else c
  change (smart_stored b ts x) c = elim (marshal x.attributes) [
    | none ↦ c
    | some j ↦
        if b
        then record c {
          smart_snapshots = put pair_key (ts, x.wwn) (smart_kept ts x j) c.smart_snapshots;
        }
        else c
  ]
  change (backup_stored b ts x) c =
      if b
      then record c {
        backup_snapshots =
            put pair_key (ts, (x.pbs_instance, (x.backup_id, x.backup_time))) (backup_kept ts x)
              c.backup_snapshots;
      }
      else c
  change (datastore_stored b ts x) c =
      if b
      then record c {
        datastore_snapshots =
            put pair_key (ts, (x.pbs_instance, x.name)) (datastore_kept ts x) c.datastore_snapshots;
      }
      else c
  change (alert_stored b r) c = if b then record c { alert_log = c.alert_log ++ r ∷ [] } else c
  change (disk_stored b now x) c =
      if b
      then record c { disks = put str_key x.wwn (disk_kept (c.disks x.wwn) now x) c.disks }
      else c
  change (pve_instance_stored b name host cluster id) c =
      if b
      then record c {
        pve_instances =
            put str_key name
              (record { name = name; host = host; is_cluster = flag cluster; cluster_id = id })
              c.pve_instances;
      }
      else c
  change (pbs_instance_stored b name host) c =
      if b
      then record c {
        pbs_instances = put str_key name (record { name = name; host = host }) c.pbs_instances;
      }
      else c
  change (pruned b old now) c = record c {
    node_snapshots =
        keep (b (str "node_snapshots")) (λ r. recent now old.node_snapshots r.timestamp)
          c.node_snapshots;
    guest_snapshots =
        keep (b (str "guest_snapshots")) (λ r. recent now old.guest_snapshots r.timestamp)
          c.guest_snapshots;
    smart_snapshots =
        keep (b (str "smart_snapshots")) (λ r. recent now old.smart_snapshots r.timestamp)
          c.smart_snapshots;
    backup_snapshots =
        keep (b (str "backup_snapshots")) (λ r. recent now old.backup_snapshots r.timestamp)
          c.backup_snapshots;
    datastore_snapshots =
        keep (b (str "datastore_snapshots")) (λ r. recent now old.datastore_snapshots r.timestamp)
          c.datastore_snapshots;
    alert_log =
        if b (str "alert_log")
        then filter (λ r. recent now old.alert_log r.timestamp) c.alert_log
        else c.alert_log;
  }
