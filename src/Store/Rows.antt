-- ===== src/Store/Rows.antt =====
-- internal/store/migrations.go: the columns and primary keys of the schema, and the rows that the statements
-- of store.go write.
use glint.Common.{ℕ, Bool, true, false, Option, none, some, if◌then◌else◌}
use glint.Common.Int.{ℤ, pos}
use glint.Common.Text.{Str}
use glint.Common.Dict.{str_key, int_key, pair_key}
use glint.Model.{Backup, DatastoreStatus, Disk, GuestSnapshot, NodeSnapshot}
use glint.Store.Sql.{Log, Table}

-- The rows of the tables that have no type of their own in internal/model.
pub record SmartRow : Type 0 where
  pub timestamp : ℤ
  pub wwn : Str
  pub health : Str
  pub status : ℕ
  pub temperature : Option ℤ
  pub power_on_hours : Option ℤ
  pub wearout : Option ℤ
  pub attributes_json : Str

pub record BackupRow : Type 0 where
  pub timestamp : ℤ
  pub pbs_instance : Str
  pub datastore : Str
  pub backup_type : Str
  pub backup_id : Str
  pub backup_time : ℤ
  pub size_bytes : Option ℤ
  pub verified : Option ℤ

pub record DatastoreRow (F : Type 0) : Type 0 where
  pub timestamp : ℤ
  pub pbs_instance : Str
  pub store_name : Str
  pub total_bytes : Option ℤ
  pub used_bytes : Option ℤ
  pub avail_bytes : Option ℤ
  pub dedup_ratio : Option F
  pub est_full_date : Option ℤ

pub record AlertRow : Type 0 where
  pub timestamp : ℤ
  pub alert_type : Str
  pub instance_name : Str
  pub subject : Str
  pub message : Str
  pub severity : Str

pub record DiskRow : Type 0 where
  pub wwn : Str
  pub instance_name : Str
  pub node : Str
  pub dev_path : Str
  pub model : Str
  pub serial : Str
  pub disk_type : Str
  pub protocol : Str
  pub size_bytes : ℤ
  pub first_seen : ℤ
  pub last_seen : ℤ

pub record PveInstanceRow : Type 0 where
  pub name : Str
  pub host : Str
  pub is_cluster : ℤ
  pub cluster_id : Str

pub record PbsInstanceRow : Type 0 where
  pub name : Str
  pub host : Str

-- The primary keys.
abbrev pub node_key : {F : Type 0} → NodeSnapshot F → ℤ × (Str × Str)
node_key r = (r.timestamp, (r.instance_name, r.node))

abbrev pub guest_key : {F : Type 0} → GuestSnapshot F → ℤ × (Str × ℤ)
guest_key r = (r.timestamp, (r.instance_name, r.vmid))

abbrev pub smart_key : SmartRow → ℤ × Str
smart_key r = (r.timestamp, r.wwn)

abbrev pub backup_row_key : BackupRow → ℤ × (Str × (Str × ℤ))
backup_row_key r = (r.timestamp, (r.pbs_instance, (r.backup_id, r.backup_time)))

abbrev pub datastore_key : {F : Type 0} → DatastoreRow F → ℤ × (Str × Str)
datastore_key r = (r.timestamp, (r.pbs_instance, r.store_name))

-- The tables.
pub record Database (F : Type 0) : Type 1 where
  pub pve_instances : Table Str PveInstanceRow str_key (λ r. r.name)
  pub pbs_instances : Table Str PbsInstanceRow str_key (λ r. r.name)
  pub disks : Table Str DiskRow str_key (λ r. r.wwn)
  pub node_snapshots : Table (ℤ × (Str × Str)) (NodeSnapshot F) pair_key node_key
  pub guest_snapshots : Table (ℤ × (Str × ℤ)) (GuestSnapshot F) pair_key guest_key
  pub smart_snapshots : Table (ℤ × Str) SmartRow pair_key smart_key
  pub backup_snapshots : Table (ℤ × (Str × (Str × ℤ))) BackupRow pair_key backup_row_key
  pub datastore_snapshots : Table (ℤ × (Str × Str)) (DatastoreRow F) pair_key datastore_key
  pub alert_log : Log AlertRow

-- The verified column: NULL, 0 or 1.
unfoldable pub verified_column : Option Bool → Option ℤ
verified_column none = none
verified_column (some true) = some (pos 1)
verified_column (some false) = some (pos 0)

-- The values of the INSERT statements.
unfoldable pub smart_row : ℤ → Disk → Str → SmartRow
smart_row ts x attrs_json = record {
  timestamp = ts;
  wwn = x.wwn;
  health = x.health;
  status = x.status;
  temperature = x.temperature;
  power_on_hours = x.power_on_hours;
  wearout = x.wearout;
  attributes_json = attrs_json;
}

unfoldable pub backup_row : ℤ → Backup → BackupRow
unfolding verified_column
backup_row ts b = record {
  timestamp = ts;
  pbs_instance = b.pbs_instance;
  datastore = b.datastore;
  backup_type = b.backup_type;
  backup_id = b.backup_id;
  backup_time = b.backup_time;
  size_bytes = b.size_bytes;
  verified = verified_column b.verified;
}

unfoldable pub datastore_row : {F : Type 0} → ℤ → DatastoreStatus F → DatastoreRow F
datastore_row ts x = record {
  timestamp = ts;
  pbs_instance = x.pbs_instance;
  store_name = x.name;
  total_bytes = x.total_bytes;
  used_bytes = x.used_bytes;
  avail_bytes = x.avail_bytes;
  dedup_ratio = x.dedup_ratio;
  est_full_date = x.est_full_date;
}

unfoldable pub disk_row : ℤ → Disk → DiskRow
disk_row now x = record {
  wwn = x.wwn;
  instance_name = x.instance_name;
  node = x.node;
  dev_path = x.dev_path;
  model = x.model;
  serial = x.serial;
  disk_type = x.disk_type;
  protocol = x.protocol;
  size_bytes = x.size_bytes;
  first_seen = now;
  last_seen = now;
}

unfoldable pub pve_instance_row : Str → Str → Bool → Str → PveInstanceRow
pve_instance_row name host is_cluster cluster_id = record {
  name = name;
  host = host;
  is_cluster = if is_cluster then pos 1 else pos 0;
  cluster_id = cluster_id;
}

-- The columns that DO UPDATE SET takes from the row `new`.
unfoldable pub merge_disk : DiskRow → DiskRow → DiskRow
merge_disk old new = record old {
  instance_name = new.instance_name;
  node = new.node;
  dev_path = new.dev_path;
  model = new.model;
  serial = new.serial;
  last_seen = new.last_seen;
}

-- The row after INSERT … ON CONFLICT DO UPDATE.
unfoldable pub merged : Option DiskRow → DiskRow → DiskRow
unfolding merge_disk
merged none new = new
merged (some old) new = merge_disk old new
