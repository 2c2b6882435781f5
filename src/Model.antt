-- ===== src/Model.antt =====
-- The shared domain types of internal/model/model.go. A struct is a record, a pointer an `Option`, an
-- int64 or int an integer; `F` is the type of float64, and a time.Time its Unix nanoseconds.
use glint.Common.{ℕ, List, Option, Bool}
use glint.Common.Int.{ℤ}
use glint.Common.Text.{Str}
use glint.Common.Dict.{Dict}

pub record CpuInfo : Type 0 where
  pub model : Str
  pub cores : ℤ
  pub threads : ℤ
  pub sockets : ℤ

pub record MemUsage : Type 0 where
  pub used : ℤ
  pub total : ℤ

pub record DiskUsage : Type 0 where
  pub used : ℤ
  pub total : ℤ

pub record Node (F : Type 0) : Type 0 where
  pub instance_name : Str
  pub name : Str
  pub status : Str
  pub cpu : F
  pub cpu_info : CpuInfo
  pub memory : MemUsage
  pub swap : MemUsage
  pub root_fs : DiskUsage
  pub load_avg : F × F × F
  pub uptime : ℤ
  pub io_wait : F
  pub pve_version : Str
  pub kernel_ver : Str
  pub temperature : Option F

pub record Guest (F : Type 0) : Type 0 where
  pub instance_name : Str
  pub node : Str
  pub cluster_id : Str
  pub guest_type : Str
  pub vmid : ℤ
  pub name : Str
  pub status : Str
  pub cpu : F
  pub cpus : ℤ
  pub mem : ℤ
  pub max_mem : ℤ
  pub disk : ℤ
  pub max_disk : ℤ
  pub net_in : ℤ
  pub net_out : ℤ
  pub uptime : ℤ

-- SMART status bitfield values.
abbrev pub status_passed : ℕ
status_passed = 0

abbrev pub status_failed_smart : ℕ
status_failed_smart = 1

abbrev pub status_warn_scrutiny : ℕ
status_warn_scrutiny = 2

abbrev pub status_failed_scrutiny : ℕ
status_failed_scrutiny = 4

abbrev pub status_unknown : ℕ
status_unknown = 8

abbrev pub status_internal_error : ℕ
status_internal_error = 16

-- A failure rate is one of the constants of the threshold table, in thousandths.
pub record SmartAttribute : Type 0 where
  pub id : ℤ
  pub name : Str
  pub value : ℤ
  pub worst : ℤ
  pub threshold : ℤ
  pub raw_value : ℤ
  pub raw_string : Str
  pub status : ℕ
  pub failure_rate : Option ℕ

pub record Disk : Type 0 where
  pub instance_name : Str
  pub node : Str
  pub wwn : Str
  pub dev_path : Str
  pub model : Str
  pub serial : Str
  pub disk_type : Str
  pub protocol : Str
  pub size_bytes : ℤ
  pub health : Str
  pub status : ℕ
  pub temperature : Option ℤ
  pub power_on_hours : Option ℤ
  pub wearout : Option ℤ
  pub attributes : List SmartAttribute
  pub first_seen : ℕ
  pub last_seen : ℕ

pub record Backup : Type 0 where
  pub pbs_instance : Str
  pub datastore : Str
  pub backup_type : Str
  pub backup_id : Str
  pub backup_time : ℤ
  pub size_bytes : Option ℤ
  pub verified : Option Bool

pub record PbsTask : Type 0 where
  pub pbs_instance : Str
  pub upid : Str
  pub task_type : Str
  pub id : Str
  pub start_time : ℤ
  pub end_time : Option ℤ
  pub status : Str
  pub user : Str

pub record DatastoreStatus (F : Type 0) : Type 0 where
  pub pbs_instance : Str
  pub name : Str
  pub total_bytes : Option ℤ
  pub used_bytes : Option ℤ
  pub avail_bytes : Option ℤ
  pub dedup_ratio : Option F
  pub est_full_date : Option ℤ
  pub error : Option Str

-- Time-series records of the store.
pub record NodeSnapshot (F : Type 0) : Type 0 where
  pub timestamp : ℤ
  pub instance_name : Str
  pub node : Str
  pub cpu_pct : F
  pub mem_used : ℤ
  pub mem_total : ℤ
  pub swap_used : ℤ
  pub swap_total : ℤ
  pub root_used : ℤ
  pub root_total : ℤ
  pub load_1m : F
  pub load_5m : F
  pub load_15m : F
  pub io_wait : F
  pub uptime_secs : ℤ
  pub cpu_temp : Option F

pub record GuestSnapshot (F : Type 0) : Type 0 where
  pub timestamp : ℤ
  pub instance_name : Str
  pub vmid : ℤ
  pub node : Str
  pub cluster_id : Str
  pub guest_type : Str
  pub name : Str
  pub status : Str
  pub cpu_pct : F
  pub cpus : ℤ
  pub mem_used : ℤ
  pub mem_total : ℤ
  pub disk_used : ℤ
  pub disk_total : ℤ
  pub net_in : ℤ
  pub net_out : ℤ

pub record SparklinePoint (F : Type 0) : Type 0 where
  pub timestamp : ℤ
  pub value : F

pub record Notification : Type 0 where
  pub alert_type : Str
  pub severity : Str
  pub title : Str
  pub message : Str
  pub instance_name : Str
  pub subject : Str
  pub timestamp : ℕ
  pub resolved : Bool
  pub metadata : Dict Str Str
