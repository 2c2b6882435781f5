-- ===== src/Config/Types.antt =====
-- The types of internal/config/config.go. A duration is in nanoseconds, and may be negative.
use glint.Common.{Bool, Option, none, List, []}
use glint.Common.Int.{ℤ, pos}
use glint.Common.Text.{Str, str}
use glint.Common.Dict.{Dict}

pub record SshConfig : Type 0 where
  pub host : Str
  pub user : Str
  pub key_path : Str
  pub known_hosts_file : Str

pub record PveConfig : Type 0 where
  pub name : Str
  pub host : Str
  pub token_id : Str
  pub token_secret : Str
  pub insecure : Bool
  pub poll_interval : ℤ
  pub disk_poll_interval : ℤ
  pub ssh : Option SshConfig

pub record PbsConfig : Type 0 where
  pub name : Str
  pub host : Str
  pub token_id : Str
  pub token_secret : Str
  pub insecure : Bool
  pub datastores : List Str
  pub poll_interval : ℤ

pub record NotificationConfig : Type 0 where
  pub kind : Str
  pub url : Str
  pub topic : Str
  pub method : Str
  pub headers : Dict Str Str

pub record AlertNodeCpuHigh (F : Type 0) : Type 0 where
  pub threshold : F
  pub duration : ℤ
  pub severity : Str

pub record AlertGuestDown : Type 0 where
  pub grace_period : ℤ
  pub severity : Str

pub record AlertBackupStale : Type 0 where
  pub max_age : ℤ
  pub severity : Str

pub record AlertDiskSmartFailed : Type 0 where
  pub severity : Str

pub record AlertDatastoreFull (F : Type 0) : Type 0 where
  pub threshold : F
  pub severity : Str

pub record AlertsConfig (F : Type 0) : Type 0 where
  pub node_cpu_high : Option (AlertNodeCpuHigh F)
  pub guest_down : Option AlertGuestDown
  pub backup_stale : Option AlertBackupStale
  pub disk_smart_failed : Option AlertDiskSmartFailed
  pub datastore_full : Option (AlertDatastoreFull F)

pub record Config (F : Type 0) : Type 0 where
  pub listen : Str
  pub db_path : Str
  pub log_level : Str
  pub log_format : Str
  pub history_hours : ℤ
  pub worker_pool_size : ℤ
  pub pve : List PveConfig
  pub pbs : List PbsConfig
  pub notifications : List NotificationConfig
  pub alerts : AlertsConfig F

unfoldable pub defaults : {F : Type 0} → Config F
defaults = record {
  listen = str ":3800";
  db_path = str "/data/glint.db";
  log_level = str "info";
  log_format = str "text";
  history_hours = pos 48;
  worker_pool_size = pos 4;
  pve = [];
  pbs = [];
  notifications = [];
  alerts = record {
    node_cpu_high = none;
    guest_down = none;
    backup_stale = none;
    disk_smart_failed = none;
    datastore_full = none;
  };
}
