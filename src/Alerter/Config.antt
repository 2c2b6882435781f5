-- ===== src/Alerter/Config.antt =====
-- The rules of internal/alerter/alerter.go and their defaults. A rule that is nil is `none`.
use glint.Common.{ℕ, ◌*◌, Option, some}
use glint.Common.Int.{pos}
use glint.Common.Text.{Str, str}
use glint.Common.Float.{Float}
use glint.Common.Time.{minute, hour}

pub record ThresholdAlert (F : Type 0) : Type 0 where
  pub threshold : F
  pub duration : ℕ
  pub severity : Str
  pub cooldown : ℕ

pub record GuestAlert : Type 0 where
  pub grace_period : ℕ
  pub severity : Str
  pub cooldown : ℕ

pub record BackupAlert : Type 0 where
  pub max_age : ℕ
  pub severity : Str
  pub cooldown : ℕ

pub record SimpleAlert : Type 0 where
  pub severity : Str
  pub cooldown : ℕ

pub record AlertConfig (F : Type 0) : Type 0 where
  pub node_cpu_high : Option (ThresholdAlert F)
  pub node_mem_high : Option (ThresholdAlert F)
  pub guest_down : Option GuestAlert
  pub backup_stale : Option BackupAlert
  pub disk_smart_failed : Option SimpleAlert
  pub datastore_full : Option (ThresholdAlert F)

module _ (fl : Float) where
  open fl use {Carrier, of_int}

  high : ℕ → ℕ → ℕ → ThresholdAlert Carrier
  high t d c = record {
    threshold = of_int (pos t);
    duration = d;
    severity = str "warning";
    cooldown = c;
  }

  unfoldable pub default_alert_config : AlertConfig Carrier
  unfolding high
  default_alert_config = record {
    node_cpu_high = some (high 90 (5 * minute) hour);
    node_mem_high = some (high 90 (5 * minute) hour);
    guest_down =
        some
          (record { grace_period = 2 * minute; severity = str "critical"; cooldown = 30 * minute });
    backup_stale =
        some (record { max_age = 36 * hour; severity = str "warning"; cooldown = 6 * hour });
    disk_smart_failed = some (record { severity = str "critical"; cooldown = 6 * hour });
    datastore_full = some (high 85 0 (6 * hour));
  }
