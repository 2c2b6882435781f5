-- ===== src/Startup.antt =====
-- cmd/glint/main.go: what the program makes of its configuration before it starts the parts. The alerter's
-- durations are natural numbers: `Validate` has refused those that are not positive.
pub mod Wiring
pub mod Launch
pub mod Tickers
pub mod Health
mod Tests
use glint.Common.{ℕ, ◌*◌, Bool, Option, none, some, List, [], ◌∷◌, cons_some, if◌then◌else◌}
use glint.Common.Int.{ℤ, pos, pos_part, eqb_ℤ}
use glint.Common.Text.{Str, str, str_eq, is_empty}
use glint.Common.Float.{Float}
use glint.Common.Time.{second, minute, hour}
use glint.Notify.{Provider, new_ntfy, new_webhook}
use glint.Config.Types.{
  PveConfig, PbsConfig, NotificationConfig, AlertsConfig, AlertNodeCpuHigh, AlertGuestDown,
  AlertBackupStale, AlertDatastoreFull, Config,
}
use glint.Alerter.Config.{
  AlertConfig, ThresholdAlert, GuestAlert, BackupAlert, default_alert_config,
}

-- A severity that the configuration leaves empty stays the default's.
unfoldable pub severity_or : Str → Str → Str
severity_or given default = if is_empty given then default else given

-- The provider of an entry; an entry of another type has none.
unfoldable pub build_provider : NotificationConfig → Option Provider
build_provider n =
    if str_eq n.kind (str "ntfy")
    then some (new_ntfy n.url n.topic)
    else if str_eq n.kind (str "webhook")
    then some (new_webhook n.url (if is_empty n.method then str "POST" else n.method) n.headers)
    else none

unfoldable pub build_providers : List NotificationConfig → List Provider
build_providers [] = []
build_providers (n ∷ ns) = cons_some (build_provider n) (build_providers ns)

-- The intervals of a collector: 0 stands for the default.
unfoldable pub pve_poll_interval : PveConfig → ℤ
pve_poll_interval c = if eqb_ℤ c.poll_interval (pos 0) then pos (15 * second) else c.poll_interval

unfoldable pub pve_disk_poll_interval : PveConfig → ℤ
pve_disk_poll_interval c =
    if eqb_ℤ c.disk_poll_interval (pos 0) then pos hour else c.disk_poll_interval

unfoldable pub pbs_poll_interval : PbsConfig → ℤ
pbs_poll_interval c = if eqb_ℤ c.poll_interval (pos 0) then pos (5 * minute) else c.poll_interval

module _ {F : Type 0} where
  unfoldable pub set_cpu :
      Option (AlertNodeCpuHigh F) → Option (ThresholdAlert F) → Option (ThresholdAlert F)
  set_cpu (some a) (some rule) = some (record rule {
    threshold = a.threshold;
    duration = pos_part a.duration;
    severity = severity_or a.severity rule.severity;
  })
  set_cpu _ rule = rule

  unfoldable pub set_datastore :
      Option (AlertDatastoreFull F) → Option (ThresholdAlert F) → Option (ThresholdAlert F)
  set_datastore (some a) (some rule) =
      some
        (record rule { threshold = a.threshold; severity = severity_or a.severity rule.severity })
  set_datastore _ rule = rule

unfoldable pub set_guest : Option AlertGuestDown → Option GuestAlert → Option GuestAlert
set_guest (some a) (some rule) = some (record rule {
  grace_period = pos_part a.grace_period;
  severity = severity_or a.severity rule.severity;
})
set_guest _ rule = rule

unfoldable pub set_backup : Option AlertBackupStale → Option BackupAlert → Option BackupAlert
set_backup (some a) (some rule) =
    some (record rule {
      max_age = pos_part a.max_age;
      severity = severity_or a.severity rule.severity;
    })
set_backup _ rule = rule

module _ (fl : Float) where
  open fl use {Carrier}

  -- The alerter's rules: the defaults, with what the configuration sets.
  unfoldable pub alert_config : AlertsConfig Carrier → AlertConfig Carrier
  alert_config a =
      let rules = default_alert_config fl in
      record rules {
        node_cpu_high = set_cpu a.node_cpu_high rules.node_cpu_high;
        guest_down = set_guest a.guest_down rules.guest_down;
        backup_stale = set_backup a.backup_stale rules.backup_stale;
        datastore_full = set_datastore a.datastore_full rules.datastore_full;
      }
