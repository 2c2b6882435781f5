-- ===== src/Config/Validate.antt =====
-- `Validate` of internal/config/config.go. `none` is the error nil. The answer of url.Parse is a
-- parameter.
use glint.Common.{ℕ, suc, String, Bool, not, Option, none, some, List, [], ◌∷◌, if◌then◌else◌, any}
use glint.Common.Int.{pos, ltb_ℤ, leb_ℤ}
use glint.Common.Text.{Str, str, str_eq, is_empty}
use glint.Common.Float.{Float}
use glint.Config.Types.{
  PveConfig, PbsConfig, NotificationConfig, AlertNodeCpuHigh, AlertGuestDown, AlertBackupStale,
  AlertDatastoreFull, AlertsConfig, Config,
}

-- What an error says: the entry of a list where there is one, and the field.
pub data ConfigError : Type 0 where
  no_pve : ConfigError
  bad_pve : ℕ → String → ConfigError
  bad_pbs : ℕ → String → ConfigError
  bad_notification : ℕ → String → ConfigError
  bad_setting : String → ConfigError
  bad_alert : String → ConfigError

-- The error, if the test that returns it passes; else what comes after it.
abbrev pub reject : Bool → ConfigError → Option ConfigError → Option ConfigError
reject bad e rest = if bad then some e else rest

-- The first error of a sequence of checks.
abbrev pub or_else : Option ConfigError → Option ConfigError → Option ConfigError
or_else (some e) rest = some e
or_else none rest = rest

module _ (url_ok : Str → Bool) where
  unfoldable pub check_pve : ℕ → PveConfig → Option ConfigError
  check_pve i c = reject (is_empty c.host) (bad_pve i "host") (
      reject (not (url_ok c.host)) (bad_pve i "host URL") (
        reject (is_empty c.token_id) (bad_pve i "token_id") (
          reject (is_empty c.token_secret) (bad_pve i "token_secret")
            (reject (is_empty c.name) (bad_pve i "name") none))))

unfoldable pub check_pbs : ℕ → PbsConfig → Option ConfigError
check_pbs i c = reject (is_empty c.host) (bad_pbs i "host") (
    reject (is_empty c.token_id) (bad_pbs i "token_id") (
      reject (is_empty c.token_secret) (bad_pbs i "token_secret")
        (reject (is_empty c.name) (bad_pbs i "name") none)))

unfoldable pub check_notification : ℕ → NotificationConfig → Option ConfigError
check_notification i n =
    if str_eq n.kind (str "ntfy")
    then reject (is_empty n.url) (bad_notification i "url")
        (reject (is_empty n.topic) (bad_notification i "topic") none)
    else if str_eq n.kind (str "webhook")
    then reject (is_empty n.url) (bad_notification i "url") none
    else some (bad_notification i "type")

-- A loop over a list with its indices.
unfoldable pub check_from :
    {A : Type 0} → (ℕ → A → Option ConfigError) → ℕ → List A → Option ConfigError
check_from f i [] = none
check_from f i (x ∷ xs) = or_else (f i x) (check_from f (suc i) xs)

unfoldable pub valid_level : Str → Bool
valid_level l = any (str_eq l) (str "debug" ∷ str "info" ∷ str "warn" ∷ str "error" ∷ [])

unfoldable pub valid_format : Str → Bool
valid_format f = any (str_eq f) (str "text" ∷ str "json" ∷ [])

module _ (fl : Float) where
  open fl use {Carrier, of_int, ge}

  -- a.Threshold <= 0
  unfoldable pub not_positive : Carrier → Bool
  not_positive t = ge (of_int (pos 0)) t

  unfoldable pub check_cpu_alert : Option (AlertNodeCpuHigh Carrier) → Option ConfigError
  check_cpu_alert none = none
  check_cpu_alert (some a) =
      reject (not_positive a.threshold) (bad_alert "node_cpu_high: threshold")
        (reject (leb_ℤ a.duration (pos 0)) (bad_alert "node_cpu_high: duration") none)

  unfoldable pub check_guest_alert : Option AlertGuestDown → Option ConfigError
  check_guest_alert none = none
  check_guest_alert (some a) =
      reject (leb_ℤ a.grace_period (pos 0)) (bad_alert "guest_down: grace_period") none

  unfoldable pub check_backup_alert : Option AlertBackupStale → Option ConfigError
  check_backup_alert none = none
  check_backup_alert (some a) =
      reject (leb_ℤ a.max_age (pos 0)) (bad_alert "backup_stale: max_age") none

  unfoldable pub check_datastore_alert : Option (AlertDatastoreFull Carrier) → Option ConfigError
  check_datastore_alert none = none
  check_datastore_alert (some a) =
      reject (not_positive a.threshold) (bad_alert "datastore_full: threshold") none

  unfoldable pub check_alerts : AlertsConfig Carrier → Option ConfigError
  check_alerts a = or_else (check_cpu_alert a.node_cpu_high) (
      or_else (check_guest_alert a.guest_down)
        (or_else (check_backup_alert a.backup_stale) (check_datastore_alert a.datastore_full)))

  unfoldable pub validate : (Str → Bool) → Config Carrier → Option ConfigError
  validate url_ok c = elim c.pve [
    | [] ↦ some no_pve
    | p ∷ ps ↦ or_else (check_from (check_pve url_ok) 0 (p ∷ ps)) (
        or_else (check_from check_pbs 0 c.pbs) (
          or_else (check_from check_notification 0 c.notifications) (
            reject (not (valid_level c.log_level)) (bad_setting "log_level") (
              reject (not (valid_format c.log_format)) (bad_setting "log_format") (
                reject (ltb_ℤ c.history_hours (pos 1)) (bad_setting "history_hours") (
                  reject (ltb_ℤ c.worker_pool_size (pos 1)) (bad_setting "worker_pool_size")
                    (check_alerts c.alerts)))))))
  ]
