-- ===== src/Dashboard.antt =====
-- templates/helpers.go: the chips, bars and texts of the dashboard.
pub mod Chips
pub mod Lists
pub mod Texts
pub mod Latest
pub mod Bytes
pub mod Tests
use glint.Common.{
  ℕ, ◌+◌, Bool, ◌||◌, Option, none, some, List, [], ◌∷◌, ◌++◌, if◌then◌else◌, fold, length,
}
use glint.Common.Int.{ℤ, pos, negsuc, ◌-ℤ◌}
use glint.Common.Text.{Str, str, str_eq, has_suffix, has_prefix, is_empty, show_int}
use glint.Common.Float.{Float}
use glint.Common.Dict.{Dict, values}
use glint.Model.{
  Guest, Backup, PbsTask, status_failed_smart, status_warn_scrutiny, status_failed_scrutiny,
  status_unknown, status_internal_error,
}
use glint.Smart.Flags.{has_flag}
use glint.Widget.{nested}

unfoldable pub disk_status_class : ℕ → Str
disk_status_class status =
    if has_flag status status_failed_smart || has_flag status status_failed_scrutiny
    then str "chip-crit"
    else if has_flag status status_warn_scrutiny
    then str "chip-warn"
    else if has_flag status status_unknown
    then str "chip-unk"
    else if has_flag status status_internal_error
    then str "chip-warn"
    else str "chip-ok"

unfoldable pub guest_status_class : Str → Str
guest_status_class status =
    if str_eq status (str "running")
    then str "chip-ok"
    else if str_eq status (str "stopped")
    then str "chip-crit"
    else str "chip-warn"

unfoldable pub task_status_class : Str → Str
task_status_class status =
    if str_eq status (str "OK") || is_empty status
    then str "chip-ok"
    else if has_prefix status (str "Error")
    then str "chip-crit"
    else str "chip-warn"

-- (running, stopped)
unfoldable pub count_by_status : {F : Type 0} → Guest F → ℕ × ℕ → ℕ × ℕ
count_by_status g (running, stopped) =
    if str_eq g.status (str "running") then (running + 1, stopped) else (running, stopped + 1)

unfoldable pub count_guests_by_status : {F : Type 0} → Dict Str (Dict ℤ (Guest F)) → ℕ × ℕ
count_guests_by_status guests = fold count_by_status (nested guests) (0, 0)

unfoldable pub backup_id_matches_vmid : Str → Str → Bool
backup_id_matches_vmid backup_id vmid =
    str_eq backup_id vmid || has_suffix backup_id (str "-" ++ vmid)

unfoldable pub task_duration_seconds : PbsTask → ℤ
task_duration_seconds t = elim t.end_time [ none ↦ negsuc 0 | some e ↦ e -ℤ t.start_time ]

unfoldable pub int_ptr_sort_value : Option ℤ → Str
int_ptr_sort_value none = str "-1"
int_ptr_sort_value (some p) = show_int p

module _ (fl : Float) where
  open fl use {Carrier, of_int, ge, gt}

  unfoldable pub progress_bar_width : Carrier → Carrier
  progress_bar_width pct =
      if gt pct (of_int (pos 100))
      then of_int (pos 100)
      else if gt (of_int (pos 0)) pct
      then of_int (pos 0)
      else pct

  unfoldable pub progress_bar_class : Carrier → Str
  progress_bar_class pct =
      if ge pct (of_int (pos 90))
      then str "bar-crit"
      else if ge pct (of_int (pos 75))
      then str "bar-warn"
      else str "bar-ok"
