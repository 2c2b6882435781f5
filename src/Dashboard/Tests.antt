-- ===== src/Dashboard/Tests.antt =====
-- The chips and counts on a few disks and guests.
use glint.Common.{◌+◌, ◌≡◌, ◌||◌, refl, arith, if◌then◌else◌}
use glint.Common.Text.{str, str_eq}
use glint.Widget.{count_disk, no_disks}
use glint.Widget.Tests.{disk}
use glint.Dashboard.{disk_status_class, count_guests_by_status}
use glint.Dashboard.Chips.{failed-check_disk}
use glint.Common.Text.{show_int}
use glint.Dashboard.Latest.{IsLatest, latest_backup_time-IsLatest}
use glint.Dashboard.Lists.{latest_backup_time}
use glint.Common.{none, [], ◌∷◌}
use glint.Common.Int.{ℤ, pos}
use glint.Common.Text.{Str}
use glint.Common.Dict.{Dict}
use glint.Model.{Backup}
use glint.Alerter.Evaluate.{smart_failed, scrutiny_raised}

failed-check_disk_example :
    (count_disk (disk 2) no_disks).failed + (count_disk (disk 2) no_disks).warned ≡ (
      if smart_failed (disk 2) || scrutiny_raised (disk 2)
      then no_disks.failed + no_disks.warned + 1
      else no_disks.failed + no_disks.warned)
unfolding str str_eq
failed-check_disk_example = failed-check_disk (disk 2) no_disks (omega arith) refl

abbrev backup : Str → ℤ → Backup
backup id time = record {
  pbs_instance = str "pbs";
  datastore = str "d";
  backup_type = str "ct";
  backup_id = id;
  backup_time = time;
  size_bytes = none;
  verified = none;
}

abbrev two : Dict Str (Dict Str Backup)
two =
    (
      str "pbs",
      (str "x", backup (str "101") (pos 5)) ∷ (str "y", backup (str "lxc-101") (pos 9)) ∷ [],
    )
    ∷ (str "pbs2", (str "z", backup (str "1101") (pos 20)) ∷ [])
    ∷ []

latest_backup_time-two : latest_backup_time two (pos 101) ≡ pos 9
unfolding latest_backup_time str glint.Dashboard.Lists.backups_for_guest
    glint.Common.Sorting.sort_slice glint.Common.Dict.values glint.Dashboard.backup_id_matches_vmid
    str_eq glint.Common.Text.show_int glint.Common.Text.show_nat glint.Common.Sorting.insert_ordered
    glint.Common.Text.has_suffix glint.Dashboard.Lists.newer
latest_backup_time-two = refl

latest_backup_time-IsLatest_example : IsLatest two (pos 101) (latest_backup_time two (pos 101))
latest_backup_time-IsLatest_example = latest_backup_time-IsLatest two (pos 101)
