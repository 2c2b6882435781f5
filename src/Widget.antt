-- ===== src/Widget.antt =====
-- `handleWidget` of internal/api/handlers.go: the summary that a dashboard widget asks for, of a snapshot
-- of the cache. Counters are natural numbers; a sum of bytes is taken to stay within int64.
pub mod Counts
pub mod Tests
use Prim.Native.Nat.{bit_or}
use glint.Common.{
  ℕ, suc, ◌+◌, Bool, Option, List, [], ◌∷◌, if◌then◌else◌, ◌==◌, concat_values, fold,
}
use glint.Common.Int.{ℤ, pos, ltb_ℤ, ◌+ℤ◌}
use glint.Common.Text.{Str, str, str_eq}
use glint.Common.Float.{Float}
use glint.Common.Dict.{Dict, values}
use glint.Model.{
  Node, Guest, Disk, Backup, status_passed, status_failed_smart, status_warn_scrutiny,
  status_failed_scrutiny,
}
use glint.Cache.{Snapshot}
use glint.Smart.Flags.{has_flag}

pub record NodeStats : Type 0 where
  pub total : ℕ
  pub online : ℕ
  pub offline : ℕ

pub record GuestStats : Type 0 where
  pub total : ℕ
  pub running : ℕ
  pub stopped : ℕ
  pub vms : ℕ
  pub lxc : ℕ

pub record MemStats (F : Type 0) : Type 0 where
  pub used_bytes : ℤ
  pub total_bytes : ℤ
  pub usage_pct : F

pub record DiskStats : Type 0 where
  pub total : ℕ
  pub passed : ℕ
  pub failed : ℕ
  pub warned : ℕ
  pub unknown : ℕ

pub record BackupStats : Type 0 where
  pub total : ℕ
  pub last_backup_time : ℤ

pub record WidgetResponse (F : Type 0) : Type 0 where
  pub nodes : NodeStats
  pub guests : GuestStats
  pub cpu_usage_pct : F
  pub memory : MemStats F
  pub disks : DiskStats
  pub backups : BackupStats

-- The zero values that the loops start from.
abbrev pub no_guests : GuestStats
no_guests = record { total = 0; running = 0; stopped = 0; vms = 0; lxc = 0 }

abbrev pub no_disks : DiskStats
no_disks = record { total = 0; passed = 0; failed = 0; warned = 0; unknown = 0 }

abbrev pub no_backups : BackupStats
no_backups = record { total = 0; last_backup_time = pos 0 }

-- The variables of the loop over the nodes.
pub record NodeLoop (F : Type 0) : Type 0 where
  pub stats : NodeStats
  pub cpu_sum : F
  pub cpu_count : ℕ
  pub used_bytes : ℤ
  pub total_bytes : ℤ

-- Two nested loops over a map of maps, as one over a list.
abbrev pub nested : {K L V : Type 0} → Dict K (Dict L V) → List V
nested = concat_values (λ x. values x.1)

unfoldable pub count_guest : {F : Type 0} → Guest F → GuestStats → GuestStats
count_guest g s = record {
  total = s.total + 1;
  running = if str_eq g.status (str "running") then s.running + 1 else s.running;
  stopped =
      if str_eq g.status (str "running")
      then s.stopped
      else if str_eq g.status (str "stopped")
      then s.stopped + 1
      else s.stopped;
  vms = if str_eq g.guest_type (str "qemu") then s.vms + 1 else s.vms;
  lxc =
      if str_eq g.guest_type (str "qemu")
      then s.lxc
      else if str_eq g.guest_type (str "lxc")
      then s.lxc + 1
      else s.lxc;
}

unfoldable pub count_disk : Disk → DiskStats → DiskStats
count_disk d s =
    let s' = record s { total = s.total + 1 } in
    if d.status == status_passed
    then record s' { passed = s.passed + 1 }
    else if has_flag d.status (bit_or status_failed_smart status_failed_scrutiny)
    then record s' { failed = s.failed + 1 }
    else if has_flag d.status status_warn_scrutiny
    then record s' { warned = s.warned + 1 }
    else record s' { unknown = s.unknown + 1 }

unfoldable pub count_backup : Backup → BackupStats → BackupStats
count_backup b s = record {
  total = s.total + 1;
  last_backup_time =
      if ltb_ℤ s.last_backup_time b.backup_time then b.backup_time else s.last_backup_time;
}

module _ (fl : Float) where
  open fl use {Carrier, of_int, add, mul, div}

  unfoldable pub count_node : Node Carrier → NodeLoop Carrier → NodeLoop Carrier
  count_node n l =
      if str_eq n.status (str "online")
      then record {
        stats = record l.stats { total = l.stats.total + 1; online = l.stats.online + 1 };
        cpu_sum = add l.cpu_sum (mul n.cpu (of_int (pos 100)));
        cpu_count = l.cpu_count + 1;
        used_bytes = l.used_bytes +ℤ n.memory.used;
        total_bytes = l.total_bytes +ℤ n.memory.total;
      }
      else record l {
        stats = record l.stats { total = l.stats.total + 1; offline = l.stats.offline + 1 };
      }

  abbrev pub no_nodes : NodeLoop Carrier
  no_nodes = record {
    stats = record { total = 0; online = 0; offline = 0 };
    cpu_sum = of_int (pos 0);
    cpu_count = 0;
    used_bytes = pos 0;
    total_bytes = pos 0;
  }

  unfoldable pub handle_widget : Snapshot Carrier → WidgetResponse Carrier
  handle_widget snap =
      let l = fold count_node (nested snap.nodes) no_nodes in
      record {
        nodes = l.stats;
        guests = fold count_guest (nested snap.guests) no_guests;
        cpu_usage_pct =
            if l.cpu_count == 0 then of_int (pos 0) else div l.cpu_sum (of_int (pos l.cpu_count));
        memory = record {
          used_bytes = l.used_bytes;
          total_bytes = l.total_bytes;
          usage_pct =
              if ltb_ℤ (pos 0) l.total_bytes
              then mul (div (of_int l.used_bytes) (of_int l.total_bytes)) (of_int (pos 100))
              else of_int (pos 0);
        };
        disks = fold count_disk (values snap.disks) no_disks;
        backups = fold count_backup (nested snap.backups) no_backups;
      }
