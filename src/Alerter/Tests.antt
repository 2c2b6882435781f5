-- ===== src/Alerter/Tests.antt =====
-- Rounds of the alerter over a failing disk and a stopped guest.
use glint.Common.{ℕ, ◌*◌, ◌≡◌, ◌≢◌, refl, none, some, List, [], ◌∷◌, arith, All}
use glint.Common.Int.{ℤ, pos}
use glint.Common.Text.{Str, str, str_eq, show_int}
use glint.Common.Whole.{whole}
use glint.Common.Dict.{lookup, str_key}
use glint.Common.Time.{minute, hour}
use glint.Model.{Guest, Disk}
use glint.Cache.{Snapshot}
use glint.Alerter.Config.{AlertConfig, GuestAlert, ThresholdAlert, default_alert_config}
use glint.Alerter.State.{new_alerter}
use glint.Alerter.Notice.{key}
use glint.Alerter.Evaluate.{check_guest}
use glint.Alerter.Rounds.{Tick, run}
use glint.Alerter.Cooldown.{IsSpaced, run-IsSpaced, default_alert_config-CooldownsFit}
use glint.Alerter.Conditions.{long_grace_never_fires, guest_recovers}

abbrev pub guest : Str → Guest ℤ
guest status = record {
  instance_name = str "pve";
  node = str "n1";
  cluster_id = str "c";
  guest_type = str "lxc";
  vmid = pos 101;
  name = str "web";
  status = status;
  cpu = pos 0;
  cpus = pos 2;
  mem = pos 1;
  max_mem = pos 2;
  disk = pos 1;
  max_disk = pos 2;
  net_in = pos 0;
  net_out = pos 0;
  uptime = pos 0;
}

abbrev pub failing : Disk
failing = record {
  instance_name = str "pve";
  node = str "n1";
  wwn = str "w";
  dev_path = str "/dev/sda";
  model = str "m";
  serial = str "s";
  disk_type = str "hdd";
  protocol = str "ata";
  size_bytes = pos 1;
  health = str "FAILED";
  status = 1;
  temperature = none;
  power_on_hours = none;
  wearout = none;
  attributes = [];
  first_seen = 0;
  last_seen = 0;
}

abbrev pub troubled : Snapshot ℤ
troubled = record {
  nodes = [];
  guests = (str "c", (pos 101, guest (str "stopped")) ∷ []) ∷ [];
  disks = (str "w", failing) ∷ [];
  datastores = [];
  backups = [];
  tasks = [];
  last_poll = [];
}

abbrev pub at : ℕ → Tick ℤ
at now = record { now = now; since = λ t. pos 0; snap = troubled }

abbrev pub ticks : List (Tick ℤ)
ticks = at hour ∷ at (2 * hour) ∷ at (8 * hour) ∷ []

run-IsSpaced_example : IsSpaced (run whole (default_alert_config whole) ticks new_alerter).fired
run-IsSpaced_example =
    run-IsSpaced whole (default_alert_config whole) (default_alert_config-CooldownsFit whole) ticks
      (omega arith, (omega arith, (omega arith, tt)))

abbrev slow_guest : GuestAlert
slow_guest = record { grace_period = 7 * hour; severity = str "critical"; cooldown = hour }

abbrev slow : AlertConfig ℤ
slow = record {
  node_cpu_high = none;
  node_mem_high = none;
  guest_down = some slow_guest;
  backup_stale = none;
  disk_smart_failed = none;
  datastore_full = none;
}

long_grace_never_fires_example :
    All (λ f. f.notification.alert_type ≢ str "guest_down") (run whole slow ticks new_alerter).fired
long_grace_never_fires_example = long_grace_never_fires whole slow ticks (λ c e. ground arith)

guest_recovers_example :
    let a' =
      check_guest whole
        (2 * hour)
        slow_guest
        (str "c")
        (guest (str "stopped"))
        (check_guest whole hour slow_guest (str "c") (guest (str "running")) new_alerter) in
    (a'.fired ≡ new_alerter.fired)
    × (lookup (key "guest_down" (str "c") (show_int (pos 101))) a'.sustained ≡ some (2 * hour))
unfolding str str_eq
guest_recovers_example =
    guest_recovers whole hour (2 * hour) slow_guest (str "c") (guest (str "running"))
      (guest (str "stopped")) new_alerter refl refl refl

abbrev cpu : ThresholdAlert ℤ
cpu = record {
  threshold = pos 90;
  duration = 5 * minute;
  severity = str "warning";
  cooldown = hour;
}
