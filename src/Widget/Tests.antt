-- ===== src/Widget/Tests.antt =====
-- The widget on a snapshot with two nodes, two guests and a backup.
use glint.Common.{ℕ, none, [], ◌∷◌}
use glint.Common.Int.{ℤ, pos}
use glint.Common.Text.{Str, str}
use glint.Model.{Node, Guest, Disk}
use glint.Cache.{Snapshot}

abbrev node : Str → Node ℤ
node status = record {
  instance_name = str "pve";
  name = str "n";
  status = status;
  cpu = pos 1;
  cpu_info = record { model = []; cores = pos 4; threads = pos 8; sockets = pos 1 };
  memory = record { used = pos 1; total = pos 2 };
  swap = record { used = pos 0; total = pos 0 };
  root_fs = record { used = pos 1; total = pos 2 };
  load_avg = (pos 0, pos 0, pos 0);
  uptime = pos 1;
  io_wait = pos 0;
  pve_version = [];
  kernel_ver = [];
  temperature = none;
}

abbrev pub disk : ℕ → Disk
disk status = record {
  instance_name = str "pve";
  node = str "n1";
  wwn = str "w";
  dev_path = str "/dev/sda";
  model = str "m";
  serial = str "s";
  disk_type = str "hdd";
  protocol = str "ata";
  size_bytes = pos 1;
  health = str "PASSED";
  status = status;
  temperature = none;
  power_on_hours = none;
  wearout = none;
  attributes = [];
  first_seen = 0;
  last_seen = 0;
}

abbrev pub guest : Str → Guest ℤ
guest status = record {
  instance_name = str "pve";
  node = str "n1";
  cluster_id = str "c";
  guest_type = str "lxc";
  vmid = pos 101;
  name = str "web";
  status = status;
  cpu = pos 0;
  cpus = pos 2;
  mem = pos 1;
  max_mem = pos 2;
  disk = pos 1;
  max_disk = pos 2;
  net_in = pos 0;
  net_out = pos 0;
  uptime = pos 0;
}

abbrev pub seen : Snapshot ℤ
seen = record {
  nodes = (str "pve", (str "n1", node (str "online")) ∷ (str "n2", node (str "offline")) ∷ []) ∷ [];
  guests = (str "c", (pos 101, guest (str "stopped")) ∷ (pos 102, guest (str "running")) ∷ []) ∷ [];
  disks = (str "w", disk 2) ∷ (str "v", disk 4) ∷ [];
  datastores = [];
  backups =
      (
        str "pbs",
        (
          str "k",
          record {
            pbs_instance = str "pbs";
            datastore = str "d";
            backup_type = str "ct";
            backup_id = str "101";
            backup_time = pos 77;
            size_bytes = none;
            verified = none;
          },
        )
            ∷ [],
      )
      ∷ [];
  tasks = [];
  last_poll = [];
}
