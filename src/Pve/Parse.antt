-- ===== src/Pve/Parse.antt =====
-- The parsers of internal/collector/pve.go, on decoded JSON: discoverNodes, detectCluster,
-- parseNodeStatus, parseLoadAvg and collectGuestType.
use glint.Common.{ℕ, zero, suc, Option, none, some, List, [], ◌∷◌, ◌++◌, map, if◌then◌else◌}
use glint.Common.Int.{ℤ, pos}
use glint.Common.Text.{Str, str, str_eq}
use glint.Common.Float.{Float}
use glint.Model.{Node, Guest, MemUsage, DiskUsage}
use glint.Smart.Ata.{Any, float, text}
use glint.Collector.{SmartType, Reply}
use glint.Collector.Disks.{RawDisk}

-- A decoded node status. `load_avg` is `none` where the value is no list.
pub record RawNode (F : Type 0) : Type 0 where
  pub cpu : F
  pub cpu_model : Str
  pub cores : ℤ
  pub cpus : ℤ
  pub sockets : ℤ
  pub memory : MemUsage
  pub swap : MemUsage
  pub root_fs : DiskUsage
  pub load_avg : Option (List (Any F))
  pub uptime : ℤ
  pub wait : F
  pub pve_version : Str
  pub k_version : Str

pub record RawGuest (F : Type 0) : Type 0 where
  pub vmid : ℤ
  pub name : Str
  pub status : Str
  pub cpu : F
  pub cpus : ℤ
  pub mem : ℤ
  pub max_mem : ℤ
  pub disk : ℤ
  pub max_disk : ℤ
  pub net_in : ℤ
  pub net_out : ℤ
  pub uptime : ℤ

-- The endpoints; `disk_clock` is time.Now() in `collectDisks`, and `parse_float` the number that
-- strconv.ParseFloat returns, beside an error or not.
pub record PveApi (F : Type 0) : Type 0 where
  pub nodes : Option (List (Str × Str))
  pub cluster_status : Option (List (Str × Str))
  pub node_status : Str → Option (RawNode F)
  pub guests : (node guest_type : Str) → Option (List (RawGuest F))
  pub disks : Str → Option (List RawDisk)
  pub smart : (node dev_path : Str) → SmartType → Reply F
  pub disk_clock : Str → ℕ
  pub parse_float : Str → F

-- The names of the online nodes; the pairs are name and status.
unfoldable pub online_nodes : List (Str × Str) → List Str
online_nodes [] = []
online_nodes ((name, status) ∷ rest) =
    let names = online_nodes rest in if str_eq status (str "online") then name ∷ names else names

-- The pairs are type and name; `none` is the error "no cluster entry found".
unfoldable pub cluster_name : List (Str × Str) → Option Str
cluster_name [] = none
cluster_name ((kind, name) ∷ rest) =
    let other = cluster_name rest in if str_eq kind (str "cluster") then some name else other

unfoldable pub detect_cluster : Option (List (Str × Str)) → Option Str
detect_cluster none = none
detect_cluster (some entries) = cluster_name entries

module _ (fl : Float) where
  open fl use {Carrier, of_int}

  -- One element; one of another type leaves the 0 in place.
  unfoldable pub load_value : (Str → Carrier) → Any Carrier → Carrier
  load_value parse_float (float f) = f
  load_value parse_float (text s) = parse_float s
  load_value parse_float _ = of_int (pos 0)

  -- The element at a place, 0 beyond the end.
  unfoldable pub load_at : (Str → Carrier) → ℕ → List (Any Carrier) → Carrier
  load_at parse_float i [] = of_int (pos 0)
  load_at parse_float zero (v ∷ rest) = load_value parse_float v
  load_at parse_float (suc i) (v ∷ rest) = load_at parse_float i rest

  unfoldable pub parse_load_avg :
      (Str → Carrier) → Option (List (Any Carrier)) → Carrier × Carrier × Carrier
  parse_load_avg parse_float none = (of_int (pos 0), of_int (pos 0), of_int (pos 0))
  parse_load_avg parse_float (some l) =
      (load_at parse_float 0 l, load_at parse_float 1 l, load_at parse_float 2 l)

  unfoldable pub parse_node_status : (Str → Carrier) → Str → Str → RawNode Carrier → Node Carrier
  parse_node_status parse_float inst node raw = record {
    instance_name = inst;
    name = node;
    status = str "online";
    cpu = raw.cpu;
    cpu_info = record {
      model = raw.cpu_model;
      cores = raw.cores;
      threads = raw.cpus;
      sockets = raw.sockets;
    };
    memory = raw.memory;
    swap = raw.swap;
    root_fs = raw.root_fs;
    load_avg = parse_load_avg parse_float raw.load_avg;
    uptime = raw.uptime;
    io_wait = raw.wait;
    pve_version = raw.pve_version;
    kernel_ver = raw.k_version;
    temperature = none;
  }

unfoldable pub parse_guest : {F : Type 0} → Str → Str → Str → Str → RawGuest F → Guest F
parse_guest inst node cluster guest_type rg = record {
  instance_name = inst;
  node = node;
  cluster_id = cluster;
  guest_type = guest_type;
  vmid = rg.vmid;
  name = rg.name;
  status = rg.status;
  cpu = rg.cpu;
  cpus = rg.cpus;
  mem = rg.mem;
  max_mem = rg.max_mem;
  disk = rg.disk;
  max_disk = rg.max_disk;
  net_in = rg.net_in;
  net_out = rg.net_out;
  uptime = rg.uptime;
}

module _ {F : Type 0} (api : PveApi F) (inst cluster node : Str) where
  -- `collectGuestType`, with an error as no guests: `collectGuests` logs it and goes on.
  unfoldable pub guests_of_type : Str → List (Guest F)
  guests_of_type guest_type = elim (api.guests node guest_type) [
    | none ↦ []
    | some raws ↦ map (parse_guest inst node cluster guest_type) raws
  ]

  unfoldable pub collect_guests : List (Guest F)
  collect_guests = guests_of_type (str "lxc") ++ guests_of_type (str "qemu")
