-- ===== src/Pve/Tests.antt =====
-- A poll of three nodes: one is offline, and the status of one cannot be read.
use glint.Common.{
  ◌≡◌, refl, true, false, Option, none, some, List, [], ◌∷◌, arith, All, any, if◌then◌else◌, ℕ,
}
use glint.Common.Int.{ℤ, pos, eqb_ℤ}
use glint.Common.Text.{str, str_eq}
use glint.Common.Dict.{lookup, str_key, int_key}
use glint.Common.Whole.{whole}
use glint.Model.{Guest}
use glint.Cache
use glint.Cache.{Cache, Heap, view}
use glint.Smart.Ata.{text}
use glint.Collector.{unreadable}
use glint.Pve.{PveSettings, PveCollector, gather, prepare, finish, workers}
use glint.Pve.Parse.{
  PveApi, RawNode, RawGuest, parse_node_status, collect_guests, guests_of_type, parse_guest,
}
use glint.Pve.Workers.{
  Event, disk_events, node_read, guests_read, work, Interleaved, no_worker, joined, none_left,
  first, second,
}
use glint.Pve.Schedule.{polled_node, polled_guests, some_guest, gather-guest_map}
use glint.Pve.Polled.{node_at, guests_at, shown, StandsOn, finish-nodes, finish-guests}

abbrev pub raw : RawNode ℤ
raw = record {
  cpu = pos 0;
  cpu_model = [];
  cores = pos 4;
  cpus = pos 8;
  sockets = pos 1;
  memory = record { used = pos 1; total = pos 2 };
  swap = record { used = pos 0; total = pos 0 };
  root_fs = record { used = pos 1; total = pos 2 };
  load_avg = some (text (str "1") ∷ []);
  uptime = pos 1;
  wait = pos 0;
  pve_version = [];
  k_version = [];
}

abbrev pub raw_guest : ℕ → RawGuest ℤ
raw_guest vmid = record {
  vmid = pos vmid;
  name = str "guest";
  status = str "running";
  cpu = pos 0;
  cpus = pos 1;
  mem = pos 1;
  max_mem = pos 2;
  disk = pos 1;
  max_disk = pos 2;
  net_in = pos 0;
  net_out = pos 0;
  uptime = pos 5;
}

abbrev pub api : PveApi ℤ
api = record {
  nodes = some (
      (str "a", str "online")
      ∷ (str "b", str "offline")
      ∷ (str "c", str "online")
      ∷ (str "d", str "online")
      ∷ []);
  cluster_status = none;
  node_status = λ name. if str_eq name (str "d") then none else some raw;
  guests = λ name kind.
      if str_eq kind (str "lxc")
      then some (raw_guest (if str_eq name (str "a") then 100 else 200) ∷ [])
      else none;
  disks = λ name. none;
  smart = λ name path kind. unreadable;
  disk_clock = λ name. 7;
  parse_float = λ s. pos 1;
}

abbrev pub cfg : PveSettings
cfg = record { name = str "pve"; is_cluster = false; disk_poll_interval = pos 9 }

abbrev pub ready : PveCollector
ready = record {
  nodes = str "a" ∷ str "c" ∷ str "d" ∷ [];
  cluster_id = str "pve";
  last_disk_poll = none;
}

prepare-ready :
    prepare whole cfg api (record { nodes = []; cluster_id = []; last_disk_poll = none })
    ≡ some ready
unfolding prepare glint.Pve.Parse.online_nodes str glint.Pve.set_cluster_id str_eq
prepare-ready = refl

abbrev pub events : List (Event ℤ)
events =
    node_read (str "a") (parse_node_status whole api.parse_float (str "pve") (str "a") raw)
    ∷ node_read (str "c") (parse_node_status whole api.parse_float (str "pve") (str "c") raw)
    ∷ guests_read (collect_guests api (str "pve") (str "pve") (str "c"))
    ∷ guests_read (collect_guests api (str "pve") (str "pve") (str "a"))
    ∷ []

pub order : Interleaved (workers whole cfg 3 api ready) events
unfolding workers work disk_events str_eq str
order =
    joined (joined (joined no_worker none_left) (first (first none_left)))
      (first (second (second (first none_left))))

-- The guest that a VMID names.
abbrev guest_of : ℤ → Option (Guest ℤ)
guest_of k =
    if eqb_ℤ k (pos 100)
    then some (parse_guest (str "pve") (str "a") (str "pve") (str "lxc") (raw_guest 100))
    else some (parse_guest (str "pve") (str "c") (str "pve") (str "lxc") (raw_guest 200))

gather-guest_map_example : lookup (pos 200) (gather whole events).guest_map ≡ (
    if some_guest whole api (str "pve") (str "pve") true ready.nodes (pos 200)
    then guest_of (pos 200)
    else none)
unfolding workers glint.Pve.disks_due polled_guests collect_guests guests_of_type parse_guest str
    str_eq
gather-guest_map_example =
    gather-guest_map whole api (str "pve") (str "pve") true ready.nodes events guest_of (pos 200)
      order ((refl, tt), ((refl, tt), (tt, tt)))

abbrev pub held : Heap ℤ
held = record {
  cells = (0, parse_node_status whole api.parse_float (str "pve") (str "b") raw) ∷ [];
  next = 1;
}

abbrev pub before : Cache ℤ
unfolding Cache.new
before = record Cache.new { nodes = (str "pve", (str "b", 0) ∷ []) ∷ [] }

finish-nodes_example :
    node_at (str "pve") (str "b") (shown (finish whole cfg 3 events ready (before, held)).1) ≡ (
      if str_eq cfg.name (str "pve")
      then if any (λ name. str_eq name (str "b")) ready.nodes
        then polled_node whole api cfg.name ready.cluster_id (str "b")
        else none
      else node_at (str "pve") (str "b") (view held before))
unfolding before
finish-nodes_example =
    finish-nodes whole api cfg 3 ready events before held (str "pve") (str "b") order
      ((omega arith, tt), tt)

finish-guests_example :
    All
      (λ e. StandsOn ready.nodes e.1)
      (guests_at ready.cluster_id (shown (finish whole cfg 3 events ready (before, held)).1))
finish-guests_example = finish-guests whole api cfg 3 ready events before held order
