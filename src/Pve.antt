-- ===== src/Pve.antt =====
-- internal/collector/pve.go: one poll of a PVE instance, `Collect`. What the API answers, decoded, and the
-- order in which the pool's workers come to their locked sections are parameters; `none` is an error of the
-- API or of the decoding.
pub mod Parse
pub mod Workers
pub mod Sections
pub mod Schedule
pub mod Polled
pub mod Tests
use glint.Common.{
  ℕ, ◌/◌, Bool, true, false, ◌&&◌, Option, none, some, List, [], ◌∷◌, ◌++◌, map, if◌then◌else◌,
  fold,
}
use glint.Common.Int.{ℤ, pos, ltb_ℤ, leb_ℤ, ◌-ℤ◌}
use glint.Common.Text.{Str, str, str_eq, is_empty}
use glint.Common.Float.{Float}
use glint.Common.Dict.{Dict, insert, values, str_key, int_key}
use glint.Common.Time.{second}
use glint.Model.{Node, Guest, Disk, NodeSnapshot, GuestSnapshot}
use glint.Cache.{Cache, Heap, update_nodes, update_guests, update_disks, set_last_poll}
use glint.Cache.Isolation.{make_nodes}
use glint.Pve.Parse.{PveApi, online_nodes, detect_cluster}
use glint.Pve.Workers.{Event, Gathered, nothing, apply_event, work}

-- The fields of PVEConfig that `Collect` reads.
pub record PveSettings : Type 0 where
  pub name : Str
  pub is_cluster : Bool
  pub disk_poll_interval : ℤ

-- The fields of PVECollector that it keeps; `last_disk_poll` is `none` for the zero time.
pub record PveCollector : Type 0 where
  pub nodes : List Str
  pub cluster_id : Str
  pub last_disk_poll : Option ℕ

pub data StoreCall (F : Type 0) : Type 0 where
  insert_node_snapshot : NodeSnapshot F → StoreCall F
  insert_guest_snapshot : GuestSnapshot F → StoreCall F
  upsert_disk : Disk → StoreCall F
  insert_smart_snapshot : ℤ → Disk → StoreCall F

-- now.Sub(p.lastDiskPoll) >= DiskPollInterval; the zero time lies long ago.
unfoldable pub disks_due : Option ℕ → ℕ → ℤ → Bool
disks_due none now interval = true
disks_due (some last) now interval = leb_ℤ interval (pos now -ℤ pos last)

-- p.clusterID, after the detection where it is still empty.
unfoldable pub set_cluster_id : PveSettings → Option Str → Str → Str
set_cluster_id cfg detected old =
    if is_empty old
    then if cfg.is_cluster then (elim detected [ none ↦ cfg.name | some name ↦ name ]) else cfg.name
    else old

-- diskMap[d.WWN] = d
unfoldable pub by_wwn : List Disk → Dict Str Disk
by_wwn ds = fold (λ d. insert d.wwn d) ds []

module _ (fl : Float) where
  open fl use {Carrier, of_int, mul, div}

  unfoldable pub node_snapshot : ℤ → Str → Node Carrier → NodeSnapshot Carrier
  node_snapshot ts inst n =
      let (one, five, fifteen) = n.load_avg in
      record {
        timestamp = ts;
        instance_name = inst;
        node = n.name;
        cpu_pct = mul n.cpu (of_int (pos 100));
        mem_used = n.memory.used;
        mem_total = n.memory.total;
        swap_used = n.swap.used;
        swap_total = n.swap.total;
        root_used = n.root_fs.used;
        root_total = n.root_fs.total;
        load_1m = one;
        load_5m = five;
        load_15m = fifteen;
        io_wait = n.io_wait;
        uptime_secs = n.uptime;
        cpu_temp = n.temperature;
      }

  unfoldable pub guest_snapshot : ℤ → Str → Guest Carrier → GuestSnapshot Carrier
  guest_snapshot ts inst g = record {
    timestamp = ts;
    instance_name = inst;
    vmid = g.vmid;
    node = g.node;
    cluster_id = g.cluster_id;
    guest_type = g.guest_type;
    name = g.name;
    status = g.status;
    cpu_pct =
        if ltb_ℤ (pos 0) g.cpus
        then mul (div g.cpu (of_int g.cpus)) (of_int (pos 100))
        else of_int (pos 0);
    cpus = g.cpus;
    mem_used = g.mem;
    mem_total = g.max_mem;
    disk_used = g.disk;
    disk_total = g.max_disk;
    net_in = g.net_in;
    net_out = g.net_out;
  }

  unfoldable pub disk_calls : ℤ → List Disk → List (StoreCall Carrier)
  disk_calls ts [] = []
  disk_calls ts (d ∷ ds) = upsert_disk d ∷ insert_smart_snapshot ts d ∷ disk_calls ts ds

  unfoldable pub store_calls : ℤ → Str → Gathered Carrier → List (StoreCall Carrier)
  store_calls ts inst g =
      map (λ n. insert_node_snapshot (node_snapshot ts inst n)) (values g.node_map)
      ++ map (λ x. insert_guest_snapshot (guest_snapshot ts inst x)) (values g.guest_map)
      ++ disk_calls ts g.disk_list

  -- The cache and its heap after the poll has gathered its data.
  unfoldable pub publish :
      Str
      → Str
      → Bool
      → ℕ
      → Gathered Carrier
      → Cache Carrier × Heap Carrier
      → Cache Carrier × Heap Carrier
  publish inst cluster due now g (c, h) =
      let (refs, h') = make_nodes g.node_map h in
      let c1 = update_guests cluster g.guest_map (update_nodes inst refs c) in
      let c2 = if due then update_disks (by_wwn g.disk_list) c1 else c1 in
      (set_last_poll (str "pve:" ++ inst) now c2, h')

  -- What the workers' locked sections do, in the order in which they come to them.
  unfoldable pub gather : List (Event Carrier) → Gathered Carrier
  gather es = fold apply_event es nothing

  -- What the discovery changes; `none` is its error.
  unfoldable pub prepare : PveSettings → PveApi Carrier → PveCollector → Option PveCollector
  prepare cfg api p = elim api.nodes [
    | none ↦ none
    | some list ↦ some (record p {
      nodes = online_nodes list;
      cluster_id = set_cluster_id cfg (detect_cluster api.cluster_status) p.cluster_id;
    })
  ]

  -- The rest of the poll, from the collector that `prepare` leaves and the workers' events.
  unfoldable pub finish :
      PveSettings
      → ℕ
      → List (Event Carrier)
      → PveCollector
      → Cache Carrier × Heap Carrier
      → PveCollector × (Cache Carrier × Heap Carrier) × List (StoreCall Carrier)
  finish cfg now es p s =
      let due = disks_due p.last_disk_poll now cfg.disk_poll_interval in
      let g = gather es in
      (
        if due then record p { last_disk_poll = some now } else p,
        publish cfg.name p.cluster_id due now g s,
        store_calls (pos (now / second)) cfg.name g,
      )

  -- What the workers of a prepared poll bring, one list for each node.
  unfoldable pub workers :
      PveSettings → ℕ → PveApi Carrier → PveCollector → List (List (Event Carrier))
  workers cfg now api p =
      map
        (work fl api cfg.name p.cluster_id (disks_due p.last_disk_poll now cfg.disk_poll_interval))
        p.nodes
