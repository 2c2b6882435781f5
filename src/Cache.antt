-- ===== src/Cache.antt =====
-- internal/cache/cache.go: the cache of polled data. Of its pointers only those to nodes are written
-- through once they are shared, by `UpdateNodeTemperature`; so nodes stand on a heap and are known by
-- their addresses, and the other records, which nobody changes in place, are values. Each operation runs
-- under the cache's mutex, hence as one step.
pub mod Copies
pub mod Isolation
pub mod Polls
use glint.Common.{ℕ, ◌+◌, Option, none, some, List, [], ◌∷◌}
use glint.Common.Text.{Str}
use glint.Common.Int.{ℤ}
use glint.Common.Dict.{Dict, Eq, lookup, insert, copy_into, str_key, nat_key}
use glint.Model.{Node, Guest, Disk, Backup, PbsTask, DatastoreStatus}

pub record Heap (F : Type 0) : Type 0 where
  pub cells : Dict ℕ (Node F)
  pub next : ℕ

pub record Cache (F : Type 0) : Type 0 where
  pub nodes : Dict Str (Dict Str ℕ)
  pub guests : Dict Str (Dict ℤ (Guest F))
  pub disks : Dict Str Disk
  pub datastores : Dict Str (Dict Str (DatastoreStatus F))
  pub backups : Dict Str (Dict Str Backup)
  pub tasks : Dict Str (List PbsTask)
  pub last_poll : Dict Str ℕ

-- `CacheSnapshot` has the fields of `Cache`; this is what a reader finds in it behind the pointers.
pub record Snapshot (F : Type 0) : Type 0 where
  pub nodes : Dict Str (Dict Str (Node F))
  pub guests : Dict Str (Dict ℤ (Guest F))
  pub disks : Dict Str Disk
  pub datastores : Dict Str (Dict Str (DatastoreStatus F))
  pub backups : Dict Str (Dict Str Backup)
  pub tasks : Dict Str (List PbsTask)
  pub last_poll : Dict Str ℕ

module _ {F : Type 0} where
  unfoldable pub new : Cache F
  new = record {
    nodes = [];
    guests = [];
    disks = [];
    datastores = [];
    backups = [];
    tasks = [];
    last_poll = [];
  }

  -- `cp := *v; &cp`, or a node that a collector made.
  unfoldable pub alloc : Node F → Heap F → ℕ × Heap F
  alloc n h = (h.next, record { cells = (h.next, n) ∷ h.cells; next = h.next + 1 })

  -- The copies of the nodes of one instance; a Go pointer in the map is never dangling.
  unfoldable pub copy_nodes : Dict Str ℕ → Heap F → Dict Str ℕ × Heap F
  unfolding alloc
  copy_nodes [] h = ([], h)
  copy_nodes ((k, p) ∷ m) h = elim (lookup p h.cells) [
    | none ↦ copy_nodes m h
    | some n ↦ let (q, h') = alloc n h in let (m', h2) = copy_nodes m h' in ((k, q) ∷ m', h2)
  ]

  unfoldable pub copy_instances : Dict Str (Dict Str ℕ) → Heap F → Dict Str (Dict Str ℕ) × Heap F
  unfolding copy_nodes
  copy_instances [] h = ([], h)
  copy_instances ((i, m) ∷ rest) h =
      let (m', h') = copy_nodes m h in
      let (rest', h2) = copy_instances rest h' in ((i, m') ∷ rest', h2)

  -- The snapshot, as a cache of its own, and the heap with the copies.
  unfoldable pub snapshot : Cache F → Heap F → Cache F × Heap F
  unfolding copy_instances
  snapshot c h = let (nodes', h') = copy_instances c.nodes h in (record c { nodes = nodes' }, h')

  unfoldable pub update_nodes : Str → Dict Str ℕ → Cache F → Cache F
  update_nodes i m c = record c { nodes = insert i m c.nodes }

  unfoldable pub update_guests : Str → Dict ℤ (Guest F) → Cache F → Cache F
  update_guests i m c = record c { guests = insert i m c.guests }

  -- Disks that this poll did not list stay.
  unfoldable pub update_disks : Dict Str Disk → Cache F → Cache F
  update_disks m c = record c { disks = copy_into c.disks m }

  unfoldable pub update_datastores : Str → Dict Str (DatastoreStatus F) → Cache F → Cache F
  update_datastores i m c = record c { datastores = insert i m c.datastores }

  unfoldable pub update_backups : Str → Dict Str Backup → Cache F → Cache F
  update_backups i m c = record c { backups = insert i m c.backups }

  unfoldable pub update_tasks : Str → List PbsTask → Cache F → Cache F
  update_tasks i l c = record c { tasks = insert i l c.tasks }

  unfoldable pub set_last_poll : Str → ℕ → Cache F → Cache F
  set_last_poll k t c = record c { last_poll = insert k t c.last_poll }

  -- n.Temperature = &temp
  unfoldable pub write_temperature : ℕ → F → Heap F → Heap F
  write_temperature p t h = elim (lookup p h.cells) [
    | none ↦ h
    | some n ↦ record h { cells = insert p (record n { temperature = some t }) h.cells }
  ]

  unfoldable pub update_node_temperature : Str → Str → F → Cache F → Heap F → Heap F
  unfolding write_temperature
  update_node_temperature i n t c h = elim (lookup i c.nodes) [
    | none ↦ h
    | some m ↦ elim (lookup n m) [ none ↦ h | some p ↦ write_temperature p t h ]
  ]

  -- What a reader of the pointers finds.
  unfoldable pub view_nodes : Heap F → Dict Str ℕ → Dict Str (Node F)
  view_nodes h [] = []
  view_nodes h ((k, p) ∷ m) = elim (lookup p h.cells) [
    | none ↦ view_nodes h m
    | some n ↦ (k, n) ∷ view_nodes h m
  ]

  unfoldable pub view_instances : Heap F → Dict Str (Dict Str ℕ) → Dict Str (Dict Str (Node F))
  unfolding view_nodes
  view_instances h [] = []
  view_instances h ((i, m) ∷ rest) = (i, view_nodes h m) ∷ view_instances h rest

  unfoldable pub view : Heap F → Cache F → Snapshot F
  unfolding view_instances
  view h c = record {
    nodes = view_instances h c.nodes;
    guests = c.guests;
    disks = c.disks;
    datastores = c.datastores;
    backups = c.backups;
    tasks = c.tasks;
    last_poll = c.last_poll;
  }
