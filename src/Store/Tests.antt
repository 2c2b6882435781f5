-- ===== src/Store/Tests.antt =====
-- A store in memory.
use glint.Common.{ℕ, ◌*◌, refl, true, false, none, List, [], ◌∷◌, fold}
use glint.Common.Int.{ℤ, pos}
use glint.Common.Text.{str}
use glint.Common.Dict.{int_key, pair_key, str_key}
use glint.Common.Time.{hour}
use glint.Model.{NodeSnapshot}
use glint.Store.Rows.{Database, backup_row_key, datastore_key, guest_key, node_key, smart_key}
use glint.Store.{Store}
use glint.Store.Pruner.{default_retention}
use glint.Store.Memory.{memory, memory_log}
use glint.Store.Spec.{Contents, Op, change, node_stored, pruned}
use glint.Store.Refinement.{Holds, run, run-Holds}

unfoldable pub tables : Database ℤ
tables = record {
  pve_instances = memory str_key (λ r. r.name);
  pbs_instances = memory str_key (λ r. r.name);
  disks = memory str_key (λ r. r.wwn);
  node_snapshots = memory pair_key node_key;
  guest_snapshots = memory pair_key guest_key;
  smart_snapshots = memory pair_key smart_key;
  backup_snapshots = memory pair_key backup_row_key;
  datastore_snapshots = memory pair_key datastore_key;
  alert_log = memory_log;
}

-- A snapshot of the node `a`.
abbrev pub node_row : ℕ → NodeSnapshot ℤ
node_row ts = record {
  timestamp = pos ts;
  instance_name = str "pve";
  node = str "a";
  cpu_pct = pos 7;
  mem_used = pos 1;
  mem_total = pos 2;
  swap_used = pos 0;
  swap_total = pos 0;
  root_used = pos 1;
  root_total = pos 2;
  load_1m = pos 0;
  load_5m = pos 0;
  load_15m = pos 0;
  io_wait = pos 0;
  uptime_secs = pos 9;
  cpu_temp = none;
}

abbrev pub filled : List (NodeSnapshot ℤ) → Store tables
unfolding tables memory memory_log
filled rows = record {
  pve_instances = [];
  pbs_instances = [];
  disks = [];
  node_snapshots = rows;
  guest_snapshots = [];
  smart_snapshots = [];
  backup_snapshots = [];
  datastore_snapshots = [];
  alert_log = [];
}

abbrev empty : Contents ℤ
empty = record {
  pve_instances = λ k. none;
  pbs_instances = λ k. none;
  disks = λ k. none;
  node_snapshots = λ k. none;
  guest_snapshots = λ k. none;
  smart_snapshots = λ k. none;
  backup_snapshots = λ k. none;
  datastore_snapshots = λ k. none;
  alert_log = [];
}

filled-Holds : Holds tables (filled []) empty
unfolding tables memory memory_log filled
filled-Holds = (
  (λ k. refl),
  (λ k. refl),
  (λ k. refl),
  (λ k. refl),
  (λ k. refl),
  (λ k. refl),
  (λ k. refl),
  (λ k. refl),
  refl,
)

abbrev ops : List (Op ℤ)
ops =
    node_stored true (node_row 10)
    ∷ node_stored false (node_row 20)
    ∷ pruned (λ name. true) default_retention (49 * hour)
    ∷ []

run-Holds_example :
    Holds tables (run tables (λ l. none) ops (filled [])) (fold (change (λ l. none)) ops empty)
run-Holds_example = run-Holds tables (λ l. none) ops (filled []) empty filled-Holds
