-- ===== src/Dashboard/Lists.antt =====
-- templates/helpers.go: the flat lists of the dashboard, and its counts.
use glint.Common.{ℕ, ◌+◌, Bool, not, List, [], ◌∷◌, ◌++◌, filter, length, if◌then◌else◌}
use glint.Common.Int.{ℤ, pos, ltb_ℤ, eqb_ℤ}
use glint.Common.Text.{Str, str_eq, str_less, show_int}
use glint.Common.Dict.{Dict, values}
use glint.Common.Sorting.{sort_slice}
use glint.Model.{Backup, DatastoreStatus, Disk, Guest, Node, PbsTask}
use glint.Widget.{nested}
use glint.Dashboard.{backup_id_matches_vmid}

-- InstanceNode and InstanceDatastore, as pairs.
unfoldable pub with_instance : {V : Type 0} → Dict Str (Dict Str V) → List (Str × V)
with_instance [] = []
with_instance ((inst, m) ∷ rest) = pair_all inst (values m) ++ with_instance rest
  where
    pair_all : {V : Type 0} → Str → List V → List (Str × V)
    pair_all inst [] = []
    pair_all inst (v ∷ vs) = (inst, v) ∷ pair_all inst vs

-- The key of the order, instance/name.
unfoldable pub path_less : Str → Str → Str → Str → Bool
path_less i n j k = str_less (i ++ b'/' ∷ n) (j ++ b'/' ∷ k)

unfoldable pub sorted_node_list : {F : Type 0} → Dict Str (Dict Str (Node F)) → List (Str × Node F)
sorted_node_list nodes =
    sort_slice (λ x y. path_less x.0 x.1.name y.0 y.1.name) (with_instance nodes)

unfoldable pub sorted_datastore_list :
    {F : Type 0} → Dict Str (Dict Str (DatastoreStatus F)) → List (Str × DatastoreStatus F)
sorted_datastore_list datastores =
    sort_slice (λ x y. path_less x.0 x.1.name y.0 y.1.name) (with_instance datastores)

-- NodeCount and DatastoreCount.
unfoldable pub count_nested : {V : Type 0} → Dict Str (Dict Str V) → ℕ
count_nested [] = 0
count_nested ((inst, m) ∷ rest) = length m + count_nested rest

unfoldable pub sorted_guest_list : {F : Type 0} → Dict Str (Dict ℤ (Guest F)) → List (Guest F)
sorted_guest_list guests = sort_slice (λ x y. ltb_ℤ x.vmid y.vmid) (nested guests)

unfoldable pub sorted_disk_list : Dict Str Disk → List Disk
sorted_disk_list disks = sort_slice (λ x y. str_less x.dev_path y.dev_path) (values disks)

-- Newest first, then by backup ID, then by datastore.
unfoldable pub backup_less : Backup → Backup → Bool
backup_less x y =
    if not (eqb_ℤ x.backup_time y.backup_time)
    then ltb_ℤ y.backup_time x.backup_time
    else if not (str_eq x.backup_id y.backup_id)
    then str_less x.backup_id y.backup_id
    else str_less x.datastore y.datastore

unfoldable pub all_backups_sorted : Dict Str (Dict Str Backup) → List Backup
all_backups_sorted backups = sort_slice backup_less (nested backups)

unfoldable pub newer : Backup → Backup → Bool
newer x y = ltb_ℤ y.backup_time x.backup_time

unfoldable pub backups_for_guest : Dict Str (Dict Str Backup) → ℤ → List Backup
backups_for_guest backups vmid =
    sort_slice newer
      (filter (λ b. backup_id_matches_vmid b.backup_id (show_int vmid)) (nested backups))

unfoldable pub latest_backup_time : Dict Str (Dict Str Backup) → ℤ → ℤ
latest_backup_time backups vmid = elim (backups_for_guest backups vmid) [
  | [] ↦ pos 0
  | b ∷ rest ↦ b.backup_time
]

unfoldable pub all_tasks : Dict Str (List PbsTask) → List PbsTask
all_tasks [] = []
all_tasks ((inst, l) ∷ rest) = l ++ all_tasks rest

unfoldable pub all_tasks_sorted : Dict Str (List PbsTask) → List PbsTask
all_tasks_sorted tasks = sort_slice (λ x y. ltb_ℤ y.start_time x.start_time) (all_tasks tasks)
