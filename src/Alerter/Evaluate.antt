-- ===== src/Alerter/Evaluate.antt =====
-- `evaluate` of internal/alerter/alerter.go: one round over all rules. The snapshot is what a reader finds
-- behind its pointers; `since t` is time.Since(time.Unix(t, 0)), in nanoseconds.
use glint.Common.{ℕ, String, Bool, ◌&&◌, ◌||◌, Option, none, some, [], ◌∷◌, ◌++◌, if◌then◌else◌}
use glint.Common.Int.{ℤ, pos, ltb_ℤ}
use glint.Common.Text.{Str, str, str_eq, show_int}
use glint.Common.Float.{Float}
use glint.Common.Dict.{Dict, lookup, values, str_key}
use glint.Common.Time.{hour}
use glint.Model.{
  Node, Guest, Disk, Backup, DatastoreStatus, Notification, status_failed_smart,
  status_warn_scrutiny, status_failed_scrutiny,
}
use glint.Cache.{Snapshot}
use glint.Smart.Flags.{has_flag}
use glint.Alerter.Config.{ThresholdAlert, GuestAlert, BackupAlert, SimpleAlert, AlertConfig}
use glint.Alerter.Notice.{for_each, concat, notice, key, if_set}
use glint.Alerter.State.{Alerter, fire, sustain, clear, cleanup, check_sustained_threshold}

-- disk.Status & flag != 0, and the two other tests on a disk.
unfoldable pub smart_failed : Disk → Bool
smart_failed d = str_eq d.health (str "FAILED") || has_flag d.status status_failed_smart

unfoldable pub scrutiny_raised : Disk → Bool
scrutiny_raised d =
    has_flag d.status status_warn_scrutiny || has_flag d.status status_failed_scrutiny

unfoldable pub check_disk : ℕ → SimpleAlert → Str × Disk → Alerter → Alerter
check_disk now cfg (wwn, d) a =
    let what =
      str "["
      ∷ d.instance_name
      ∷ str "/"
      ∷ d.node
      ∷ str "] "
      ∷ d.dev_path
      ∷ str " ("
      ∷ d.model
      ∷ [] in
    let metadata : Dict Str Str = (str "wwn", wwn) ∷ (str "model", d.model) ∷ [] in
    let failed =
      notice now "disk_smart_failed" cfg.severity
        (concat (str "Disk SMART Failed: " ∷ d.dev_path ∷ []))
        (concat (what ++ (str ") SMART health: " ∷ d.health ∷ []))) d.instance_name d.dev_path
        metadata in
    let raised =
      notice now "disk_scrutiny_warning" (str "warning")
        (concat (str "Disk Scrutiny Warning: " ∷ d.dev_path ∷ []))
        (concat (what ++ (str ") has elevated SMART risk indicators" ∷ []))) d.instance_name
        d.dev_path metadata in
    let a' =
      if smart_failed d
      then fire now (concat (str "disk_smart:" ∷ wwn ∷ [])) cfg.cooldown failed a
      else a in
    if scrutiny_raised d
    then fire now (concat (str "disk_scrutiny:" ∷ wwn ∷ [])) cfg.cooldown raised a'
    else a'

module _ (fl : Float) where
  open fl use {Carrier, of_int, ge, mul, div, show, hours}

  -- float64(a) / float64(b) * 100
  unfoldable pub percent : ℤ → ℤ → Carrier
  percent a b = mul (div (of_int a) (of_int b)) (of_int (pos 100))

  -- The notice on a node, of CPU or of memory.
  unfoldable pub node_notice :
      ℕ → String → String → String → Str → Str → Carrier → ThresholdAlert Carrier → Notification
  node_notice now alert_type titled said inst name value cfg =
      notice now alert_type cfg.severity (concat (str titled ∷ inst ∷ str "/" ∷ name ∷ []))
        (concat
          (str "[" ∷ inst ∷ str "/" ∷ name ∷ str said ∷ show value ∷ str "% for 5+ minutes" ∷ []))
        inst name ((str "value", show value) ∷ [])

  unfoldable pub check_cpu :
      ℕ → Option (ThresholdAlert Carrier) → Str → Node Carrier → Alerter → Alerter
  check_cpu now none inst node a = a
  check_cpu now (some cfg) inst node a =
      let value = mul node.cpu (of_int (pos 100)) in
      check_sustained_threshold fl now (key "node_cpu" inst node.name) value cfg
        (node_notice now "node_cpu_high" "Node CPU High: " "] CPU at " inst node.name value cfg) a

  unfoldable pub check_mem :
      ℕ → Option (ThresholdAlert Carrier) → Str → Node Carrier → Alerter → Alerter
  check_mem now none inst node a = a
  check_mem now (some cfg) inst node a =
      let value = percent node.memory.used node.memory.total in
      if ltb_ℤ (pos 0) node.memory.total
      then check_sustained_threshold fl now (key "node_mem" inst node.name) value cfg
          (node_notice now "node_mem_high" "Node Memory High: " "] Memory at " inst node.name value
            cfg)
          a
      else a

  unfoldable pub check_node : ℕ → AlertConfig Carrier → Str → Node Carrier → Alerter → Alerter
  unfolding check_cpu check_mem
  check_node now cfg inst node a =
      check_mem now cfg.node_mem_high inst node (check_cpu now cfg.node_cpu_high inst node a)

  unfoldable pub check_nodes :
      ℕ → AlertConfig Carrier → Str × Dict Str (Node Carrier) → Alerter → Alerter
  check_nodes now cfg (inst, nodes) = for_each (check_node now cfg inst) (values nodes)

  unfoldable pub check_guest : ℕ → GuestAlert → Str → Guest Carrier → Alerter → Alerter
  check_guest now cfg cluster g a =
      let k = key "guest_down" cluster (show_int g.vmid) in
      let down =
        notice now "guest_down" cfg.severity
          (concat (str "Guest Down: " ∷ g.name ∷ str " (" ∷ show_int g.vmid ∷ str ")" ∷ []))
          (concat (
            str "["
            ∷ g.instance_name
            ∷ str "] "
            ∷ g.name
            ∷ str " (ID "
            ∷ show_int g.vmid
            ∷ str ") is "
            ∷ g.status
            ∷ []))
          g.instance_name g.name ((str "vmid", show_int g.vmid) ∷ (str "status", g.status) ∷ []) in
      if str_eq g.status (str "running")
      then clear k a
      else sustain now k cfg.grace_period cfg.cooldown down (lookup k a.sustained) a

  unfoldable pub check_guests : ℕ → GuestAlert → Str × Dict ℤ (Guest Carrier) → Alerter → Alerter
  check_guests now cfg (cluster, guests) = for_each (check_guest now cfg cluster) (values guests)

  unfoldable pub check_backup : ℕ → (ℤ → ℤ) → BackupAlert → Str → Str × Backup → Alerter → Alerter
  check_backup now since cfg pbs (id, b) a =
      let age = since b.backup_time in
      let old = concat (show (hours age) ∷ str "h" ∷ []) in
      let stale =
        notice now "backup_stale" cfg.severity
          (concat
            (str "Backup Stale: " ∷ b.backup_type ∷ str "/" ∷ b.backup_id ∷ str " " ∷ pbs ∷ []))
          (concat (
            str "["
            ∷ pbs
            ∷ str "] "
            ∷ b.backup_type
            ∷ str "/"
            ∷ b.backup_id
            ∷ str " last backup "
            ∷ old
            ∷ str " ago"
            ∷ []))
          pbs b.backup_id ((str "age", old) ∷ (str "backup_type", b.backup_type) ∷ []) in
      if ltb_ℤ (pos cfg.max_age) age
      then fire now (key "backup_stale" pbs id) cfg.cooldown stale a
      else a

  unfoldable pub check_backups :
      ℕ → (ℤ → ℤ) → BackupAlert → Str × Dict Str Backup → Alerter → Alerter
  check_backups now since cfg (pbs, backups) = for_each (check_backup now since cfg pbs) backups

  unfoldable pub check_usage :
      ℕ
      → ThresholdAlert Carrier
      → Str
      → DatastoreStatus Carrier
      → Option ℤ
      → Option ℤ
      → Alerter
      → Alerter
  check_usage now cfg pbs ds (some total) (some used) a =
      let pct = percent used total in
      let full =
        notice now "datastore_full" cfg.severity
          (concat (str "Datastore Full: " ∷ pbs ∷ str "/" ∷ ds.name ∷ []))
          (concat (
            str "["
            ∷ pbs
            ∷ str "] Datastore "
            ∷ ds.name
            ∷ str " at "
            ∷ show pct
            ∷ str "% capacity"
            ∷ []))
          pbs ds.name ((str "usage_pct", show pct) ∷ []) in
      if ltb_ℤ (pos 0) total && ge pct cfg.threshold
      then fire now (key "ds_full" pbs ds.name) cfg.cooldown full a
      else a
  check_usage now cfg pbs ds _ _ a = a

  unfoldable pub check_offline : ℕ → Str → DatastoreStatus Carrier → Option Str → Alerter → Alerter
  check_offline now pbs ds none a = a
  check_offline now pbs ds (some error) a =
      fire now (key "ds_offline" pbs ds.name) hour
        (notice now "datastore_offline" (str "critical")
          (concat (str "Datastore Offline: " ∷ pbs ∷ str "/" ∷ ds.name ∷ []))
          (concat (str "[" ∷ pbs ∷ str "] Datastore " ∷ ds.name ∷ str " error: " ∷ error ∷ [])) pbs
          ds.name [])
        a

  unfoldable pub check_datastore :
      ℕ → ThresholdAlert Carrier → Str → DatastoreStatus Carrier → Alerter → Alerter
  unfolding check_usage check_offline
  check_datastore now cfg pbs ds a =
      check_offline now pbs ds ds.error (check_usage now cfg pbs ds ds.total_bytes ds.used_bytes a)

  unfoldable pub check_datastores :
      ℕ → ThresholdAlert Carrier → Str × Dict Str (DatastoreStatus Carrier) → Alerter → Alerter
  check_datastores now cfg (pbs, stores) = for_each (check_datastore now cfg pbs) (values stores)

  unfoldable pub evaluate : AlertConfig Carrier → ℕ → (ℤ → ℤ) → Snapshot Carrier → Alerter → Alerter
  unfolding if_set
  evaluate cfg now since snap a =
      let a1 = for_each (check_nodes now cfg) snap.nodes (cleanup now a) in
      let a2 = if_set (λ c. for_each (check_guests now c) snap.guests) cfg.guest_down a1 in
      let a3 =
        if_set (λ c. for_each (check_backups now since c) snap.backups) cfg.backup_stale a2 in
      let a4 = if_set (λ c. for_each (check_disk now c) snap.disks) cfg.disk_smart_failed a3 in
      if_set (λ c. for_each (check_datastores now c) snap.datastores) cfg.datastore_full a4
