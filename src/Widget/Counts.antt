-- ===== src/Widget/Counts.antt =====
-- What the counts of the widget add up to.
use glint.Common.{
  ℕ, ◌+◌, ◌≡◌, refl, ◌⊎◌, inl, true, List, [], ◌∷◌, arith, All, length, fold, any, fold-length,
  fold-keeps,
}
use glint.Common.Int.{pos, ◌≤ℤ◌, eqb_ℤ}
use glint.Common.Text.{Str}
use glint.Common.Float.{Float}
use glint.Common.Dict.{values}
use glint.Model.{Node, Disk, Backup}
use glint.Cache.{Snapshot}
use glint.Widget.{
  DiskStats, BackupStats, NodeLoop, nested, count_disk, count_backup, count_node, handle_widget,
  no_disks, no_nodes, no_backups,
}

length-values : (m : List (Str × Disk)) → length (values m) ≡ length m
unfolding values
length-values [] = refl
length-values (x ∷ m) = omega (arith, length-values m)

disk_sum : DiskStats → ℕ
disk_sum s = s.passed + s.failed + s.warned + s.unknown

disk-adds : (d : Disk) (s : DiskStats) → (count_disk d s).total ≡ s.total + 1
unfolding count_disk
disk-adds d s = ground arith

disk-sums :
    (d : Disk) (s : DiskStats)
    → disk_sum s ≡ s.total
    → disk_sum (count_disk d s) ≡ (count_disk d s).total
unfolding count_disk disk_sum
disk-sums d s h = ground arith

last-step :
    (b : Backup) (s : BackupStats)
    → (s.last_backup_time ≤ℤ (count_backup b s).last_backup_time)
      × (b.backup_time ≤ℤ (count_backup b s).last_backup_time)
unfolding count_backup
last-step b s = ground arith

last-grows :
    (bs : List Backup) (s : BackupStats)
    → (s.last_backup_time ≤ℤ (fold count_backup bs s).last_backup_time)
      × All (λ b. b.backup_time ≤ℤ (fold count_backup bs s).last_backup_time) bs
unfolding fold
last-grows [] s = (omega arith, tt)
last-grows (b ∷ bs) s =
    let h = last-grows bs (count_backup b s) in
    let p = last-step b s in (omega (arith, h.0, p.0), (omega (arith, h.0, p.1), h.1))

last-attained :
    (bs : List Backup) (s : BackupStats)
    → let t = (fold count_backup bs s).last_backup_time in
      (t ≡ s.last_backup_time) ⊎ (any (λ b. eqb_ℤ b.backup_time t) bs ≡ true)
unfolding fold count_backup
last-attained [] s = inl refl
last-attained (b ∷ bs) s = ground (arith, last-attained bs (count_backup b s))

module _ (fl : Float) where
  open fl use {Carrier}

  node-adds :
      (n : Node Carrier) (l : NodeLoop Carrier)
      → (count_node fl n l).stats.total ≡ l.stats.total + 1
  unfolding count_node
  node-adds n l = ground arith

  node-sums :
      (n : Node Carrier) (l : NodeLoop Carrier)
      → l.stats.online + l.stats.offline ≡ l.stats.total
      → (count_node fl n l).stats.online + (count_node fl n l).stats.offline
        ≡ (count_node fl n l).stats.total
  unfolding count_node
  node-sums n l h = ground arith

  -- The widget counts each disk of the snapshot once: the total is the number of disks, and the passed, the
  -- failed, the warned and the unknown add up to it.
  handle_widget-disks :
      (snap : Snapshot Carrier)
      → let d = (handle_widget fl snap).disks in
        (d.total ≡ length snap.disks) × (d.passed + d.failed + d.warned + d.unknown ≡ d.total)
  unfolding handle_widget disk_sum
  handle_widget-disks snap = (
    omega (
      arith,
      fold-length count_disk (λ s. s.total) disk-adds (values snap.disks) no_disks,
      length-values snap.disks,
    ),
    fold-keeps count_disk (λ s. disk_sum s ≡ s.total) disk-sums (values snap.disks) no_disks refl,
  )

  -- The total of the nodes is their number, and the online and the offline add up to it.
  handle_widget-nodes :
      (snap : Snapshot Carrier)
      → let n = (handle_widget fl snap).nodes in
        (n.total ≡ length (nested snap.nodes)) × (n.online + n.offline ≡ n.total)
  unfolding handle_widget
  handle_widget-nodes snap = (
    omega (
      arith,
      fold-length (count_node fl) (λ l. l.stats.total) node-adds (nested snap.nodes) (no_nodes fl),
    ),
    fold-keeps (count_node fl) (λ l. l.stats.online + l.stats.offline ≡ l.stats.total) node-sums
        (nested snap.nodes) (no_nodes fl) refl,
  )

  -- No backup of the snapshot is later than the time that the widget shows, and that time is the one of
  -- some backup, or 0.
  handle_widget-last_backup :
      (snap : Snapshot Carrier)
      → let t = (handle_widget fl snap).backups.last_backup_time in
        All (λ b. b.backup_time ≤ℤ t) (nested snap.backups)
        × ((t ≡ pos 0) ⊎ (any (λ b. eqb_ℤ b.backup_time t) (nested snap.backups) ≡ true))
  unfolding handle_widget
  handle_widget-last_backup snap = (
    (last-grows (nested snap.backups) no_backups).1,
    last-attained (nested snap.backups) no_backups,
  )
