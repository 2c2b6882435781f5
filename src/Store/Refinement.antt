-- ===== src/Store/Refinement.antt =====
-- The operations of the store (internal/store) against the contents of Store.Spec.
use glint.Common.{
  ℕ, ◌≡◌, refl, sym, ap, ◌∙◌, Bool, true, false, not, Option, none, some, List, [], ◌∷◌, ◌++◌,
  arith, filter, fold, if◌then◌else◌, inl, inr, Option-cases,
}
use glint.Common.Int.{ℤ, ltb_ℤ}
use glint.Common.Text.{Str, str}
use glint.Common.Dict.{Eq, str_key, int_key, pair_key, kept}
use glint.Model.{Backup, Disk, SmartAttribute}
use glint.Store.Sql.{Log, Table}
use glint.Store.Rows.{
  Database, DiskRow, disk_row, smart_row, backup_row, datastore_row, pve_instance_row, merge_disk,
  merged, verified_column,
}
use glint.Store.Pruner.{cutoff, prune, prune_table}
use glint.Store.{
  Store, exec, insert_alert, insert_backup_snapshot, insert_datastore_snapshot,
  insert_guest_snapshot, insert_node_snapshot, insert_smart_snapshot, upsert_disk,
  upsert_pbs_instance, upsert_pve_instance,
}
use glint.Store.Spec.{
  Contents, Op, alert_stored, backup_kept, disk_kept, backup_stored, change, datastore_stored,
  disk_stored, guest_stored, keep, node_stored, pbs_instance_stored, pruned, put,
  pve_instance_stored, recent, smart_stored,
}

module _ {K R : Type 0} {e : Eq K} {key : R → K} (t : Table K R e key) where
  -- The table holds the rows that a function gives.
  abbrev pub Reads : t.Rows → (K → Option R) → Type 0
  Reads rows m = (k : K) → t.find k rows ≡ m k

  replace-Reads :
      (r : R) (rows : t.Rows) (m : K → Option R)
      → Reads rows m
      → Reads (t.replace r rows) (put e (key r) r m)
  replace-Reads r rows m h k = ground (arith, t.find-replace k r rows, h k)

  prune-Reads :
      (b : Bool) (p q : R → Bool) (rows : t.Rows) (m : K → Option R)
      → ((r : R) → not (p r) ≡ q r)
      → Reads rows m
      → Reads (prune_table b (t.delete p rows) rows) (keep b q m)
  unfolding prune_table
  prune-Reads false p q rows m f h k = h k
  prune-Reads true p q rows m f h k = from (t.find k rows) refl
    where
      from : (o : Option R) → t.find k rows ≡ o → t.find k (t.delete p rows) ≡ kept q (m k)
      from none eq = ground (arith, t.find-delete p k rows, h k, eq)
      from (some r) eq = ground (arith, t.find-delete p k rows, h k, eq, f r)

-- What is not too old is recent.
not_old : (now old : ℕ) (ts : ℤ) → not (ltb_ℤ ts (cutoff now old)) ≡ recent now old ts
unfolding cutoff
not_old now old ts = ground arith

filter-not_old :
    {R : Type 0} (ts : R → ℤ) (now old : ℕ) (l : List R)
    → filter (λ r. not (ltb_ℤ (ts r) (cutoff now old))) l ≡ filter (λ r. recent now old (ts r)) l
filter-not_old ts now old [] = refl
filter-not_old ts now old (x ∷ l) =
    ground (arith, filter-not_old ts now old l, not_old now old (ts x))

prune-entries :
    {R : Type 0} (t : Log R) (b : Bool) (ts : R → ℤ) (now old : ℕ) (rows : t.Rows) (l : List R)
    → t.entries rows ≡ l
    → t.entries (prune_table b (t.delete (λ r. ltb_ℤ (ts r) (cutoff now old)) rows) rows)
      ≡ (if b then filter (λ r. recent now old (ts r)) l else l)
unfolding prune_table
prune-entries t false ts now old rows l h = h
prune-entries t true ts now old rows l h =
    t.entries-delete (λ r. ltb_ℤ (ts r) (cutoff now old)) rows
    ∙ filter-not_old ts now old (t.entries rows)
    ∙ ap (λ x. filter (λ r. recent now old (ts r)) x) h

module _ {F : Type 0} (d : Database F) where
  -- The tables hold the contents.
  abbrev pub Holds : Store d → Contents F → Type 0
  Holds s c =
      Reads d.pve_instances s.pve_instances c.pve_instances
      × Reads d.pbs_instances s.pbs_instances c.pbs_instances
      × Reads d.disks s.disks c.disks
      × Reads d.node_snapshots s.node_snapshots c.node_snapshots
      × Reads d.guest_snapshots s.guest_snapshots c.guest_snapshots
      × Reads d.smart_snapshots s.smart_snapshots c.smart_snapshots
      × Reads d.backup_snapshots s.backup_snapshots c.backup_snapshots
      × Reads d.datastore_snapshots s.datastore_snapshots c.datastore_snapshots
      × (d.alert_log.entries s.alert_log ≡ c.alert_log)

module _ {F : Type 0} (d : Database F) (marshal : List SmartAttribute → Option Str) where
  -- The operation on the tables.
  unfoldable pub perform : Op F → Store d → Store d
  perform (node_stored b r) s = (insert_node_snapshot d b r s).1
  perform (guest_stored b r) s = (insert_guest_snapshot d b r s).1
  perform (smart_stored b ts x) s = (insert_smart_snapshot d marshal b ts x s).1
  perform (backup_stored b ts x) s = (insert_backup_snapshot d b ts x s).1
  perform (datastore_stored b ts x) s = (insert_datastore_snapshot d b ts x s).1
  perform (alert_stored b r) s = (insert_alert d b r s).1
  perform (disk_stored b now x) s = (upsert_disk d b now x s).1
  perform (pve_instance_stored b name host cluster id) s =
      (upsert_pve_instance d b name host cluster id s).1
  perform (pbs_instance_stored b name host) s = (upsert_pbs_instance d b name host s).1
  perform (pruned b old now) s = prune d b old now s

  smart_stored-Holds :
      (carried : Bool) (ts : ℤ) (y : Disk) (s : Store d) (c : Contents F)
      → Holds d s c
      → Holds d
          (perform (smart_stored carried ts y) s)
          (change marshal (smart_stored carried ts y) c)
  unfolding perform change exec insert_smart_snapshot smart_row
  smart_stored-Holds false ts y s c h = elim (Option-cases (marshal y.attributes)) [
    | inl e ↦ rw (e, perform, change, insert_smart_snapshot) h
    | inr (j, e) ↦ rw (e, perform, change, insert_smart_snapshot) h
  ]
  smart_stored-Holds true ts y s c (p, q, x, n, g, m, b, t, a) =
      elim (Option-cases (marshal y.attributes)) [
        | inl e ↦ rw (e, perform, change, insert_smart_snapshot) (p, q, x, n, g, m, b, t, a)
        | inr (j, e) ↦
            rw (e, perform, change, insert_smart_snapshot)
              (
                p,
                q,
                x,
                n,
                g,
                replace-Reads d.smart_snapshots (smart_row ts y j) s.smart_snapshots
                    c.smart_snapshots m,
                b,
                t,
                a,
              )
      ]

  backup_row_lem : (ts : ℤ) (y : Backup) → backup_row ts y ≡ backup_kept ts y
  unfolding backup_row verified_column
  backup_row_lem ts y = elim (Option-cases y.verified) [
    | inl e ↦ rw e refl
    | inr (true, e) ↦ rw e refl
    | inr (false, e) ↦ rw e refl
  ]

  upserted-Reads :
      (now : ℤ) (y : Disk) (rows : d.disks.Rows) (m : Str → Option DiskRow)
      → Reads d.disks rows m
      → Reads d.disks
          (d.disks.replace (merged (d.disks.find y.wwn rows) (disk_row now y)) rows)
          (put str_key y.wwn (disk_kept (m y.wwn) now y) m)
  unfolding merged merge_disk disk_row
  upserted-Reads now y rows m h k = from (d.disks.find y.wwn rows) refl
    where
      from :
          (o : Option DiskRow)
          → d.disks.find y.wwn rows ≡ o
          → d.disks.find k
              (d.disks.replace (merged (d.disks.find y.wwn rows) (disk_row now y)) rows)
            ≡ put str_key y.wwn (disk_kept (m y.wwn) now y) m k
      from none e = rw (e, sym (h y.wwn) ∙ e) (replace-Reads d.disks (disk_row now y) rows m h k)
      from (some old) e =
          rw (e, sym (h y.wwn) ∙ e, sym (d.disks.key-find y.wwn rows old e))
            (replace-Reads d.disks (merge_disk old (disk_row now y)) rows m h k)

  pub change-Holds :
      (o : Op F) (s : Store d) (c : Contents F)
      → Holds d s c
      → Holds d (perform o s) (change marshal o c)
  unfolding perform change exec insert_node_snapshot insert_guest_snapshot insert_smart_snapshot
      insert_backup_snapshot insert_datastore_snapshot insert_alert upsert_disk upsert_pve_instance
      upsert_pbs_instance prune smart_row backup_row datastore_row pve_instance_row disk_row
      merge_disk
  change-Holds (node_stored false r) s c h = h
  change-Holds (node_stored true r) s c (p, q, x, n, g, m, b, t, a) =
      (p, q, x, replace-Reads d.node_snapshots r s.node_snapshots c.node_snapshots n, g, m, b, t, a)
  change-Holds (guest_stored false r) s c h = h
  change-Holds (guest_stored true r) s c (p, q, x, n, g, m, b, t, a) = (
    p,
    q,
    x,
    n,
    replace-Reads d.guest_snapshots r s.guest_snapshots c.guest_snapshots g,
    m,
    b,
    t,
    a,
  )
  change-Holds (backup_stored false ts y) s c h = h
  change-Holds (backup_stored true ts y) s c (p, q, x, n, g, m, b, t, a) = (
    p,
    q,
    x,
    n,
    g,
    m,
    rw (← (backup_row_lem ts y)) (
        replace-Reads d.backup_snapshots (backup_row ts y) s.backup_snapshots c.backup_snapshots b),
    t,
    a,
  )
  change-Holds (datastore_stored false ts y) s c h = h
  change-Holds (datastore_stored true ts y) s c (p, q, x, n, g, m, b, t, a) = (
    p,
    q,
    x,
    n,
    g,
    m,
    b,
    replace-Reads d.datastore_snapshots (datastore_row ts y) s.datastore_snapshots
        c.datastore_snapshots t,
    a,
  )
  change-Holds (alert_stored false r) s c h = h
  change-Holds (alert_stored true r) s c (p, q, x, n, g, m, b, t, a) =
      (p, q, x, n, g, m, b, t, d.alert_log.entries-append r s.alert_log ∙ ap (λ l. l ++ r ∷ []) a)
  change-Holds (pve_instance_stored false name host cluster id) s c h = h
  change-Holds (pve_instance_stored true name host cluster id) s c (p, q, x, n, g, m, b, t, a) = (
    replace-Reads d.pve_instances (pve_instance_row name host cluster id) s.pve_instances
        c.pve_instances p,
    q,
    x,
    n,
    g,
    m,
    b,
    t,
    a,
  )
  change-Holds (pbs_instance_stored false name host) s c h = h
  change-Holds (pbs_instance_stored true name host) s c (p, q, x, n, g, m, b, t, a) = (
    p,
    replace-Reads d.pbs_instances (record { name = name; host = host }) s.pbs_instances
        c.pbs_instances q,
    x,
    n,
    g,
    m,
    b,
    t,
    a,
  )
  change-Holds (smart_stored carried ts y) s c h = smart_stored-Holds carried ts y s c h
  change-Holds (disk_stored false now y) s c h = h
  change-Holds (disk_stored true now y) s c (p, q, x, n, g, m, b, t, a) =
      (p, q, upserted-Reads now y s.disks c.disks x, n, g, m, b, t, a)
  change-Holds (pruned carried old now) s c (p, q, x, n, g, m, b, t, a) = (
    p,
    q,
    x,
    prune-Reads d.node_snapshots (carried (str "node_snapshots")) _ _ s.node_snapshots
        c.node_snapshots (λ r. not_old now old.node_snapshots r.timestamp) n,
    prune-Reads d.guest_snapshots (carried (str "guest_snapshots")) _ _ s.guest_snapshots
        c.guest_snapshots (λ r. not_old now old.guest_snapshots r.timestamp) g,
    prune-Reads d.smart_snapshots (carried (str "smart_snapshots")) _ _ s.smart_snapshots
        c.smart_snapshots (λ r. not_old now old.smart_snapshots r.timestamp) m,
    prune-Reads d.backup_snapshots (carried (str "backup_snapshots")) _ _ s.backup_snapshots
        c.backup_snapshots (λ r. not_old now old.backup_snapshots r.timestamp) b,
    prune-Reads d.datastore_snapshots (carried (str "datastore_snapshots")) _ _
        s.datastore_snapshots c.datastore_snapshots
        (λ r. not_old now old.datastore_snapshots r.timestamp) t,
    prune-entries d.alert_log (carried (str "alert_log")) (λ r. r.timestamp) now old.alert_log
        s.alert_log c.alert_log a,
  )

  -- A run of the store's operations.
  unfoldable pub run : List (Op F) → Store d → Store d
  run ops s = fold perform ops s

  -- Where the tables hold some contents, after any sequence of operations, each of them carried out by the
  -- database or refused, they hold the contents that the same sequence makes of them when every table is no more
  -- than a function from keys to rows: storing replaces the row of its key, a disk's first_seen, type, protocol and
  -- size excepted, and a prune drops from each table what is older than the table's own retention period.
  pub run-Holds :
      (ops : List (Op F)) (s : Store d) (c : Contents F)
      → Holds d s c
      → Holds d (run ops s) (fold (change marshal) ops c)
  unfolding run fold
  run-Holds [] s c h = h
  run-Holds (o ∷ ops) s c h =
      run-Holds ops (perform o s) (change marshal o c) (change-Holds o s c h)
