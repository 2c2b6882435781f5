-- ===== src/Alerter/Steps.antt =====
-- A round of the alerter as a sequence of three kinds of step on its state.
use glint.Common.{
  ℕ, ◌+◌, ◌≡◌, refl, String, Bool, true, false, Option, none, some, List, [], ◌∷◌, if◌then◌else◌,
  leb,
}
use glint.Common.Int.{ℤ, pos, ltb_ℤ}
use glint.Common.Text.{Str, str}
use glint.Common.Float.{Float}
use glint.Common.Dict.{Dict, lookup, values, str_key}
use glint.Common.Time.{hour}
use glint.Model.{Node, Disk, Backup, DatastoreStatus, Notification}
use glint.Alerter.Config.{ThresholdAlert, BackupAlert, SimpleAlert, AlertConfig}
use glint.Alerter.State.{Alerter, fire, mark, clear, sustain, check_sustained_threshold}
use glint.Alerter.Notice.{for_each, notice, if_set}
use glint.Alerter.Evaluate.{
  smart_failed, scrutiny_raised, check_disk, check_cpu, check_mem, check_node, check_nodes,
  check_backup, check_backups, check_usage, check_offline, check_datastore, check_datastores,
  node_notice,
}

-- The steps of a round at `now`: to call `fire` with a cooldown and a notification that `Q` allows, to
-- note the start of a condition that has none, and to forget one.
pub data Step (Q : ℕ → Notification → Type 0) (now : ℕ) : Alerter → Alerter → Type 0 where
  fired :
      (k : Str) (c : ℕ) (n : Notification) (a : Alerter) → Q c n → Step Q now a (fire now k c n a)
  marked : (k : Str) (a : Alerter) → lookup k a.sustained ≡ none → Step Q now a (mark now k a)
  cleared : (k : Str) (a : Alerter) → Step Q now a (clear k a)

pub data Steps (Q : ℕ → Notification → Type 0) (now : ℕ) (a : Alerter) : Alerter → Type 0 where
  here : Steps Q now a a
  next : {b c : Alerter} → Steps Q now a b → Step Q now b c → Steps Q now a c

-- A notification of the given type.
abbrev pub HasType : String → Notification → Type 0
HasType t n = n.alert_type ≡ str t

module _ {Q : ℕ → Notification → Type 0} {now : ℕ} where
  pub Steps-trans : {a b c : Alerter} → Steps Q now a b → Steps Q now b c → Steps Q now a c
  Steps-trans r here = r
  Steps-trans r (next s t) = next (Steps-trans r s) t

  pub for_each-Steps {ℓ} :
      {A : Type ℓ} (f : A → Alerter → Alerter)
      → ((x : A) (a : Alerter) → Steps Q now a (f x a))
      → (xs : List A) (a : Alerter) → Steps Q now a (for_each f xs a)
  unfolding for_each
  for_each-Steps f h [] a = here
  for_each-Steps f h (x ∷ xs) a = Steps-trans (h x a) (for_each-Steps f h xs (f x a))

  pub if_set-Steps {ℓ} :
      {C : Type ℓ} (f : C → Alerter → Alerter) (o : Option C)
      → ((c : C) → o ≡ some c → (a : Alerter) → Steps Q now a (f c a))
      → (a : Alerter) → Steps Q now a (if_set f o a)
  unfolding if_set
  if_set-Steps f none h a = here
  if_set-Steps f (some c) h a = h c refl a

  pub if-Steps :
      (b : Bool) {a x y : Alerter}
      → Steps Q now a x
      → Steps Q now a y
      → Steps Q now a (if b then x else y)
  if-Steps true s t = s
  if-Steps false s t = t

  fire-Steps :
      (k : Str) (c : ℕ) (n : Notification) (a : Alerter) → Q c n → Steps Q now a (fire now k c n a)
  fire-Steps k c n a q = next here (fired k c n a q)

  pub sustain-Steps :
      (k : Str) (l c : ℕ) (n : Notification) (a : Alerter)
      → Q c n
      → Steps Q now a (sustain now k l c n (lookup k a.sustained) a)
  sustain-Steps k l c n a q = from (lookup k a.sustained) refl
    where
      from : (o : Option ℕ) → lookup k a.sustained ≡ o → Steps Q now a (sustain now k l c n o a)
      from none e = unfold sustain in next here (marked k a e)
      from (some first) e =
          unfold sustain in if-Steps (leb (first + l) now) (fire-Steps k c n a q) here

  pub check_disk-Steps :
      (cfg : SimpleAlert)
      → ((n : Notification) → HasType "disk_smart_failed" n → Q cfg.cooldown n)
      → ((n : Notification) → HasType "disk_scrutiny_warning" n → Q cfg.cooldown n)
      → (d : Str × Disk) (a : Alerter) → Steps Q now a (check_disk now cfg d a)
  unfolding check_disk notice
  check_disk-Steps cfg q q' (wwn, d) a =
      Steps-trans (if-Steps (smart_failed d) (fire-Steps _ cfg.cooldown _ a (q _ refl)) here)
        (if-Steps (scrutiny_raised d) (fire-Steps _ cfg.cooldown _ _ (q' _ refl)) here)

-- What the configured rules may send, but for the one on guests.
pub record Allows {F : Type 0} (Q : ℕ → Notification → Type 0) (cfg : AlertConfig F) : Type 0 where
  pub cpu :
      (c : ThresholdAlert F)
      → cfg.node_cpu_high ≡ some c
      → (n : Notification) → HasType "node_cpu_high" n
      → Q c.cooldown n
  pub mem :
      (c : ThresholdAlert F)
      → cfg.node_mem_high ≡ some c
      → (n : Notification) → HasType "node_mem_high" n
      → Q c.cooldown n
  pub backup :
      (c : BackupAlert)
      → cfg.backup_stale ≡ some c
      → (n : Notification) → HasType "backup_stale" n
      → Q c.cooldown n
  pub smart :
      (c : SimpleAlert)
      → cfg.disk_smart_failed ≡ some c
      → (n : Notification) → HasType "disk_smart_failed" n
      → Q c.cooldown n
  pub scrutiny :
      (c : SimpleAlert)
      → cfg.disk_smart_failed ≡ some c
      → (n : Notification) → HasType "disk_scrutiny_warning" n
      → Q c.cooldown n
  pub full :
      (c : ThresholdAlert F)
      → cfg.datastore_full ≡ some c
      → (n : Notification) → HasType "datastore_full" n
      → Q c.cooldown n
  pub offline :
      (c : ThresholdAlert F)
      → cfg.datastore_full ≡ some c
      → (n : Notification) → HasType "datastore_offline" n
      → Q hour n

module _ (fl : Float) {Q : ℕ → Notification → Type 0} {now : ℕ} where
  open fl use {Carrier, ge}

  threshold-Steps :
      (k : Str) (v : Carrier) (cfg : ThresholdAlert Carrier) (n : Notification) (a : Alerter)
      → Q cfg.cooldown n
      → Steps Q now a (check_sustained_threshold fl now k v cfg n a)
  unfolding check_sustained_threshold
  threshold-Steps k v cfg n a q =
      if-Steps (ge v cfg.threshold) (sustain-Steps k cfg.duration cfg.cooldown n a q)
        (next here (cleared k a))

  module _ (cfg : AlertConfig Carrier) (al : Allows Q cfg) where
    check_cpu-Steps :
        (o : Option (ThresholdAlert Carrier)) (inst : Str) (node : Node Carrier) (a : Alerter)
        → cfg.node_cpu_high ≡ o
        → Steps Q now a (check_cpu fl now o inst node a)
    unfolding check_cpu node_notice notice
    check_cpu-Steps none inst node a e = here
    check_cpu-Steps (some c) inst node a e = threshold-Steps _ _ c _ a (al.cpu c e _ refl)

    check_mem-Steps :
        (o : Option (ThresholdAlert Carrier)) (inst : Str) (node : Node Carrier) (a : Alerter)
        → cfg.node_mem_high ≡ o
        → Steps Q now a (check_mem fl now o inst node a)
    unfolding check_mem node_notice notice
    check_mem-Steps none inst node a e = here
    check_mem-Steps (some c) inst node a e =
        if-Steps (ltb_ℤ (pos 0) node.memory.total) (threshold-Steps _ _ c _ a (al.mem c e _ refl))
          here

    pub nodes-Steps :
        (x : Str × Dict Str (Node Carrier)) (a : Alerter)
        → Steps Q now a (check_nodes fl now cfg x a)
    unfolding check_nodes check_node
    nodes-Steps (inst, nodes) a =
        for_each-Steps (check_node fl now cfg inst)
          (λ node b.
            Steps-trans (check_cpu-Steps cfg.node_cpu_high inst node b refl)
              (check_mem-Steps cfg.node_mem_high inst node _ refl))
          (values nodes) a

    pub backups-Steps :
        (since : ℤ → ℤ) (c : BackupAlert)
        → cfg.backup_stale ≡ some c
        → (x : Str × Dict Str Backup) (a : Alerter)
        → Steps Q now a (check_backups fl now since c x a)
    unfolding check_backups check_backup notice
    backups-Steps since c e (pbs, backups) a =
        for_each-Steps (check_backup fl now since c pbs)
          (λ x b.
            if-Steps (ltb_ℤ (pos c.max_age) (since x.1.backup_time))
              (fire-Steps _ c.cooldown _ b (al.backup c e _ refl)) here)
          backups a

    usage-Steps :
        (c : ThresholdAlert Carrier) (pbs : Str) (ds : DatastoreStatus Carrier) (t u : Option ℤ)
        (a : Alerter)
        → cfg.datastore_full ≡ some c
        → Steps Q now a (check_usage fl now c pbs ds t u a)
    unfolding check_usage notice
    usage-Steps c pbs ds (some t) (some u) a e =
        if-Steps _ (fire-Steps _ c.cooldown _ a (al.full c e _ refl)) here
    usage-Steps c pbs ds _ _ a e = here

    offline-Steps :
        (c : ThresholdAlert Carrier) (pbs : Str) (ds : DatastoreStatus Carrier) (o : Option Str)
        (a : Alerter)
        → cfg.datastore_full ≡ some c
        → Steps Q now a (check_offline fl now pbs ds o a)
    unfolding check_offline notice
    offline-Steps c pbs ds none a e = here
    offline-Steps c pbs ds (some error) a e = fire-Steps _ hour _ a (al.offline c e _ refl)

    pub datastores-Steps :
        (c : ThresholdAlert Carrier)
        → cfg.datastore_full ≡ some c
        → (x : Str × Dict Str (DatastoreStatus Carrier)) (a : Alerter)
        → Steps Q now a (check_datastores fl now c x a)
    unfolding check_datastores check_datastore
    datastores-Steps c e (pbs, stores) a =
        for_each-Steps (check_datastore fl now c pbs)
          (λ ds b.
            Steps-trans (usage-Steps c pbs ds ds.total_bytes ds.used_bytes b e)
              (offline-Steps c pbs ds ds.error _ e))
          (values stores) a
