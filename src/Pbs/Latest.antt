-- ===== src/Pbs/Latest.antt =====
-- What a poll of a PBS instance leaves in the cache.
use mathlib.Core.Path.{subst}
use glint.Common.{
  ℕ, ◌≡◌, refl, sym, inl, inr, true, false, Option, none, some, List, [], ◌∷◌, arith, All, All-map,
  map, fold, Bool-cases,
}
use glint.Common.Int.{ℤ, ◌≤ℤ◌}
use glint.Common.Text.{Str, str_eq, str_eq_iff}
use glint.Common.Dict.{Dict, lookup, str_key, lookup-insert}
use glint.Model.{Backup, DatastoreStatus}
use glint.Pbs.Filed.{IsName, IsFiled, fold-IsFiled, key-inj, map-IsName}
use glint.Cache.{Cache, update_datastores, update_backups, update_tasks, set_last_poll}
use glint.Pbs.{
  ApiReply, got, no_answer, status_error, PbsApi, RawSnapshot, StoreCall, backup_of, backup_key,
  is_newer, keep_latest, collect_snapshots, collect_datastores, collect_backups, note_tasks,
  collect,
}

-- There is a backup of the same datastore and id that is no older.
abbrev pub Current : Backup → Option Backup → Type 0
Current b none = ⊥
Current b (some b') =
    (b'.datastore ≡ b.datastore) × (b'.backup_id ≡ b.backup_id) × (b.backup_time ≤ℤ b'.backup_time)

-- There is a backup, no older than the given time.
abbrev AtLeast : ℤ → Option Backup → Type 0
AtLeast t none = ⊥
AtLeast t (some b) = t ≤ℤ b.backup_time

newer_wins :
    (t : ℤ) (b : Backup) (o : Option Backup)
    → AtLeast t o
    → is_newer b o ≡ true
    → t ≤ℤ b.backup_time
unfolding is_newer
newer_wins t b none h n = absurd h
newer_wins t b (some existing) h n = ground arith

-- Once a key holds a backup no older than a time, it goes on to do so.
keep_latest-AtLeast :
    (k : Str) (t : ℤ) (b : Backup) (m : Dict Str Backup)
    → AtLeast t (lookup k m)
    → AtLeast t (lookup k (keep_latest b m))
unfolding keep_latest
keep_latest-AtLeast k t b m h = elim (Bool-cases (is_newer b (lookup (backup_key b) m))) [
  | inr e ↦ rw e h
  | inl e ↦ rw e (
      rw (lookup-insert (backup_key b) k b m) (elim (Bool-cases (str_eq (backup_key b) k)) [
        | inr f ↦ rw f h
        | inl f ↦ rw f (
            newer_wins t b (lookup (backup_key b) m)
              (subst (λ j. AtLeast t (lookup j m)) (sym ((str_eq_iff (backup_key b) k).0 f)) h) e)
      ]))
]

not_newer : (b : Backup) (o : Option Backup) → is_newer b o ≡ false → AtLeast b.backup_time o
unfolding is_newer
not_newer b none h = cc
not_newer b (some existing) h = ground arith

-- A backup that was offered is kept, or one no older is.
keep_latest-offered :
    (b : Backup) (m : Dict Str Backup)
    → AtLeast b.backup_time (lookup (backup_key b) (keep_latest b m))
unfolding keep_latest
keep_latest-offered b m = elim (Bool-cases (is_newer b (lookup (backup_key b) m))) [
  | inr e ↦ rw e (not_newer b (lookup (backup_key b) m) e)
  | inl e ↦ rw e (
      rw
        (
          lookup-insert (backup_key b) (backup_key b) b m,
          (str_eq_iff (backup_key b) (backup_key b)).1 refl,
        )
        (omega arith))
]

fold-AtLeast :
    (k : Str) (t : ℤ) (bs : List Backup) (m : Dict Str Backup)
    → AtLeast t (lookup k m)
    → AtLeast t (lookup k (fold keep_latest bs m))
unfolding fold
fold-AtLeast k t [] m h = h
fold-AtLeast k t (b ∷ bs) m h =
    fold-AtLeast k t bs (keep_latest b m) (keep_latest-AtLeast k t b m h)

offered-AtLeast :
    (bs : List Backup) (m : Dict Str Backup)
    → All (λ b. AtLeast b.backup_time (lookup (backup_key b) (fold keep_latest bs m))) bs
unfolding fold
offered-AtLeast [] m = tt
offered-AtLeast (b ∷ bs) m = (
  fold-AtLeast (backup_key b) b.backup_time bs (keep_latest b m) (keep_latest-offered b m),
  offered-AtLeast bs (keep_latest b m),
)

filed-Current :
    (b : Backup) (m : Dict Str Backup)
    → IsName b.datastore
    → IsFiled m
    → AtLeast b.backup_time (lookup (backup_key b) m)
    → Current b (lookup (backup_key b) m)
filed-Current b m n filed = from (lookup (backup_key b) m) refl
  where
    from : (o : Option Backup) → lookup (backup_key b) m ≡ o → AtLeast b.backup_time o → Current b o
    from none e h = h
    from (some b') e h =
        let (under, n') = filed (backup_key b) b' e in
        let (d, i) = key-inj b b' n n' under in (d, i, h)

-- The backups of an answer, none without one.
abbrev pub offered : Str → Str → ApiReply (List RawSnapshot) → List Backup
offered pbs store (got raws) = map (backup_of pbs store) raws
offered pbs store _ = []

offered-IsName :
    (pbs store : Str) (reply : ApiReply (List RawSnapshot))
    → IsName store
    → All (λ b. IsName b.datastore) (offered pbs store reply)
offered-IsName pbs store (got raws) n = map-IsName pbs store raws n
offered-IsName pbs store no_answer n = tt
offered-IsName pbs store (status_error code) n = tt

all-Current :
    (m : Dict Str Backup) (bs : List Backup)
    → All (λ b. IsName b.datastore) bs
    → IsFiled m
    → All (λ b. AtLeast b.backup_time (lookup (backup_key b) m)) bs
    → All (λ b. Current b (lookup (backup_key b) m)) bs
all-Current m [] n filed h = tt
all-Current m (b ∷ bs) n filed h = (filed-Current b m n.0 filed h.0, all-Current m bs n.1 filed h.1)

module _ (pbs : Str) (api : PbsApi) where
  snapshots_lem :
      (store : Str) (m : Dict Str Backup)
      → collect_snapshots pbs api store m
        ≡ fold keep_latest (offered pbs store (api.snapshots store)) m
  unfolding collect_snapshots fold
  snapshots_lem store m = ground arith

  module _ {F : Type 0} where
    stores-AtLeast :
        (k : Str) (t : ℤ) (stores : Dict Str (DatastoreStatus F)) (m : Dict Str Backup)
        → AtLeast t (lookup k m)
        → AtLeast t (lookup k (fold (λ e. collect_snapshots pbs api e.0) stores m))
    unfolding fold
    stores-AtLeast k t [] m h = h
    stores-AtLeast k t ((store, ds) ∷ stores) m h =
        stores-AtLeast k t stores (collect_snapshots pbs api store m)
          (rw snapshots_lem (fold-AtLeast k t (offered pbs store (api.snapshots store)) m h))

    -- Every backup offered for one of the datastores has one of its datastore and id that is no older.
    abbrev pub IsCurrent : Dict Str Backup → Dict Str (DatastoreStatus F) → Type 0
    IsCurrent m =
        All (λ e.
          All (λ b. Current b (lookup (backup_key b) m)) (offered pbs e.0 (api.snapshots e.0)))

    -- The same without the names.
    abbrev IsRecent : Dict Str Backup → Dict Str (DatastoreStatus F) → Type 0
    IsRecent m = All (λ e.
        All (λ b. AtLeast b.backup_time (lookup (backup_key b) m))
          (offered pbs e.0 (api.snapshots e.0)))

    stores-IsRecent :
        (stores : Dict Str (DatastoreStatus F)) (m : Dict Str Backup)
        → IsRecent (fold (λ e. collect_snapshots pbs api e.0) stores m) stores
    unfolding fold
    stores-IsRecent [] m = tt
    stores-IsRecent ((store, ds) ∷ stores) m = (
      All-map
          (λ b h.
            stores-AtLeast (backup_key b) b.backup_time stores (collect_snapshots pbs api store m)
              h)
          (offered pbs store (api.snapshots store))
          (rw snapshots_lem (offered-AtLeast (offered pbs store (api.snapshots store)) m)),
      stores-IsRecent stores (collect_snapshots pbs api store m),
    )

    -- Every datastore has a name.
    abbrev pub AreNamed : Dict Str (DatastoreStatus F) → Type 0
    AreNamed = All (λ e. IsName e.0)

    stores-IsFiled :
        (stores : Dict Str (DatastoreStatus F)) (m : Dict Str Backup)
        → AreNamed stores
        → IsFiled m
        → IsFiled (fold (λ e. collect_snapshots pbs api e.0) stores m)
    unfolding fold
    stores-IsFiled [] m n h = h
    stores-IsFiled ((store, ds) ∷ stores) m n h =
        stores-IsFiled stores (collect_snapshots pbs api store m) n.1 (
          rw snapshots_lem (
            fold-IsFiled (offered pbs store (api.snapshots store)) m
              (offered-IsName pbs store (api.snapshots store) n.0) h))

    stores-IsCurrent :
        (m : Dict Str Backup) (stores : Dict Str (DatastoreStatus F))
        → AreNamed stores
        → IsFiled m
        → IsRecent m stores
        → IsCurrent m stores
    stores-IsCurrent m [] n filed h = tt
    stores-IsCurrent m ((store, ds) ∷ stores) n filed h = (
      all-Current m (offered pbs store (api.snapshots store))
          (offered-IsName pbs store (api.snapshots store) n.0) filed h.0,
      stores-IsCurrent m stores n.1 filed h.1,
    )

    note_tasks-backups : (c : Cache F) → (note_tasks pbs api c).backups ≡ c.backups
    unfolding note_tasks update_tasks
    note_tasks-backups c = ground arith

    lookup-update_backups :
        (m : Dict Str Backup) (stores : Dict Str (DatastoreStatus F)) (c : Cache F)
        → lookup pbs (update_backups pbs m (update_datastores pbs stores c)).backups ≡ some m
    unfolding update_backups update_datastores
    lookup-update_backups m stores c =
        ground (arith, lookup-insert pbs pbs m c.backups, str_eq_iff pbs pbs)

    -- A poll that gets its list of datastores, whose names have no slash, ends without an error and leaves the
    -- instance's backups in the cache: each backup that the API listed for one of those datastores has there,
    -- under its key, a backup of the same datastore and id that is no older.
    pub collect-IsCurrent :
        (configured : List Str) (now : ℕ) (c : Cache F) (stores : Dict Str (DatastoreStatus F))
        → collect_datastores pbs api configured ≡ some stores
        → AreNamed stores
        → (c' : Cache F) × (calls : List (StoreCall F)) × (m : Dict Str Backup) × (collect pbs api
              configured now c
            ≡ some (c', calls))
          × (lookup pbs c'.backups ≡ some m)
          × IsCurrent m stores
    unfolding collect
    collect-IsCurrent configured now c stores e named =
        let m = collect_backups pbs api stores in
        let filled = update_backups pbs m (update_datastores pbs stores c) in
        rw (e, collect)
          (
            _,
            _,
            m,
            refl,
            unfold set_last_poll in
                rw (note_tasks-backups filled) (lookup-update_backups m stores c),
            stores-IsCurrent m stores named
                (unfold collect_backups in
                  stores-IsFiled stores [] named (λ k b q. unfold lookup in cc))
                (unfold collect_backups in stores-IsRecent stores []),
          )
