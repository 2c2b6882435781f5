-- ===== src/Pbs.antt =====
-- internal/collector/pbs.go: one poll of a PBS instance. What the API answers, decoded, are parameters; the
-- poll returns the cache that it leaves and the calls of the store, whose errors are only logged.
pub mod Filed
pub mod Latest
pub mod Entries
mod Tests
use glint.Common.{
  ℕ, Bool, true, false, ◌||◌, Option, none, some, List, [], ◌∷◌, ◌++◌, ◌==◌, if◌then◌else◌, fold,
  map,
}
use glint.Common.Int.{ℤ, ltb_ℤ}
use glint.Common.Text.{Str, str, str_eq}
use glint.Common.Dict.{Dict, insert, lookup, values, str_key}
use glint.Model.{Backup, PbsTask, DatastoreStatus}
use glint.Cache.{Cache, update_datastores, update_backups, update_tasks, set_last_poll}

pub data ApiReply (A : Type 0) : Type 0 where
  status_error : (status_code : ℕ) → ApiReply A
  no_answer : ApiReply A
  got : A → ApiReply A

pub record Usage : Type 0 where
  pub total : Option ℤ
  pub used : Option ℤ
  pub avail : Option ℤ
  pub error : Option Str

pub record RawSnapshot : Type 0 where
  pub backup_type : Str
  pub backup_id : Str
  pub backup_time : ℤ
  pub size : Option ℤ
  pub verification : Option Str

pub record RawTask : Type 0 where
  pub upid : Str
  pub worker_type : Str
  pub worker_id : Str
  pub start_time : ℤ
  pub end_time : Option ℤ
  pub status : Str
  pub user : Str

pub data StoreCall (F : Type 0) : Type 0 where
  insert_datastore_snapshot : DatastoreStatus F → StoreCall F
  insert_backup_snapshot : Backup → StoreCall F

-- The four endpoints.
pub record PbsApi : Type 0 where
  pub datastore_status : Str → ApiReply Usage
  pub datastore_usage : ApiReply (List (Str × Usage))
  pub snapshots : Str → ApiReply (List RawSnapshot)
  pub tasks : ApiReply (List RawTask)

unfoldable pub backup_of : Str → Str → RawSnapshot → Backup
backup_of pbs store s = record {
  pbs_instance = pbs;
  datastore = store;
  backup_type = s.backup_type;
  backup_id = s.backup_id;
  backup_time = s.backup_time;
  size_bytes = s.size;
  verified = elim s.verification [ none ↦ none | some state ↦ some (str_eq state (str "ok")) ];
}

-- snap.Datastore + "/" + snap.BackupID
unfoldable pub backup_key : Backup → Str
backup_key b = b.datastore ++ str "/" ++ b.backup_id

unfoldable pub is_newer : Backup → Option Backup → Bool
is_newer b none = true
is_newer b (some existing) = ltb_ℤ existing.backup_time b.backup_time

unfoldable pub keep_latest : Backup → Dict Str Backup → Dict Str Backup
keep_latest b m = if is_newer b (lookup (backup_key b) m) then insert (backup_key b) b m else m

unfoldable pub task_type : Str → Str
task_type t =
    if str_eq t (str "verificationjob")
    then str "verify"
    else if str_eq t (str "garbage_collection")
    then str "gc"
    else t

unfoldable pub task_of : Str → RawTask → PbsTask
task_of pbs t = record {
  pbs_instance = pbs;
  upid = t.upid;
  task_type = task_type t.worker_type;
  id = t.worker_id;
  start_time = t.start_time;
  end_time = t.end_time;
  status = t.status;
  user = t.user;
}

abbrev pub nothing_known : Usage
nothing_known = record { total = none; used = none; avail = none; error = none }

module _ (pbs : Str) (api : PbsApi) where
  unfoldable pub collect_snapshots : Str → Dict Str Backup → Dict Str Backup
  collect_snapshots store m = elim (api.snapshots store) [
    | no_answer ↦ m
    | status_error code ↦ m
    | got raws ↦ fold keep_latest (map (backup_of pbs store) raws) m
  ]

module _ {F : Type 0} (pbs : Str) (api : PbsApi) where
  unfoldable pub status_of : Str → Usage → DatastoreStatus F
  status_of name u = record {
    pbs_instance = pbs;
    name = name;
    total_bytes = u.total;
    used_bytes = u.used;
    avail_bytes = u.avail;
    dedup_ratio = none;
    est_full_date = none;
    error = u.error;
  }

  -- One configured datastore; a 403 leaves an entry without figures.
  unfoldable pub collect_named : Str → Dict Str (DatastoreStatus F) → Dict Str (DatastoreStatus F)
  unfolding status_of
  collect_named name m = elim (api.datastore_status name) [
    | no_answer ↦ m
    | status_error code ↦ if code == 403 then insert name (status_of name nothing_known) m else m
    | got u ↦ insert name (status_of name u) m
  ]

  unfoldable pub collect_listed :
      Str × Usage → Dict Str (DatastoreStatus F) → Dict Str (DatastoreStatus F)
  collect_listed (name, u) m = insert name (status_of name u) m

  -- The datastores, configured or all; `none` is the error that ends the poll.
  unfoldable pub collect_datastores : List Str → Option (Dict Str (DatastoreStatus F))
  collect_datastores (n ∷ ns) = some (fold collect_named (n ∷ ns) [])
  collect_datastores [] = elim api.datastore_usage [
    | no_answer ↦ none
    | status_error code ↦ none
    | got us ↦ some (fold collect_listed us [])
  ]

  unfoldable pub collect_backups : Dict Str (DatastoreStatus F) → Dict Str Backup
  collect_backups stores = fold (λ e. collect_snapshots pbs api e.0) stores []

  unfoldable pub note_tasks : Cache F → Cache F
  note_tasks c = elim api.tasks [
    | no_answer ↦ c
    | status_error code ↦ c
    | got ts ↦ update_tasks pbs (map (task_of pbs) ts) c
  ]

  unfoldable pub collect : List Str → ℕ → Cache F → Option (Cache F × List (StoreCall F))
  collect configured now c = elim (collect_datastores configured) [
    | none ↦ none
    | some stores ↦
        let backups = collect_backups stores in
        let c' = note_tasks (update_backups pbs backups (update_datastores pbs stores c)) in
        some (
          set_last_poll (str "pbs:" ++ pbs) now c',
          map insert_datastore_snapshot (values stores)
              ++ map insert_backup_snapshot (values backups),
        )
  ]
