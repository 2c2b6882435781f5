-- ===== src/Pbs/Tests.antt =====
-- A poll of one datastore with two backups of a guest.
use glint.Common.{ℕ, ◌≡◌, refl, Option, none, some, List, [], ◌∷◌}
use glint.Common.Int.{ℤ, pos}
use glint.Common.Text.{Str, str}
use glint.Common.Dict.{Dict, lookup, str_key}
use glint.Model.{Backup, DatastoreStatus}
use glint.Cache
use glint.Cache.{Cache}
use glint.Pbs.{
  got, status_error, PbsApi, RawSnapshot, StoreCall, nothing_known, status_of, collect_datastores,
  collect_named, collect,
}
use glint.Pbs.Latest.{IsCurrent, collect-IsCurrent}

abbrev taken : ℕ → RawSnapshot
taken time = record {
  backup_type = str "ct";
  backup_id = str "101";
  backup_time = pos time;
  size = none;
  verification = some (str "ok");
}

abbrev api : PbsApi
api = record {
  datastore_status = λ name. status_error 403;
  datastore_usage = status_error 403;
  snapshots = λ name. got (taken 9 ∷ taken 7 ∷ []);
  tasks = status_error 403;
}

abbrev stores : Dict Str (DatastoreStatus ℤ)
stores = (str "d", status_of (str "pbs") api (str "d") nothing_known) ∷ []

collect-IsCurrent_example :
    (c' : Cache ℤ) × (calls : List (StoreCall ℤ)) × (m : Dict Str Backup) × (collect
        (str "pbs")
        api
        (str "d" ∷ [])
        5
        Cache.new
      ≡ some (c', calls))
    × (lookup (str "pbs") c'.backups ≡ some m)
    × IsCurrent (str "pbs") api m stores
unfolding collect_datastores collect_named str glint.Common.fold glint.Common.Dict.insert
collect-IsCurrent_example =
    collect-IsCurrent (str "pbs") api (str "d" ∷ []) 5 Cache.new stores refl ((refl, tt), tt)
