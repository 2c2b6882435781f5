-- ===== src/Client/Pbs.antt =====
-- internal/collector/pbs.go: how the PBS collector comes to what `Pbs.collect` works on. The decodings of
-- encoding/json are parameters; `err` is the text of their error.
use glint.Common.{ℕ, ◌/◌, Bool, none, some, List, ◌++◌}
use glint.Common.Int.{ℤ, pos, ◌-ℤ◌}
use glint.Common.Text.{Str, str, show_int}
use glint.Common.Result.{Result, ok, err, ◌>>=◌}
use glint.Common.Time.{second}
use glint.Pbs.{ApiReply, status_error, no_answer, got, Usage, RawSnapshot, RawTask, PbsApi}
use glint.Client.{
  CollectError, HttpClient, Network, wrapped, external, as_api_error, http_client, send,
}

pub record PbsConfig : Type 0 where
  pub name : Str
  pub host : Str
  pub token_id : Str
  pub token_secret : Str
  pub insecure : Bool
  pub datastores : List Str
  pub poll_interval : ℤ

-- The cache and the store are states of their own.
pub record PbsCollector : Type 0 where
  pub config : PbsConfig
  pub client : HttpClient

unfoldable pub new_pbs_collector : PbsConfig → PbsCollector
unfolding http_client
new_pbs_collector cfg = record { config = cfg; client = http_client cfg.insecure }

pub record PbsJson : Type 0 where
  pub datastore_usage : Str → Result Str (List (Str × Usage))
  pub datastore_status : Str → Result Str Usage
  pub snapshots : Str → Result Str (List RawSnapshot)
  pub tasks : Str → Result Str (List RawTask)

unfoldable pub pbs_authorization : PbsConfig → Str
pbs_authorization cfg = str "PBSAPIToken=" ++ cfg.token_id ++ str ":" ++ cfg.token_secret

-- `apiGet`.
unfoldable pub pbs_api_get : Network → PbsCollector → (op path : Str) → Result CollectError Str
unfolding send pbs_authorization
pbs_api_get network c = send network c.client (pbs_authorization c.config) c.config.host

-- An error of json.Unmarshal, wrapped with a text before it.
unfoldable pub decoded : {A : Type 0} → Str → Result Str A → Result CollectError A
decoded text (ok a) = ok a
decoded text (err e) = err (wrapped (text ++ str ": ") (external e))

-- How `Collect` tells the errors apart.
unfoldable pub reply_of : {A : Type 0} → Result CollectError A → ApiReply A
unfolding as_api_error
reply_of (ok a) = got a
reply_of (err e) = elim (as_api_error e) [ none ↦ no_answer | some a ↦ status_error a.status_code ]

-- `get` is `apiGet` on the paths below /api2/json/.
module _ (json : PbsJson) (get : (op path : Str) → Result CollectError Str) where
  collect_all_datastore_usage : Result CollectError (List (Str × Usage))
  unfolding decoded
  collect_all_datastore_usage = do
    body ← get (str "collectDatastoreUsage") (str "status/datastore-usage")
    decoded (str "parsing datastore usage") (json.datastore_usage body)

  unfoldable pub collect_datastore_status : Str → Result CollectError Usage
  unfolding decoded
  collect_datastore_status datastore = do
    body ← get (str "collectDatastoreStatus") (str "admin/datastore/" ++ datastore ++ str "/status")
    decoded (str "parsing datastore status") (json.datastore_status body)

  unfoldable pub collect_snapshots : Str → Result CollectError (List RawSnapshot)
  unfolding decoded
  collect_snapshots datastore = do
    body ← get (str "collectSnapshots") (str "admin/datastore/" ++ datastore ++ str "/snapshots")
    decoded (str "parsing snapshots") (json.snapshots body)

  -- The clock is read anew; 7 days have 604,800 seconds.
  collect_tasks : ℕ → Result CollectError (List RawTask)
  unfolding decoded
  collect_tasks now = do
    let since = pos (now / second) -ℤ pos 604_800
    body ←
        get (str "collectTasks")
          (str "nodes/localhost/tasks?since=" ++ show_int since ++ str "&limit=200")
    decoded (str "parsing tasks") (json.tasks body)

  unfoldable pub pbs_api : ℕ → PbsApi
  unfolding collect_all_datastore_usage collect_datastore_status collect_snapshots collect_tasks
      reply_of
  pbs_api clock = record {
    datastore_status = λ datastore. reply_of (collect_datastore_status datastore);
    datastore_usage = reply_of collect_all_datastore_usage;
    snapshots = λ datastore. reply_of (collect_snapshots datastore);
    tasks = reply_of (collect_tasks clock);
  }

-- The API of an instance, as a poll sees it.
unfoldable pub pbs_served : Network → PbsJson → PbsCollector → ℕ → PbsApi
unfolding pbs_api_get pbs_api
pbs_served network json c =
    pbs_api json (λ op path. pbs_api_get network c op (str "/api2/json/" ++ path))
