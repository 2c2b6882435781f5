-- ===== src/Client/Pve.antt =====
-- internal/collector/pve.go: how the PVE collector comes to what `Pve.prepare` and `Pve.workers` work on. The
-- decodings of encoding/json, the envelope `data` among them, and url.QueryEscape are parameters.
use glint.Common.{ℕ, Bool, Option, none, some, List, ◌++◌}
use glint.Common.Int.{ℤ}
use glint.Common.Text.{Str, str}
use glint.Common.Result.{Result, ok, err, ◌>>=◌}
use glint.Collector.{Reply, SmartData, SmartType, auto, sat, scsi, api_error, unreadable, answered}
use glint.Collector.Disks.{RawDisk}
use glint.Pve.Parse.{PveApi, RawNode, RawGuest}
use glint.Client.{
  CollectError, HttpClient, Network, wrapped, external, as_api_error, http_client, send,
}

pub record PveConfig : Type 0 where
  pub name : Str
  pub host : Str
  pub token_id : Str
  pub token_secret : Str
  pub insecure : Bool
  pub is_cluster : Bool
  pub poll_interval : ℤ
  pub disk_poll_interval : ℤ

-- The fields that no poll changes.
pub record PveClient : Type 0 where
  pub config : PveConfig
  pub client : HttpClient

unfoldable pub new_pve_collector : PveConfig → PveClient
unfolding http_client
new_pve_collector cfg = record { config = cfg; client = http_client cfg.insecure }

-- The `data` of a response, and what stands in it at each endpoint.
pub record PveJson (F : Type 0) : Type 0 where
  pub envelope : Str → Result Str Str
  pub nodes : Str → Result Str (List (Str × Str))
  pub cluster_status : Str → Result Str (List (Str × Str))
  pub node_status : Str → Result Str (RawNode F)
  pub guests : Str → Result Str (List (RawGuest F))
  pub disks : Str → Result Str (List RawDisk)
  pub smart : Str → Result Str (SmartData F)
  pub query_escape : Str → Str
  pub parse_float : Str → F

unfoldable pub pve_authorization : PveConfig → Str
pve_authorization cfg = str "PVEAPIToken=" ++ cfg.token_id ++ str "=" ++ cfg.token_secret

-- `apiGet`.
unfoldable pub pve_api_get : Network → PveClient → (op path : Str) → Result CollectError Str
unfolding send pve_authorization
pve_api_get network p = send network p.client (pve_authorization p.config) p.config.host

to_option : {A : Type 0} → Result CollectError A → Option A
to_option (ok a) = some a
to_option (err e) = none

-- An error of json.Unmarshal, with a text before it.
unfoldable pub parsed : {A : Type 0} → Str → Result Str A → Result CollectError A
parsed text (ok a) = ok a
parsed text (err e) = err (wrapped (text ++ str ": ") (external e))

-- The same, where the error is returned as it is.
unfoldable pub plain : {A : Type 0} → Result Str A → Result CollectError A
plain (ok a) = ok a
plain (err e) = err (external e)

-- The parameter `type`, absent for "".
type_query : (Str → Str) → SmartType → Str
type_query escape auto = str ""
type_query escape sat = str "&type=" ++ escape (str "sat")
type_query escape scsi = str "&type=" ++ escape (str "scsi")

smart_reply : {F : Type 0} → Result CollectError (SmartData F) → Reply F
unfolding as_api_error
smart_reply (ok s) = answered s
smart_reply (err e) = elim (as_api_error e) [ none ↦ unreadable | some a ↦ api_error a.status_code ]

-- `get` is `apiGet` on the paths below /api2/json/.
module _ {F : Type 0} (json : PveJson F) (get : (op path : Str) → Result CollectError Str) where
  discover_nodes : Result CollectError (List (Str × Str))
  unfolding parsed
  discover_nodes = do
    body ← get (str "discoverNodes") (str "nodes")
    resp ← parsed (str "parsing nodes response") (json.envelope body)
    parsed (str "parsing node list") (json.nodes resp)

  cluster_entries : Result CollectError (List (Str × Str))
  unfolding plain
  cluster_entries = do
    body ← get (str "detectCluster") (str "cluster/status")
    resp ← plain (json.envelope body)
    plain (json.cluster_status resp)

  collect_node_status : Str → Result CollectError (RawNode F)
  unfolding parsed
  collect_node_status node = do
    body ← get (str "collectNodeStatus") (str "nodes/" ++ node ++ str "/status")
    resp ← parsed (str "parsing node status response") (json.envelope body)
    parsed (str "parsing node data") (json.node_status resp)

  collect_guest_type : (node guest_type : Str) → Result CollectError (List (RawGuest F))
  unfolding parsed
  collect_guest_type node guest_type = do
    body ← get (str "collectGuests:" ++ guest_type) (str "nodes/" ++ node ++ str "/" ++ guest_type)
    resp ← parsed (str "parsing " ++ guest_type ++ str " list") (json.envelope body)
    parsed (str "parsing " ++ guest_type ++ str " data") (json.guests resp)

  list_disks : Str → Result CollectError (List RawDisk)
  unfolding parsed
  list_disks node = do
    body ← get (str "collectDisks") (str "nodes/" ++ node ++ str "/disks/list?skipsmart=1")
    resp ← parsed (str "parsing disk list") (json.envelope body)
    parsed (str "parsing disk data") (json.disks resp)

  ask_smart : (node dev_path : Str) → SmartType → Result CollectError (SmartData F)
  unfolding parsed type_query
  ask_smart node dev_path t = do
    body ← get (str "collectSMART") (
        str "nodes/"
        ++ node
        ++ str "/disks/smart?disk="
        ++ json.query_escape dev_path
        ++ type_query json.query_escape t)
    resp ← parsed (str "parsing SMART response") (json.envelope body)
    parsed (str "parsing SMART data") (json.smart resp)

  unfoldable pub pve_api : (Str → ℕ) → PveApi F
  unfolding to_option smart_reply discover_nodes cluster_entries collect_node_status
      collect_guest_type list_disks ask_smart
  pve_api clock = record {
    nodes = to_option discover_nodes;
    cluster_status = to_option cluster_entries;
    node_status = λ node. to_option (collect_node_status node);
    guests = λ node guest_type. to_option (collect_guest_type node guest_type);
    disks = λ node. to_option (list_disks node);
    smart = λ node dev_path t. smart_reply (ask_smart node dev_path t);
    disk_clock = clock;
    parse_float = json.parse_float;
  }

-- The API of an instance, as a poll sees it.
unfoldable pub pve_served : {F : Type 0} → Network → PveJson F → PveClient → (Str → ℕ) → PveApi F
unfolding pve_api_get pve_api
pve_served network json p =
    pve_api json (λ op path. pve_api_get network p op (str "/api2/json/" ++ path))
