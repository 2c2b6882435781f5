-- ===== src/Client/Tests.antt =====
-- A PBS host that forbids everything, and the requests that reach it.
use glint.Common.{
  ℕ, true, false, none, some, List, [], ◌∷◌, ◌≡◌, refl, if◌then◌else◌, any, ◌≤◌, arith,
}
use glint.Common.Int.{ℤ, pos}
use glint.Common.Text.{Str, str, str_eq, show_nat, has_prefix, trim_right}
use glint.Common.Result.{ok, err}
use glint.Common.Dict.{Dict, lookup, str_key}
use glint.Common.Whole.{whole}
use glint.Model.{DatastoreStatus}
use glint.Cache
use glint.Cache.{Cache}
use glint.Pbs
use glint.Pbs.{StoreCall}
use glint.Pve
use glint.Pve.{PveCollector, PveSettings}
use glint.Client.{
  ApiError, Network, Request, api_error, error_text, http_client, is_retryable, request, response,
  retryable, unreachable, wrapped,
}
use glint.Client.Pbs.{PbsConfig, PbsJson, new_pbs_collector, pbs_authorization, pbs_served}
use glint.Client.Pve.{PveConfig, PveJson, new_pve_collector, pve_authorization, pve_served}
use glint.Client.Pool.{Steps, new_worker_pool, called, accepted, here, then_step}
use glint.Client.Rest.{Steps-accounted, places, times}
use glint.Client.Contained.{IsMeant, pve_poll-IsMeant}
use glint.Client.Reported.{collect-expected, expected, status_request}

abbrev cfg : PbsConfig
cfg = record {
  name = str "pbs";
  host = str "https://pbs:8007/";
  token_id = str "glint@pbs!t";
  token_secret = str "s";
  insecure = false;
  datastores = str "d" ∷ [];
  poll_interval = pos 300;
}

abbrev json : PbsJson
json = record {
  datastore_usage = λ body. err (str "EOF");
  datastore_status = λ body. err (str "EOF");
  snapshots = λ body. err (str "EOF");
  tasks = λ body. err (str "EOF");
}

abbrev forbidding : Network
forbidding r = response 403 (str "permission check failed")

-- The same, but that it serves no other host.
abbrev own_only : Network
own_only r =
    if has_prefix r.url (str "https://pbs:8007/api2/json/")
    then response 403 (str "permission check failed")
    else unreachable (str "no route to host")

request_example :
    request (http_client false) (pbs_authorization cfg) cfg.host (str "/api2/json/nodes") ≡ record {
      client = record { insecure_skip_verify = false; timeout = 30_000_000_000 };
      url = str "https://pbs:8007/api2/json/nodes";
      authorization = str "PBSAPIToken=glint@pbs!t:s";
    }
unfolding request http_client pbs_authorization trim_right str
request_example = refl

abbrev refused : ApiError
refused = record { status_code = 503; body = str "busy"; endpoint = str "/x" }

refused_text :
    error_text (retryable (wrapped (str "op: ") (api_error refused)))
    ≡ str "op: API error 503 from /x: busy"
unfolding error_text str show_nat
refused_text = refl

refused_retryable : is_retryable (api_error refused) ≡ some true
unfolding is_retryable
refused_retryable = refl

collect-expected_example :
    (c' : Cache ℤ) × (calls : List (StoreCall ℤ)) × (stores : Dict Str (DatastoreStatus ℤ))
    × (Pbs.collect
          (str "pbs")
          (pbs_served forbidding json (new_pbs_collector cfg) 700_000)
          (str "d" ∷ [])
          5
          Cache.new
        ≡ some (c', calls))
    × (lookup (str "pbs") c'.datastores ≡ some stores)
    × (lookup (str "d") stores ≡ (
        if any (λ n. str_eq n (str "d")) (str "d" ∷ [])
        then expected json (str "pbs") (str "d") (forbidding (status_request cfg (str "d")))
        else none))
collect-expected_example =
    collect-expected forbidding json cfg 700_000 (str "d") (str "d") [] 5 Cache.new refl

-- The two networks agree on the requests to the host's API.
agree_below :
    (r : Request)
    → IsMeant false (pbs_authorization cfg) (str "https://pbs:8007/") r
    → forbidding r ≡ own_only r
unfolding trim_right str
agree_below r h =
    let e : has_prefix r.url (str "https://pbs:8007/api2/json/") ≡ true = h.own_host in rw e refl

abbrev pve_cfg : PveConfig
pve_cfg = record {
  name = str "main";
  host = str "https://pbs:8007/";
  token_id = str "glint@pbs!t";
  token_secret = str "s";
  insecure = false;
  is_cluster = false;
  poll_interval = pos 15;
  disk_poll_interval = pos 3600;
}

abbrev settings : PveSettings
settings = record { name = str "main"; is_cluster = false; disk_poll_interval = pos 3600 }

abbrev pve_json : PveJson ℤ
pve_json = record {
  envelope = λ body. ok body;
  nodes = λ body. ok ((str "pve1", str "online") ∷ []);
  cluster_status = λ body. err (str "EOF");
  node_status = λ body. err (str "EOF");
  guests = λ body. ok [];
  disks = λ body. ok [];
  smart = λ body. err (str "EOF");
  query_escape = λ s. s;
  parse_float = λ s. pos 0;
}

abbrev polled : PveCollector
polled = record { nodes = str "pve1" ∷ []; cluster_id = str "main"; last_disk_poll = none }

-- The answer of a host with nothing but an envelope, and the same host with another one beside it.
abbrev serving : Network
serving r = response 200 (str "{}")

abbrev two_hosts : Network
two_hosts r =
    if has_prefix r.url (str "https://pbs:8007/api2/json/")
    then response 200 (str "{}")
    else response 500 (str "other")

serving_agrees :
    (authorization : Str) (r : Request)
    → IsMeant false authorization (str "https://pbs:8007/") r
    → serving r ≡ two_hosts r
unfolding trim_right str
serving_agrees authorization r h =
    let e : has_prefix r.url (str "https://pbs:8007/api2/json/") ≡ true = h.own_host in rw e refl

pve_poll-IsMeant_example :
    (Pve.prepare whole settings
        (pve_served serving pve_json (new_pve_collector pve_cfg) (λ node. 5))
        polled
      ≡ Pve.prepare whole settings
          (pve_served two_hosts pve_json (new_pve_collector pve_cfg) (λ node. 5))
          polled)
    × (Pve.workers whole settings 9
          (pve_served serving pve_json (new_pve_collector pve_cfg) (λ node. 5))
          polled
        ≡ Pve.workers whole settings 9
            (pve_served two_hosts pve_json (new_pve_collector pve_cfg) (λ node. 5))
            polled)
pve_poll-IsMeant_example =
    pve_poll-IsMeant whole serving two_hosts pve_json pve_cfg (λ node. 5) settings 9 polled polled
      (serving_agrees (pve_authorization pve_cfg))

full :
    Steps
      (2 ∷ 1 ∷ [])
      (new_worker_pool 1)
      (record { capacity = 1; running = 1 ∷ []; waiting = 2 ∷ []; finished = []; refused = [] })
unfolding new_worker_pool
full =
    then_step
      (then_step (then_step here (called _ 1) refl) (accepted _ 1 [] [] refl (omega arith)) refl)
      (called _ 2) refl

Steps-accounted_example :
    (1 ≤ 1)
    × ((t : ℕ)
        → places t (record {
          capacity = 1;
          running = 1 ∷ [];
          waiting = 2 ∷ [];
          finished = [];
          refused = [];
        })
          ≡ times t (2 ∷ 1 ∷ []))
Steps-accounted_example = Steps-accounted 1 full
