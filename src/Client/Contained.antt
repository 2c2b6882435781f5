-- ===== src/Client/Contained.antt =====
-- Which requests a poll makes: the polls of internal/collector/pve.go and pbs.go on two networks.
use mathlib.Core.Path.{fun_ext}
use mathlib.Core.List.{append_assoc}
use glint.Common.{ℕ, Bool, true, ◌++◌, ◌≡◌, refl, ap}
use glint.Common.Text.{Str, str, has_prefix, has_prefix-append, trim_right}
use glint.Common.Float.{Float}
use glint.Cache.{Cache}
use glint.Pbs
use glint.Pve
use glint.Pve.{PveSettings, PveCollector}
use glint.Client.{Network, Request, http_client, received, request, send}
use glint.Client.Pbs.{
  PbsConfig, PbsJson, new_pbs_collector, pbs_authorization, pbs_api_get, pbs_api, pbs_served,
}
use glint.Client.Pve.{
  PveConfig, PveJson, new_pve_collector, pve_authorization, pve_api_get, pve_api, pve_served,
}

-- A request to the API of a host with a token, with its certificate unchecked or not.
pub record IsMeant (insecure : Bool) (authorization host : Str) (r : Request) : Type 0 where
  pub own_host : has_prefix r.url (trim_right host b'/' ++ str "/api2/json/") ≡ true
  pub own_token : r.authorization ≡ authorization
  pub checked : r.client.insecure_skip_verify ≡ insecure

request-IsMeant :
    (insecure : Bool) (authorization host path : Str)
    → IsMeant insecure authorization host
        (request (http_client insecure) authorization host (str "/api2/json/" ++ path))
unfolding request http_client
request-IsMeant insecure authorization host path = record {
  own_host =
      rw (← append_assoc (trim_right host b'/') (str "/api2/json/") path)
        (has_prefix-append (trim_right host b'/' ++ str "/api2/json/") path);
  own_token = refl;
  checked = refl;
}

send_agrees :
    (n m : Network) (insecure : Bool) (authorization host op path : Str)
    → ((r : Request) → IsMeant insecure authorization host r → n r ≡ m r)
    → send n (http_client insecure) authorization host op (str "/api2/json/" ++ path)
      ≡ send m (http_client insecure) authorization host op (str "/api2/json/" ++ path)
unfolding send
send_agrees n m insecure authorization host op path agree =
    ap (received op (str "/api2/json/" ++ path))
      (agree _ (request-IsMeant insecure authorization host path))

-- What a PBS poll does depends on the network only through requests to the API of the configured host, with
-- the configured token, and with certificates checked unless the configuration turns that off: on two
-- networks that give the same answers to these, it leaves the same cache and calls of the store.
pbs_poll-IsMeant :
    {F : Type 0} (n m : Network) (json : PbsJson) (cfg : PbsConfig) (clock now : ℕ) (c : Cache F)
    → ((r : Request) → IsMeant cfg.insecure (pbs_authorization cfg) cfg.host r → n r ≡ m r)
    → Pbs.collect cfg.name (pbs_served n json (new_pbs_collector cfg) clock) cfg.datastores now c
      ≡ Pbs.collect cfg.name (pbs_served m json (new_pbs_collector cfg) clock) cfg.datastores now c
unfolding pbs_served new_pbs_collector pbs_api_get
pbs_poll-IsMeant n m json cfg clock now c agree =
    ap (λ get. Pbs.collect cfg.name (pbs_api json get clock) cfg.datastores now c)
      (fun_ext λ op.
        fun_ext λ path. send_agrees n m cfg.insecure (pbs_authorization cfg) cfg.host op path agree)

-- The same of a PVE poll: the collector that its discovery leaves and what its workers bring depend on the
-- network only through requests to the API of the configured host, with the configured token, and with
-- certificates checked unless the configuration turns that off.
pub pve_poll-IsMeant :
    (fl : Float) (n m : Network) (json : PveJson fl.Carrier) (cfg : PveConfig) (clock : Str → ℕ)
    (s : PveSettings) (now : ℕ) (p q : PveCollector)
    → ((r : Request) → IsMeant cfg.insecure (pve_authorization cfg) cfg.host r → n r ≡ m r)
    → (Pve.prepare fl s (pve_served n json (new_pve_collector cfg) clock) p
        ≡ Pve.prepare fl s (pve_served m json (new_pve_collector cfg) clock) p)
      × (Pve.workers fl s now (pve_served n json (new_pve_collector cfg) clock) q
          ≡ Pve.workers fl s now (pve_served m json (new_pve_collector cfg) clock) q)
unfolding pve_served new_pve_collector pve_api_get
pve_poll-IsMeant fl n m json cfg clock s now p q agree =
    let same : (λ (op path : Str).
      send n (http_client cfg.insecure) (pve_authorization cfg) cfg.host op
        (str "/api2/json/" ++ path))
        ≡ (λ (op path : Str).
            send m (http_client cfg.insecure) (pve_authorization cfg) cfg.host op
              (str "/api2/json/" ++ path)) =
      fun_ext λ op.
        fun_ext
          λ path. send_agrees n m cfg.insecure (pve_authorization cfg) cfg.host op path agree in
    (
      ap (λ get. Pve.prepare fl s (pve_api json get clock) p) same,
      ap (λ get. Pve.workers fl s now (pve_api json get clock) q) same,
    )
