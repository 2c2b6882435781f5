-- ===== src/Startup/Launch.antt =====
-- cmd/glint/main.go: the parts that main starts, each as a goroutine, and the intervals of their tickers. The
-- reading of an SSH key is a parameter, `key_ok`, of the key's path.
use glint.Common.{◌*◌, Bool, false, Option, none, some, List, [], ◌∷◌, ◌++◌, if◌then◌else◌}
use glint.Common.Int.{ℤ, pos, leb_ℤ}
use glint.Common.Text.{Str, str, str_eq}
use glint.Common.Time.{second, hour}
use glint.Config.Types
use glint.Config.Types.{SshConfig, Config}
use glint.Store.Rows.{Database}
use glint.Store.{Store, upsert_pve_instance, upsert_pbs_instance}
use glint.Client.Pbs.{PbsConfig}
use glint.Client.Pve.{PveConfig}
use glint.Startup.{pve_poll_interval, pve_disk_poll_interval, pbs_poll_interval}

pub data Component : Type 0 where
  pve_collector : PveConfig → Component
  temp_collector : (inst node : Str) → SshConfig → Component
  pbs_collector : PbsConfig → Component
  pruner alerter : Component
  http_server : (addr : Str) → Component

-- collCfg of the PVE collector; `is_cluster` is not set, so it is false.
unfoldable pub pve_settings : Types.PveConfig → PveConfig
pve_settings c = record {
  name = c.name;
  host = c.host;
  token_id = c.token_id;
  token_secret = c.token_secret;
  insecure = c.insecure;
  is_cluster = false;
  poll_interval = pve_poll_interval c;
  disk_poll_interval = pve_disk_poll_interval c;
}

unfoldable pub pbs_settings : Types.PbsConfig → PbsConfig
pbs_settings c = record {
  name = c.name;
  host = c.host;
  token_id = c.token_id;
  token_secret = c.token_secret;
  insecure = c.insecure;
  datastores = c.datastores;
  poll_interval = pbs_poll_interval c;
}

module _ (key_ok : Str → Bool) where
  -- The temperature collector of an instance: none without SSH, or where the key cannot be read.
  unfoldable pub start_temperature : Str → Option SshConfig → List Component
  start_temperature name none = []
  start_temperature name (some ssh) =
      if key_ok ssh.key_path then temp_collector name name ssh ∷ [] else []

  unfoldable pub start_pve : List Types.PveConfig → List Component
  unfolding start_temperature pve_settings
  start_pve [] = []
  start_pve (c ∷ cs) =
      pve_collector (pve_settings c) ∷ (start_temperature c.name c.ssh ++ start_pve cs)

  unfoldable pub start_pbs : List Types.PbsConfig → List Component
  unfolding pbs_settings
  start_pbs [] = []
  start_pbs (c ∷ cs) = pbs_collector (pbs_settings c) ∷ start_pbs cs

  -- Everything that runs in the error group, in the order of the calls.
  unfoldable pub started : {F : Type 0} → Config F → List Component
  unfolding start_pve start_pbs
  started c = start_pve c.pve ++ (start_pbs c.pbs ++ (pruner ∷ alerter ∷ http_server c.listen ∷ []))

-- The interval of a component's ticker; the server has none.
unfoldable pub ticker_interval : Component → Option ℤ
ticker_interval (pve_collector c) = some c.poll_interval
ticker_interval (temp_collector inst node ssh) = some (pos (60 * second))
ticker_interval (pbs_collector c) = some c.poll_interval
ticker_interval pruner = some (pos hour)
ticker_interval alerter = some (pos (30 * second))
ticker_interval (http_server addr) = none

-- time.NewTicker panics where its interval is not positive.
unfoldable pub ticker_panics : Option ℤ → Bool
ticker_panics none = false
ticker_panics (some interval) = leb_ℤ interval (pos 0)

-- The instances that main registers in the store; an error of it is logged.
module _ {F : Type 0} (d : Database F) (carried : Str → Bool) where
  unfoldable pub register_pve : List Types.PveConfig → Store d → Store d
  register_pve [] s = s
  register_pve (c ∷ cs) s =
      register_pve cs (upsert_pve_instance d (carried c.name) c.name c.host false [] s).1

  unfoldable pub register_pbs : List Types.PbsConfig → Store d → Store d
  register_pbs [] s = s
  register_pbs (c ∷ cs) s =
      register_pbs cs (upsert_pbs_instance d (carried c.name) c.name c.host s).1

-- The levels of log/slog.
pub data LogLevel : Type 0 where
  debug info warn error : LogLevel

unfoldable pub log_level : Str → LogLevel
log_level s =
    if str_eq s (str "debug")
    then debug
    else if str_eq s (str "warn")
    then warn
    else if str_eq s (str "error")
    then error
    else info
