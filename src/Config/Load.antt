-- ===== src/Config/Load.antt =====
-- `expandEnvVars`, `applyEnvOverrides` and `Load` of internal/config/config.go. `getenv` is os.Getenv: an
-- empty text for a variable that is not set. What the file system and the YAML decoder answer are
-- parameters.
use mathlib.Core.List.{reverse}
use glint.Common.{
  ◌*◌, String, Bool, ◌||◌, Option, none, some, List, [], ◌∷◌, ◌++◌, if◌then◌else◌, ◌==◌,
}
use glint.Common.Int.{ℤ, pos}
use glint.Common.Text.{Str, str, str_eq, is_empty, split, parse_int}
use glint.Common.Float.{Float}
use glint.Common.Result.{Result, ok, err}
use glint.Common.Time.{second, minute, hour}
use glint.Config.Types.{PveConfig, PbsConfig, NotificationConfig, Config, defaults}
use glint.Config.Validate.{ConfigError, validate}

-- Where the scan for ${NAME} stands: outside, behind a $, or in a name, whose bytes are reversed.
pub data Scan : Type 0 where
  outside : Scan
  dollar : Scan
  inside : Str → Scan

module _ (getenv : Str → Str) where
  -- The matches of \$\{([^}]+)\} from left to right; what does not match stays.
  unfoldable pub expand_from : Scan → Str → Str
  expand_from outside [] = []
  expand_from dollar [] = b'$' ∷ []
  expand_from (inside name) [] = b'$' ∷ b'{' ∷ reverse name
  expand_from outside (c ∷ s) =
      let skip = expand_from dollar s in
      let copy = c ∷ expand_from outside s in if c == b'$' then skip else copy
  expand_from dollar (c ∷ s) =
      let name = expand_from (inside []) s in
      let again = b'$' ∷ expand_from dollar s in
      let copy = b'$' ∷ c ∷ expand_from outside s in
      if c == b'{' then name else if c == b'$' then again else copy
  expand_from (inside []) (c ∷ s) =
      let empty = b'$' ∷ b'{' ∷ c ∷ expand_from outside s in
      let more = expand_from (inside (c ∷ [])) s in if c == b'}' then empty else more
  expand_from (inside (d ∷ name)) (c ∷ s) =
      let value = getenv (reverse (d ∷ name)) ++ expand_from outside s in
      let more = expand_from (inside (c ∷ d ∷ name)) s in if c == b'}' then value else more

  unfoldable pub expand_env_vars : Str → Str
  expand_env_vars s = expand_from outside s

  abbrev env : String → Str
  env name = getenv (str name)

  -- The variable's value, where it is set.
  unfoldable pub override : String → Str → Str
  override name old = if is_empty (env name) then old else env name

  unfoldable pub is_true : String → Bool
  is_true name = str_eq (env name) (str "true") || str_eq (env name) (str "1")

  unfoldable pub override_int : String → ℤ → ℤ
  override_int name old = elim (parse_int 10 (env name)) [ none ↦ old | some n ↦ n ]

  unfoldable pub env_pve : List PveConfig → List PveConfig
  env_pve (c ∷ cs) = c ∷ cs
  env_pve [] =
      if is_empty (env "GLINT_PVE_URL")
      then []
      else record {
        name = str "default";
        host = env "GLINT_PVE_URL";
        token_id = env "GLINT_PVE_TOKEN_ID";
        token_secret = env "GLINT_PVE_TOKEN_SECRET";
        insecure = is_true "GLINT_PVE_INSECURE";
        poll_interval = pos (15 * second);
        disk_poll_interval = pos hour;
        ssh = none;
      }
        ∷ []

  unfoldable pub env_pbs : List PbsConfig → List PbsConfig
  env_pbs (c ∷ cs) = c ∷ cs
  env_pbs [] =
      let ds = env "GLINT_PBS_DATASTORE" in
      if is_empty (env "GLINT_PBS_URL")
      then []
      else record {
        name = str "default";
        host = env "GLINT_PBS_URL";
        token_id = env "GLINT_PBS_TOKEN_ID";
        token_secret = env "GLINT_PBS_TOKEN_SECRET";
        insecure = is_true "GLINT_PBS_INSECURE";
        datastores = if is_empty ds then [] else split ds b',';
        poll_interval = pos (5 * minute);
      }
        ∷ []

  unfoldable pub env_ntfy : List NotificationConfig → List NotificationConfig
  env_ntfy (c ∷ cs) = c ∷ cs
  env_ntfy [] =
      let topic = env "GLINT_NTFY_TOPIC" in
      if is_empty (env "GLINT_NTFY_URL")
      then []
      else record {
        kind = str "ntfy";
        url = env "GLINT_NTFY_URL";
        topic = if is_empty topic then str "glint-alerts" else topic;
        method = [];
        headers = [];
      }
        ∷ []

  unfoldable pub apply_env_overrides : {F : Type 0} → Config F → Config F
  apply_env_overrides c = record {
    listen = override "GLINT_LISTEN" c.listen;
    db_path = override "GLINT_DB_PATH" c.db_path;
    log_level = override "GLINT_LOG_LEVEL" c.log_level;
    log_format = override "GLINT_LOG_FORMAT" c.log_format;
    history_hours = override_int "GLINT_HISTORY_HOURS" c.history_hours;
    worker_pool_size = override_int "GLINT_WORKER_POOL_SIZE" c.worker_pool_size;
    pve = env_pve c.pve;
    pbs = env_pbs c.pbs;
    notifications = env_ntfy c.notifications;
    alerts = c.alerts;
  }

pub data LoadError : Type 0 where
  config_file_not_found : Str → LoadError
  reading_config : LoadError
  parsing_config : LoadError
  config_validation : ConfigError → LoadError

-- What os.ReadFile answers.
pub data ReadResult : Type 0 where
  contents : Str → ReadResult
  not_exist : ReadResult
  read_failed : ReadResult

module _ (fl : Float) (getenv : Str → Str) (url_ok : Str → Bool) (read_file : Str → ReadResult)
    (yaml : Str → Config fl.Carrier → Option (Config fl.Carrier)) where
  open fl use {Carrier}

  -- The end of `Load`: overrides, then validation.
  unfoldable pub finish : Config Carrier → Result LoadError (Config Carrier)
  finish cfg =
      let cfg' = apply_env_overrides getenv cfg in
      elim (validate fl url_ok cfg') [ some e ↦ err (config_validation e) | none ↦ ok cfg' ]

  unfoldable pub decode : Str → Result LoadError (Config Carrier)
  unfolding finish
  decode text =
      if is_empty text
      then finish defaults
      else elim (yaml (expand_env_vars getenv text) defaults) [
        | none ↦ err parsing_config
        | some cfg ↦ finish cfg
      ]

  unfoldable pub load : Str → Result LoadError (Config Carrier)
  unfolding finish decode
  load path = if is_empty path then finish defaults else elim (read_file path) [
    | not_exist ↦ err (config_file_not_found path)
    | read_failed ↦ err reading_config
    | contents text ↦ decode text
  ]
