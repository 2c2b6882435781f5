-- ===== src/Startup/Tests.antt =====
-- A configuration with a webhook and a rule.
use glint.Common.{
  ℕ, ◌≡◌, refl, Bool, false, true, if◌then◌else◌, Option, none, some, List, [], ◌∷◌, arith, length,
  All, ◌↔◌, ◌++◌, ◌+◌,
}
use glint.Common.Int.{ℤ, pos, negsuc}
use glint.Common.Text.{Str, str, str_eq, is_empty}
use glint.Common.Whole.{whole}
use glint.Common.Time.{minute, hour}
use glint.Common.Result.{ok}
use glint.Config.Types.{Config, NotificationConfig, AlertsConfig}
use glint.Config.Validate.{
  validate, check_from, check_pve, check_pbs, check_notification, valid_level, valid_format,
  check_alerts, check_cpu_alert, check_guest_alert, check_backup_alert, check_datastore_alert,
}
use glint.Config.Load.{
  ReadResult, contents, load, decode, finish, apply_env_overrides, env_pve, env_pbs, env_ntfy,
  override, override_int, expand_env_vars, expand_from,
}
use glint.Alerter.State.{new_alerter}
use glint.Alerter.Rounds.{run}
use glint.Alerter.Cooldown.{IsSpaced}
use glint.Alerter.Tests.{ticks}
use glint.Startup.{alert_config}
use glint.Startup.Launch.{started}
use glint.Startup.Tickers.{Ticks, polled_every, validate-panics}
use glint.Startup.Health.{Interface, build_info, print_listen_urls, probe_url}
use glint.Client.Pool.{Pool, Steps, new_worker_pool, called, accepted, here, then_step}
use glint.Client.Rest.{times}
use glint.Startup.Wiring.{load-rest, alert_config-IsSpaced}

abbrev hook : NotificationConfig
hook = record {
  kind = str "webhook";
  url = str "https://hook";
  topic = [];
  method = [];
  headers = [];
}

abbrev rules : AlertsConfig ℤ
rules = record {
  node_cpu_high =
      some (record { threshold = pos 80; duration = pos minute; severity = str "critical" });
  guest_down = some (record { grace_period = pos hour; severity = [] });
  backup_stale = none;
  disk_smart_failed = none;
  datastore_full = none;
}

abbrev written : Config ℤ
written = record {
  listen = str ":3800";
  db_path = str "glint.db";
  log_level = str "info";
  log_format = str "text";
  history_hours = pos 48;
  worker_pool_size = pos 4;
  pve =
      record {
        name = str "pve";
        host = str "https://pve";
        token_id = str "id";
        token_secret = str "secret";
        insecure = false;
        poll_interval = pos 0;
        disk_poll_interval = pos 0;
        ssh = none;
      }
      ∷ [];
  pbs = [];
  notifications = hook ∷ [];
  alerts = rules;
}

abbrev getenv : Str → Str
getenv name = []

abbrev url_ok : Str → Bool
url_ok s = if is_empty s then false else true

abbrev read_file : Str → ReadResult
read_file path = contents (str "x")

abbrev yaml : Str → Config ℤ → Option (Config ℤ)
yaml s c = some written

loads : load whole getenv url_ok read_file yaml (str "glint.yml") ≡ ok written
unfolding load decode finish apply_env_overrides env_pve env_pbs env_ntfy override override_int
    expand_env_vars expand_from str str_eq validate check_from check_pve check_pbs
    check_notification valid_level valid_format check_alerts check_cpu_alert check_guest_alert
    check_backup_alert check_datastore_alert glint.Common.Text.parse_int
    glint.Config.Validate.not_positive
loads = refl

alert_config-IsSpaced_example :
    IsSpaced (run whole (alert_config whole rules) ticks new_alerter).fired
alert_config-IsSpaced_example =
    alert_config-IsSpaced whole rules ticks (omega arith, (omega arith, (omega arith, tt)))

validates : validate whole url_ok written ≡ none
unfolding str str_eq validate check_from check_pve check_pbs check_notification valid_level
    valid_format check_alerts check_cpu_alert check_guest_alert check_backup_alert
    check_datastore_alert glint.Config.Validate.not_positive
validates = refl

validate-panics_example :
    (validate whole url_ok (polled_every (negsuc 4) written) ≡ none)
    × (¬ All Ticks (started (λ path. true) (polled_every (negsuc 4) written)))
validate-panics_example = validate-panics whole url_ok (λ path. true) 4 written validates

-- A build with a commit of its own keeps it; the rest is filled in.
built :
    build_info (str "1.2") (str "abc") (str "unknown") (
      some (
        (str "vcs.revision", str "def")
        ∷ (str "vcs.time", str "now")
        ∷ (str "vcs.modified", str "true")
        ∷ []))
    ≡ record { ver = str "1.2"; sha = str "abc"; built = str "now"; dirty = str "dirty" }
unfolding build_info str str_eq glint.Common.fold
built = refl

probed :
    probe_url (λ s. none) (λ host port. host ++ str ":" ++ port) (str ":3800")
    ≡ str "http://127.0.0.1:3800/healthz"
unfolding probe_url str str_eq
probed = refl

abbrev lan : Interface
lan = record {
  up = true;
  loopback = false;
  addrs = some (
      some (record { text = str "192.168.1.4"; is_loopback = false; is_v4 = true })
      ∷ some (record { text = str "fe80::1"; is_loopback = false; is_v4 = false })
      ∷ []);
}

printed :
    length (print_listen_urls (λ s. some ([], str "3800")) (some (lan ∷ [])) (str ":3800")) ≡ 2
unfolding print_listen_urls str str_eq
printed = refl

-- Two calls, of which one has its slot.
abbrev two_calls : Pool
two_calls = record { capacity = 4; running = 7 ∷ []; waiting = 8 ∷ []; finished = []; refused = [] }

submitted : Steps (8 ∷ 7 ∷ []) (new_worker_pool 4) two_calls
unfolding new_worker_pool
submitted =
    then_step
      (then_step (then_step here (called _ 7) refl) (accepted _ 7 [] [] refl (omega arith)) refl)
      (called _ 8) refl

load-rest_example :
    (q : Pool) × Steps [] two_calls q
    × (q.running ≡ [])
    × (q.waiting ≡ [])
    × ((t : ℕ) → times t q.finished + times t two_calls.refused ≡ times t (8 ∷ 7 ∷ []))
load-rest_example =
    load-rest whole getenv url_ok read_file yaml (str "glint.yml") written loads submitted
