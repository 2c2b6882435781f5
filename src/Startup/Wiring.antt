-- ===== src/Startup/Wiring.antt =====
-- The configuration, the providers and the alerter together.
use glint.Common.{
  suc, ◌≡◌, refl, inl, inr, Option, some, List, [], ◌∷◌, arith, All, length, ap, Bool, false, ℕ,
  ◌+◌, ◌≤◌,
}
use glint.Common.Text.{Str, str, str_eq, str_eq_iff}
use glint.Common.Int.{pos_part}
use glint.Common.Float.{Float}
use glint.Client.Pool.{Pool, Steps, new_worker_pool}
use glint.Client.Rest.{Steps-rest, times}
use glint.Common.Result.{ok}
use glint.Config.Types.{NotificationConfig, Config, AlertsConfig}
use glint.Config.Load.{load, ReadResult}
use glint.Config.Usable.{NotificationOk, load-IsUsable}
use glint.Alerter.Config.{default_alert_config}
use glint.Alerter.State.{new_alerter}
use glint.Alerter.Rounds.{Tick, run}
use glint.Alerter.Cooldown.{CooldownsFit, IsSpaced, IsOrdered, run-IsSpaced}
use glint.Notify.{Provider}
use glint.Startup.{
  build_provider, build_providers, alert_config, set_cpu, set_guest, set_backup, set_datastore,
}

NotificationOk-build :
    (n : NotificationConfig) → NotificationOk n → (p : Provider) × (build_provider n ≡ some p)
unfolding build_provider
NotificationOk-build n (inl (e, h, t)) = rw ((str_eq_iff n.kind (str "ntfy")).1 e) (_, refl)
NotificationOk-build n (inr (e, h)) =
    let other : str_eq n.kind (str "ntfy") ≡ false = rw e (unfold str str_eq in refl) in
    rw (other, (str_eq_iff n.kind (str "webhook")).1 e) (_, refl)

build_providers_lem :
    (ns : List NotificationConfig) → All NotificationOk ns → length (build_providers ns) ≡ length ns
unfolding build_providers
build_providers_lem [] h = refl
build_providers_lem (n ∷ ns) h =
    let (p, e) = NotificationOk-build n h.0 in rw e (ap suc (build_providers_lem ns h.1))

module _ (fl : Float) where
  open fl use {Carrier}

  -- A configured rule keeps the default's cooldown.
  alert_config-CooldownsFit : (a : AlertsConfig Carrier) → CooldownsFit (alert_config fl a)
  unfolding alert_config default_alert_config set_cpu set_guest set_backup set_datastore
  alert_config-CooldownsFit a = record {
    cpu = λ c e. ground arith;
    mem = λ c e. ground arith;
    guest = λ c e. ground arith;
    backup = λ c e. ground arith;
    disk = λ c e. ground arith;
    datastore = λ c e. ground arith;
  }

  module _ (getenv : Str → Str) (url_ok : Str → Bool) (read_file : Str → ReadResult)
      (yaml : Str → Config Carrier → Option (Config Carrier)) where
    -- Every notification entry of a configuration that `Load` returns has its provider: none is dropped.
    load-build_providers :
        (path : Str) (c : Config Carrier)
        → load fl getenv url_ok read_file yaml path ≡ ok c
        → length (build_providers c.notifications) ≡ length c.notifications
    load-build_providers path c h =
        build_providers_lem c.notifications
          (load-IsUsable fl getenv url_ok read_file yaml path c h).notifications

    -- The worker pool that main makes with a configuration that `Load` returns never gets stuck: from every
    -- state that it reaches it can come to rest without another call and without refusing a task, and then
    -- every task that was submitted has ended, once for each call, but for those that were refused before.
    pub load-rest :
        (path : Str) (c : Config Carrier) {ts : List ℕ} {p : Pool}
        → load fl getenv url_ok read_file yaml path ≡ ok c
        → Steps ts (new_worker_pool (pos_part c.worker_pool_size)) p
        → (q : Pool) × Steps [] p q
          × (q.running ≡ [])
          × (q.waiting ≡ [])
          × ((t : ℕ) → times t q.finished + times t p.refused ≡ times t ts)
    load-rest path c h steps =
        let usable = load-IsUsable fl getenv url_ok read_file yaml path c h in
        let size : 1 ≤ pos_part c.worker_pool_size = omega (arith, usable.workers) in
        Steps-rest (pos_part c.worker_pool_size) size steps

-- Whatever the configuration sets, the program's alerter spaces its alerts: in a run from a new alerter,
-- with a clock that does not go back, of two firings of one key the later comes after the earlier by at
-- least the cooldown that it was called with.
pub alert_config-IsSpaced :
    (fl : Float) (a : AlertsConfig fl.Carrier) (ts : List (Tick fl.Carrier))
    → IsOrdered 0 ts
    → IsSpaced (run fl (alert_config fl a) ts new_alerter).fired
alert_config-IsSpaced fl a ts o =
    run-IsSpaced fl (alert_config fl a) (alert_config-CooldownsFit fl a) ts o
