-- ===== src/Config/Usable.antt =====
-- What a configuration that passes `Validate` is, written without the order of the checks.
use mathlib.Core.Path.{subst}
use glint.Common.{
  ℕ, suc, ◌≡◌, ◌≢◌, ◌↔◌, ◌⊎◌, refl, Bool, true, false, not, Option, none, some, List, [], ◌∷◌,
  arith, All,
}
use glint.Common.Int.{ℤ, pos, ltb_ℤ, ◌≤ℤ◌}
use glint.Common.Text.{Str, str, str_eq_iff, is_empty}
use glint.Common.Float.{Float}
use glint.Common.Result.{ok}
use glint.Config.Types.{
  PveConfig, PbsConfig, NotificationConfig, AlertNodeCpuHigh, AlertGuestDown, AlertBackupStale,
  AlertDatastoreFull, AlertsConfig, Config,
}
use glint.Config.Validate.{
  ConfigError, reject, or_else, check_pve, check_pbs, check_notification, check_from, valid_level,
  valid_format, not_positive, check_alerts, check_cpu_alert, check_guest_alert, check_backup_alert,
  check_datastore_alert, validate,
}
use glint.Config.Load.{load, decode, finish, ReadResult}

abbrev pub Given : Str → Type 0
Given s = is_empty s ≡ false

abbrev pub PveOk : (Str → Bool) → PveConfig → Type 0
PveOk url_ok c =
    Given c.host × (url_ok c.host ≡ true) × Given c.token_id × Given c.token_secret × Given c.name

abbrev pub PbsOk : PbsConfig → Type 0
PbsOk c = Given c.host × Given c.token_id × Given c.token_secret × Given c.name

abbrev pub NotificationOk : NotificationConfig → Type 0
NotificationOk n =
    ((n.kind ≡ str "ntfy") × Given n.url × Given n.topic) ⊎ ((n.kind ≡ str "webhook") × Given n.url)

-- An optional rule satisfies the predicate, where it is set.
abbrev pub WhereSet {ℓ} : {A : Type ℓ} → (A → Type 0) → Option A → Type 0
WhereSet P none = Unit
WhereSet P (some a) = P a

check_pve_iff :
    (url_ok : Str → Bool) (i : ℕ) (c : PveConfig) → (check_pve url_ok i c ≡ none) ↔ PveOk url_ok c
unfolding check_pve
check_pve_iff url_ok i c = ground arith

check_pbs_iff : (i : ℕ) (c : PbsConfig) → (check_pbs i c ≡ none) ↔ PbsOk c
unfolding check_pbs
check_pbs_iff i c = ground arith

webhook_ne_ntfy : str "webhook" ≢ str "ntfy"
unfolding str
webhook_ne_ntfy e = cc

check_notification_iff :
    (i : ℕ) (n : NotificationConfig) → (check_notification i n ≡ none) ↔ NotificationOk n
unfolding check_notification
check_notification_iff i n =
    ground
      (arith, str_eq_iff n.kind (str "ntfy"), str_eq_iff n.kind (str "webhook"), webhook_ne_ntfy)

check_from_iff :
    {A : Type 0} (P : A → Type 0) (f : ℕ → A → Option ConfigError)
    → ((i : ℕ) (x : A) → (f i x ≡ none) ↔ P x)
    → (i : ℕ) (xs : List A) → (check_from f i xs ≡ none) ↔ All P xs
unfolding check_from
check_from_iff P f h i [] = (λ _. tt, λ _. refl)
check_from_iff P f h i (x ∷ xs) =
    let rest = check_from_iff P f h (suc i) xs in
    (
      λ e. ((h i x).0 (ground (arith, e)), rest.0 (ground (arith, e))),
      λ a. ground (arith, (h i x).1 a.0, rest.1 a.1),
    )

or_else_iff :
    {P R : Type 0} (o rest : Option ConfigError)
    → (o ≡ none) ↔ P
    → (rest ≡ none) ↔ R
    → (or_else o rest ≡ none) ↔ (P × R)
or_else_iff none rest p r = (λ e. (p.0 refl, r.0 e), λ q. r.1 q.1)
or_else_iff (some e) rest p r = (λ h. cc, λ q. cc (p.1 q.0))

reject_iff :
    {P R : Type 0} (b : Bool) (e : ConfigError) (rest : Option ConfigError)
    → (b ≡ false) ↔ P
    → (rest ≡ none) ↔ R
    → (reject b e rest ≡ none) ↔ (P × R)
reject_iff true e rest p r = (λ h. cc, λ q. cc (p.1 q.0))
reject_iff false e rest p r = (λ h. (p.0 refl, r.0 h), λ q. r.1 q.1)

not_iff : (b : Bool) → (not b ≡ false) ↔ (b ≡ true)
not_iff b = ground arith

at_least_one : (z : ℤ) → (ltb_ℤ z (pos 1) ≡ false) ↔ (pos 1 ≤ℤ z)
at_least_one z = ground arith

module _ (fl : Float) where
  open fl use {Carrier, of_int, ge}

  abbrev pub Positive : Carrier → Type 0
  Positive t = ge (of_int (pos 0)) t ≡ false

  -- A configuration that can be used.
  pub record IsUsable (url_ok : Str → Bool) (c : Config Carrier) : Type 0 where
    pub some_pve : c.pve ≢ []
    pub pve : All (PveOk url_ok) c.pve
    pub pbs : All PbsOk c.pbs
    pub notifications : All NotificationOk c.notifications
    pub level : valid_level c.log_level ≡ true
    pub format : valid_format c.log_format ≡ true
    pub history : pos 1 ≤ℤ c.history_hours
    pub workers : pos 1 ≤ℤ c.worker_pool_size
    pub cpu_alert :
        WhereSet (λ a. Positive a.threshold × (pos 1 ≤ℤ a.duration)) c.alerts.node_cpu_high
    pub guest_alert : WhereSet (λ a. pos 1 ≤ℤ a.grace_period) c.alerts.guest_down
    pub backup_alert : WhereSet (λ a. pos 1 ≤ℤ a.max_age) c.alerts.backup_stale
    pub datastore_alert : WhereSet (λ a. Positive a.threshold) c.alerts.datastore_full

  abbrev AlertsOk : AlertsConfig Carrier → Type 0
  AlertsOk a =
      WhereSet (λ x. Positive x.threshold × (pos 1 ≤ℤ x.duration)) a.node_cpu_high
      × WhereSet (λ x. pos 1 ≤ℤ x.grace_period) a.guest_down
      × WhereSet (λ x. pos 1 ≤ℤ x.max_age) a.backup_stale
      × WhereSet (λ x. Positive x.threshold) a.datastore_full

  cpu_iff :
      (o : Option (AlertNodeCpuHigh Carrier))
      → (check_cpu_alert fl o ≡ none)
        ↔ WhereSet (λ x. Positive x.threshold × (pos 1 ≤ℤ x.duration)) o
  unfolding check_cpu_alert not_positive
  cpu_iff none = (λ _. tt, λ _. refl)
  cpu_iff (some a) = ground arith

  guest_iff :
      (o : Option AlertGuestDown)
      → (check_guest_alert fl o ≡ none) ↔ WhereSet (λ x. pos 1 ≤ℤ x.grace_period) o
  unfolding check_guest_alert
  guest_iff none = (λ _. tt, λ _. refl)
  guest_iff (some a) = ground arith

  backup_iff :
      (o : Option AlertBackupStale)
      → (check_backup_alert fl o ≡ none) ↔ WhereSet (λ x. pos 1 ≤ℤ x.max_age) o
  unfolding check_backup_alert
  backup_iff none = (λ _. tt, λ _. refl)
  backup_iff (some a) = ground arith

  datastore_iff :
      (o : Option (AlertDatastoreFull Carrier))
      → (check_datastore_alert fl o ≡ none) ↔ WhereSet (λ x. Positive x.threshold) o
  unfolding check_datastore_alert not_positive
  datastore_iff none = (λ _. tt, λ _. refl)
  datastore_iff (some a) = ground arith

  alerts_iff : (a : AlertsConfig Carrier) → (check_alerts fl a ≡ none) ↔ AlertsOk a
  unfolding check_alerts
  alerts_iff a =
      let i = or_else_iff (check_cpu_alert fl a.node_cpu_high) _ (cpu_iff a.node_cpu_high) (
        or_else_iff (check_guest_alert fl a.guest_down) _ (guest_iff a.guest_down) (
          or_else_iff (check_backup_alert fl a.backup_stale) _ (backup_iff a.backup_stale)
            (datastore_iff a.datastore_full))) in
      (λ e. let q = i.0 e in (q.0, q.1.0, q.1.1.0, q.1.1.1), λ q. i.1 (q.0, (q.1, (q.2, q.3))))

  -- The checks after the first on the PVE list, with what each requires.
  validate_rest_iff :
      (url_ok : Str → Bool) (c : Config Carrier) (p : PveConfig) (ps : List PveConfig)
      → c.pve ≡ p ∷ ps
      → (validate fl url_ok c ≡ none) ↔ (
          All (PveOk url_ok) (p ∷ ps)
          × (All PbsOk c.pbs
              × (All NotificationOk c.notifications
                  × ((valid_level c.log_level ≡ true)
                      × ((valid_format c.log_format ≡ true)
                          × ((pos 1 ≤ℤ c.history_hours)
                              × ((pos 1 ≤ℤ c.worker_pool_size) × AlertsOk c.alerts)))))))
  unfolding validate
  validate_rest_iff url_ok c p ps e =
      rw (e, validate)
        (or_else_iff (check_from (check_pve url_ok) 0 (p ∷ ps)) _
          (check_from_iff (PveOk url_ok) (check_pve url_ok) (check_pve_iff url_ok) 0 (p ∷ ps))
          (or_else_iff (check_from check_pbs 0 c.pbs) _
            (check_from_iff PbsOk check_pbs check_pbs_iff 0 c.pbs)
            (or_else_iff (check_from check_notification 0 c.notifications) _
              (check_from_iff NotificationOk check_notification check_notification_iff 0
                c.notifications)
              (reject_iff _ _ _ (not_iff (valid_level c.log_level)) (
                reject_iff _ _ _ (not_iff (valid_format c.log_format)) (
                  reject_iff _ _ _ (at_least_one c.history_hours)
                    (reject_iff _ _ _ (at_least_one c.worker_pool_size) (alerts_iff c.alerts))))))))

  no_pve_refused :
      (url_ok : Str → Bool) (c : Config Carrier) → c.pve ≡ [] → validate fl url_ok c ≢ none
  unfolding validate
  no_pve_refused url_ok c e h = ground (arith, e)

  alerts_ok : (url_ok : Str → Bool) (c : Config Carrier) → IsUsable url_ok c → AlertsOk c.alerts
  alerts_ok url_ok c u = (u.cpu_alert, u.guest_alert, u.backup_alert, u.datastore_alert)

  -- The validation returns no error exactly when the configuration can be used.
  pub validate_iff :
      (url_ok : Str → Bool) (c : Config Carrier) → (validate fl url_ok c ≡ none) ↔ IsUsable url_ok c
  validate_iff url_ok c = from c.pve refl
    where
      from : (l : List PveConfig) → c.pve ≡ l → (validate fl url_ok c ≡ none) ↔ IsUsable url_ok c
      from [] e = (λ h. absurd (no_pve_refused url_ok c e h), λ u. absurd (u.some_pve e))
      from (p ∷ ps) e =
          let i = validate_rest_iff url_ok c p ps e in
          (
            λ h.
                let q = i.0 h in
                record {
                  some_pve = λ n. cc (n, e);
                  pve = rw e q.0;
                  pbs = q.1.0;
                  notifications = q.1.1.0;
                  level = q.1.1.1.0;
                  format = q.1.1.1.1.0;
                  history = q.1.1.1.1.1.0;
                  workers = q.1.1.1.1.1.1.0;
                  cpu_alert = q.1.1.1.1.1.1.1.0;
                  guest_alert = q.1.1.1.1.1.1.1.1;
                  backup_alert = q.1.1.1.1.1.1.1.2;
                  datastore_alert = q.1.1.1.1.1.1.1.3;
                },
            λ u. i.1 (
              subst (All (PveOk url_ok)) e u.pve,
              (
                u.pbs,
                (
                  u.notifications,
                  (u.level, (u.format, (u.history, (u.workers, alerts_ok url_ok c u)))),
                ),
              ),
            ),
          )

  -- What `Load` returns without an error can be used, however the file, the decoder and the environment
  -- answer.
  pub load-IsUsable :
      (getenv : Str → Str) (url_ok : Str → Bool) (read_file : Str → ReadResult)
      (yaml : Str → Config Carrier → Option (Config Carrier)) (path : Str) (c : Config Carrier)
      → load fl getenv url_ok read_file yaml path ≡ ok c
      → IsUsable url_ok c
  unfolding load decode finish
  load-IsUsable getenv url_ok read_file yaml path c h = (validate_iff url_ok c).0 (ground arith)
