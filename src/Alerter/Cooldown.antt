-- ===== src/Alerter/Cooldown.antt =====
-- The deduplication of alerts by `fire` of internal/alerter/alerter.go, and what `cleanup` does to it.
use mathlib.Core.Path.{subst}
use glint.Common.{
  ℕ, ◌+◌, ◌≤◌, ◌<◌, ◌≡◌, refl, false, Option, none, some, List, [], ◌∷◌, arith, Bool-cases, inl,
  inr, All, All-map,
}
use glint.Common.Text.{Str, str, str_eq, str_eq_iff}
use glint.Common.Float.{Float}
use glint.Common.Dict.{Dict, insert, lookup, str_key, lookup-insert, lookup-keep_values, kept}
use glint.Model.{Guest, Notification}
use glint.Alerter.Config.{
  AlertConfig, ThresholdAlert, GuestAlert, BackupAlert, SimpleAlert, default_alert_config,
}
use glint.Alerter.State.{
  Alerter, Firing, new_alerter, fire, mark, clear, cleanup, in_cooldown, is_recent, max_age,
}
use glint.Alerter.Evaluate.{evaluate, check_guest}
use glint.Alerter.Steps.{
  Step, fired, marked, cleared, Steps, here, next, Allows, if-Steps, sustain-Steps,
}
use glint.Alerter.Rounds.{Tick, run, evaluate-Steps}

-- Each firing comes, after any earlier one of the same key, no sooner than the earlier one's cooldown...
abbrev After : Firing → Firing → Type 0
After f g = g.key ≡ f.key → g.at + f.cooldown ≤ f.at

-- ... where the cooldown is the one that the later call of `fire` was made with.
abbrev pub IsSpaced : List Firing → Type 0
IsSpaced [] = Unit
IsSpaced (f ∷ fs) = All (After f) fs × IsSpaced fs

-- What the alerter remembers of a firing.
abbrev Remembered : ℕ → Firing → Option ℕ → Type 0
Remembered now f none = f.at + max_age < now
Remembered now f (some t) = f.at ≤ t

abbrev Covered : ℕ → Dict Str ℕ → Firing → Type 0
Covered now m f = (f.at ≤ now) × Remembered now f (lookup f.key m)

record IsSound (now : ℕ) (a : Alerter) : Type 0 where
  covered : All (Covered now a.last_fired) a.fired
  spaced : IsSpaced a.fired

abbrev CooldownFits : ℕ → Notification → Type 0
CooldownFits c n = c ≤ max_age

Remembered-ready :
    (now c : ℕ) (f : Firing) (o : Option ℕ)
    → c ≤ max_age
    → in_cooldown o now c ≡ false
    → Remembered now f o
    → f.at + c ≤ now
unfolding in_cooldown
Remembered-ready now c f none hc h r = omega arith
Remembered-ready now c f (some t) hc h r = ground arith

module _ (now c : ℕ) (k : Str) (n : Notification) (m : Dict Str ℕ) where
  Covered-insert : (f : Firing) → Covered now m f → Covered now (insert k now m) f
  Covered-insert f h = elim (Bool-cases (str_eq k f.key)) [
    | inl e ↦ (h.0, rw (lookup-insert k f.key now m, e) h.0)
    | inr e ↦ (h.0, rw (lookup-insert k f.key now m, e) h.1)
  ]

  ready-After :
      c ≤ max_age
      → in_cooldown (lookup k m) now c ≡ false
      → (f : Firing) → Covered now m f
      → f.key ≡ k
      → f.at + c ≤ now
  ready-After hc h f cov e =
      Remembered-ready now c f (lookup k m) hc h
        (subst (λ j. Remembered now f (lookup j m)) e cov.1)

module _ {now : ℕ} where
  fire-IsSound :
      (k : Str) (c : ℕ) (n : Notification) (a : Alerter)
      → c ≤ max_age
      → IsSound now a
      → IsSound now (fire now k c n a)
  unfolding fire
  fire-IsSound k c n a hc h = elim (Bool-cases (in_cooldown (lookup k a.last_fired) now c)) [
    | inl e ↦ rw e h
    | inr e ↦ rw e (record {
      covered = (
        (
          omega arith,
          rw (lookup-insert k k now a.last_fired, (str_eq_iff k k).1 refl) (omega arith),
        ),
        All-map (Covered-insert now c k n a.last_fired) a.fired h.covered,
      );
      spaced = (All-map (ready-After now c k n a.last_fired hc e) a.fired h.covered, h.spaced);
    })
  ]

  Step-IsSound : {a b : Alerter} → Step CooldownFits now a b → IsSound now a → IsSound now b
  Step-IsSound (fired k c n a q) h = fire-IsSound k c n a q h
  Step-IsSound (marked k a e) h = unfold mark in record { covered = h.covered; spaced = h.spaced }
  Step-IsSound (cleared k a) h = unfold clear in record { covered = h.covered; spaced = h.spaced }

  Steps-IsSound : {a b : Alerter} → Steps CooldownFits now a b → IsSound now a → IsSound now b
  Steps-IsSound here h = h
  Steps-IsSound (next r s) h = Step-IsSound s (Steps-IsSound r h)

Remembered-kept :
    (now now' : ℕ) (f : Firing) (o : Option ℕ)
    → now ≤ now'
    → Remembered now f o
    → Remembered now' f (kept (is_recent now') o)
unfolding is_recent
Remembered-kept now now' f none le r = omega arith
Remembered-kept now now' f (some t) le r = elim (Bool-cases (is_recent now' t)) [
  | inl e ↦ rw e r
  | inr e ↦ rw e (unfold is_recent in ground arith)
]

cleanup-IsSound :
    (now now' : ℕ) (a : Alerter) → now ≤ now' → IsSound now a → IsSound now' (cleanup now' a)
unfolding cleanup
cleanup-IsSound now now' a le h = record {
  covered =
      All-map
        (λ f cov. (
          omega (arith, cov.0),
          rw (lookup-keep_values (is_recent now') f.key a.last_fired)
              (Remembered-kept now now' f (lookup f.key a.last_fired) le cov.1),
        ))
        a.fired h.covered;
  spaced = h.spaced;
}

-- No cooldown of the configuration exceeds 6 hours.
pub record CooldownsFit {F : Type 0} (cfg : AlertConfig F) : Type 0 where
  pub cpu : (c : ThresholdAlert F) → cfg.node_cpu_high ≡ some c → c.cooldown ≤ max_age
  pub mem : (c : ThresholdAlert F) → cfg.node_mem_high ≡ some c → c.cooldown ≤ max_age
  pub guest : (c : GuestAlert) → cfg.guest_down ≡ some c → c.cooldown ≤ max_age
  pub backup : (c : BackupAlert) → cfg.backup_stale ≡ some c → c.cooldown ≤ max_age
  pub disk : (c : SimpleAlert) → cfg.disk_smart_failed ≡ some c → c.cooldown ≤ max_age
  pub datastore : (c : ThresholdAlert F) → cfg.datastore_full ≡ some c → c.cooldown ≤ max_age

-- The instants of the rounds do not go back.
abbrev pub IsOrdered : {F : Type 0} → ℕ → List (Tick F) → Type 0
IsOrdered now [] = Unit
IsOrdered now (t ∷ ts) = (now ≤ t.now) × IsOrdered t.now ts

module _ (fl : Float) (cfg : AlertConfig fl.Carrier) (fits : CooldownsFit cfg) where
  open fl use {Carrier}

  allows : Allows CooldownFits cfg
  allows = record {
    cpu = λ c e n t. fits.cpu c e;
    mem = λ c e n t. fits.mem c e;
    backup = λ c e n t. fits.backup c e;
    smart = λ c e n t. fits.disk c e;
    scrutiny = λ c e n t. fits.disk c e;
    full = λ c e n t. fits.datastore c e;
    offline = λ c e n t. omega arith;
  }

  guest-Steps :
      (now : ℕ) (c : GuestAlert)
      → cfg.guest_down ≡ some c
      → (cluster : Str) (g : Guest Carrier) (a : Alerter)
      → Steps CooldownFits now a (check_guest fl now c cluster g a)
  unfolding check_guest
  guest-Steps now c e cluster g a =
      if-Steps (str_eq g.status (str "running")) (next here (cleared _ a))
        (sustain-Steps _ c.grace_period c.cooldown _ a (fits.guest c e))

  run_lem :
      (now : ℕ) (ts : List (Tick Carrier)) (a : Alerter)
      → IsOrdered now ts
      → IsSound now a
      → IsSpaced (run fl cfg ts a).fired
  unfolding run
  run_lem now [] a o h = h.spaced
  run_lem now (t ∷ ts) a o h = run_lem t.now ts (evaluate fl cfg t.now t.since t.snap a) o.1 (
      Steps-IsSound
        (evaluate-Steps fl cfg allows (λ c e cluster g b r. guest-Steps t.now c e cluster g b)
          t.since t.snap a)
        (cleanup-IsSound now t.now a o.0 h))

  -- With cooldowns of at most 6 hours and a clock that does not go back, whatever the snapshots show in a
  -- run from a new alerter: of two firings of one key the later comes after the earlier by at least the
  -- cooldown that it was called with.
  pub run-IsSpaced :
      (ts : List (Tick Carrier)) → IsOrdered 0 ts → IsSpaced (run fl cfg ts new_alerter).fired
  unfolding new_alerter
  run-IsSpaced ts o = run_lem 0 ts new_alerter o (record { covered = tt; spaced = tt })

-- The default rules have no cooldown of more than 6 hours.
pub default_alert_config-CooldownsFit : (fl : Float) → CooldownsFit (default_alert_config fl)
unfolding default_alert_config
default_alert_config-CooldownsFit fl = record {
  cpu = λ c e. ground arith;
  mem = λ c e. ground arith;
  guest = λ c e. ground arith;
  backup = λ c e. ground arith;
  disk = λ c e. ground arith;
  datastore = λ c e. ground arith;
}
