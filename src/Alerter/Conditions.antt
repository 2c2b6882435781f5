-- ===== src/Alerter/Conditions.antt =====
-- Conditions that must last before an alert fires (internal/alerter/alerter.go).
use glint.Common.{
  ℕ, ◌+◌, ◌<◌, ◌≡◌, ◌≢◌, refl, sym, ◌∙◌, true, false, Option, none, some, List, [], ◌∷◌, arith,
  Bool-cases, inl, inr, All, leb,
}
use glint.Common.Text.{Str, str, str_eq, str_eq_iff, show_int}
use glint.Common.Float.{Float}
use glint.Common.Dict.{erase, lookup, str_key, lookup-erase, lookup-insert}
use glint.Model.{Guest, Notification}
use glint.Alerter.Config.{AlertConfig, ThresholdAlert, GuestAlert}
use glint.Alerter.State.{
  Alerter, new_alerter, fire, mark, clear, sustain, cleanup, in_cooldown, max_age,
  check_sustained_threshold,
}
use glint.Alerter.Notice.{key}
use glint.Alerter.Evaluate.{evaluate, check_guest}
use glint.Alerter.Steps.{Step, fired, marked, cleared, Steps, here, next, Allows}
use glint.Alerter.Rounds.{Tick, run, evaluate-Steps, IsRecent}

ne_of_str_eq : (s t : Str) → str_eq s t ≡ false → s ≢ t
ne_of_str_eq s t h e = cc ((str_eq_iff s t).1 e, h)

-- Not a notification about a guest.
abbrev Elsewhere : ℕ → Notification → Type 0
Elsewhere c n = n.alert_type ≢ str "guest_down"

Step-Elsewhere :
    {now : ℕ} {a b : Alerter}
    → Step Elsewhere now a b
    → All (λ f. Elsewhere 0 f.notification) a.fired
    → All (λ f. Elsewhere 0 f.notification) b.fired
Step-Elsewhere {now} (fired k c n a q) h =
    elim (Bool-cases (in_cooldown (lookup k a.last_fired) now c)) [
      | inl e ↦ unfold fire in rw e h
      | inr e ↦ unfold fire in rw e (q, h)
    ]
Step-Elsewhere (marked k a e) h = unfold mark in h
Step-Elsewhere (cleared k a) h = unfold clear in h

Steps-Elsewhere :
    {now : ℕ} {a b : Alerter}
    → Steps Elsewhere now a b
    → All (λ f. Elsewhere 0 f.notification) a.fired
    → All (λ f. Elsewhere 0 f.notification) b.fired
Steps-Elsewhere here h = h
Steps-Elsewhere (next r s) h = Step-Elsewhere s (Steps-Elsewhere r h)

cleanup-fired : (now : ℕ) (a : Alerter) → (cleanup now a).fired ≡ a.fired
unfolding cleanup
cleanup-fired now a = refl

sustain_after_clear :
    (now : ℕ) (k : Str) (l c : ℕ) (n : Notification) (a : Alerter)
    → let a' = sustain now k l c n (lookup k (clear k a).sustained) (clear k a) in
      (a'.fired ≡ a.fired) × (lookup k a'.sustained ≡ some now)
unfolding sustain clear mark
sustain_after_clear now k l c n a =
    rw (lookup-erase k k a.sustained, (str_eq_iff k k).1 refl)
      (refl, rw (lookup-insert k k now (erase k a.sustained), (str_eq_iff k k).1 refl) refl)

module _ (fl : Float) where
  open fl use {Carrier, ge}

  elsewhere : (cfg : AlertConfig Carrier) → Allows Elsewhere cfg
  unfolding str str_eq
  elsewhere cfg = record {
    cpu = λ c e n t q. ne_of_str_eq (str "node_cpu_high") (str "guest_down") refl (sym t ∙ q);
    mem = λ c e n t q. ne_of_str_eq (str "node_mem_high") (str "guest_down") refl (sym t ∙ q);
    backup = λ c e n t q. ne_of_str_eq (str "backup_stale") (str "guest_down") refl (sym t ∙ q);
    smart = λ c e n t q. ne_of_str_eq (str "disk_smart_failed") (str "guest_down") refl (sym t ∙ q);
    scrutiny =
        λ c e n t q. ne_of_str_eq (str "disk_scrutiny_warning") (str "guest_down") refl (sym t ∙ q);
    full = λ c e n t q. ne_of_str_eq (str "datastore_full") (str "guest_down") refl (sym t ∙ q);
    offline =
        λ c e n t q. ne_of_str_eq (str "datastore_offline") (str "guest_down") refl (sym t ∙ q);
  }

  module _ (c : GuestAlert) (long : max_age < c.grace_period) where
    waiting-Steps :
        (now : ℕ) (k : Str) (n : Notification) (a : Alerter)
        → IsRecent now a
        → Steps Elsewhere now a (sustain now k c.grace_period c.cooldown n (lookup k a.sustained) a)
    waiting-Steps now k n a r = from (lookup k a.sustained) refl
      where
        from :
            (o : Option ℕ)
            → lookup k a.sustained ≡ o
            → Steps Elsewhere now a (sustain now k c.grace_period c.cooldown n o a)
        from none e = unfold sustain in next here (marked k a e)
        from (some first) e = elim (Bool-cases (leb (first + c.grace_period) now)) [
          | inl done ↦ absurd (ground (arith, r k first e))
          | inr wait ↦ unfold sustain in rw wait here
        ]

    guest-Steps :
        (now : ℕ) (cluster : Str) (g : Guest Carrier) (a : Alerter)
        → IsRecent now a
        → Steps Elsewhere now a (check_guest fl now c cluster g a)
    unfolding check_guest
    guest-Steps now cluster g a r = elim (Bool-cases (str_eq g.status (str "running"))) [
      | inl up ↦ rw up (next here (cleared _ a))
      | inr down ↦ rw down (waiting-Steps now _ _ a r)
    ]

  module _ (cfg : AlertConfig Carrier)
      (long : (c : GuestAlert) → cfg.guest_down ≡ some c → max_age < c.grace_period) where
    silent :
        (ts : List (Tick Carrier)) (a : Alerter)
        → All (λ f. Elsewhere 0 f.notification) a.fired
        → All (λ f. Elsewhere 0 f.notification) (run fl cfg ts a).fired
    unfolding run
    silent [] a h = h
    silent (t ∷ ts) a h = silent ts (evaluate fl cfg t.now t.since t.snap a) (
        Steps-Elsewhere
          (evaluate-Steps fl cfg (elsewhere cfg)
            (λ c e cluster g b r. guest-Steps c (long c e) t.now cluster g b r) t.since t.snap a)
          (rw cleanup-fired h))

  -- With a grace period of more than 6 hours no run from a new alerter ever fires a guest_down alert,
  -- however long the guests are down: `cleanup` forgets when the condition began before it has lasted.
  pub long_grace_never_fires :
      (cfg : AlertConfig Carrier) (ts : List (Tick Carrier))
      → ((c : GuestAlert) → cfg.guest_down ≡ some c → max_age < c.grace_period)
      → All (λ f. f.notification.alert_type ≢ str "guest_down") (run fl cfg ts new_alerter).fired
  unfolding new_alerter
  long_grace_never_fires cfg ts long = silent cfg long ts new_alerter tt

  -- A guest seen running needs the whole grace period anew: the next check that sees it in another status
  -- fires nothing and notes its own instant as the first.
  pub guest_recovers :
      (now now' : ℕ) (c : GuestAlert) (cluster : Str) (up down : Guest Carrier) (a : Alerter)
      → str_eq up.status (str "running") ≡ true
      → str_eq down.status (str "running") ≡ false
      → down.vmid ≡ up.vmid
      → let a' = check_guest fl now' c cluster down (check_guest fl now c cluster up a) in
        (a'.fired ≡ a.fired)
        × (lookup (key "guest_down" cluster (show_int up.vmid)) a'.sustained ≡ some now')
  unfolding check_guest
  guest_recovers now now' c cluster up down a u d same =
      rw (u, d)
        (rw same (
          sustain_after_clear now' (key "guest_down" cluster (show_int up.vmid)) c.grace_period
            c.cooldown _ a))

  -- A value below the threshold restarts the duration: the next check of the same key with a value that
  -- reaches the threshold fires nothing and notes its own instant as the first.
  threshold_restarts :
      (now now' : ℕ) (k : Str) (low high : Carrier) (c : ThresholdAlert Carrier)
      (n n' : Notification) (a : Alerter)
      → ge low c.threshold ≡ false
      → ge high c.threshold ≡ true
      → let a' =
          check_sustained_threshold fl now' k high c n'
            (check_sustained_threshold fl now k low c n a) in
        (a'.fired ≡ a.fired) × (lookup k a'.sustained ≡ some now')
  unfolding check_sustained_threshold
  threshold_restarts now now' k low high c n n' a l h =
      rw (l, h) (sustain_after_clear now' k c.duration c.cooldown n' a)

-- Firing twice in one round has the effect of firing once, if the cooldown is positive.
fire_idem :
    (now c : ℕ) (k : Str) (n n' : Notification) (a : Alerter)
    → 0 < c
    → fire now k c n' (fire now k c n a) ≡ fire now k c n a
unfolding fire in_cooldown
fire_idem now c k n n' a pos =
    ground (arith, lookup-insert k k now a.last_fired, (str_eq_iff k k).1 refl)
