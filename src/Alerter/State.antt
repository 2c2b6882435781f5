-- ===== src/Alerter/State.antt =====
-- The state of the alerter and the operations that change it. `now.Sub(t) >= d` is written t + d ≤ now:
-- the instants are readings of one clock and durations do not come near Go's 292 years.
use glint.Common.{
  ℕ, ◌+◌, ◌*◌, ◌/◌, Bool, false, not, Option, none, some, List, [], ◌∷◌, map, if◌then◌else◌, ltb,
  leb,
}
use glint.Common.Text.{Str}
use glint.Common.Float.{Float}
use glint.Common.Dict.{Dict, lookup, insert, erase, keep_values, str_key}
use glint.Common.Time.{second, hour}
use glint.Model.{Notification}
use glint.Alerter.Config.{ThresholdAlert}

-- One passage of `fire` beyond its cooldown test.
pub record Firing : Type 0 where
  pub key : Str
  pub at : ℕ
  pub cooldown : ℕ
  pub notification : Notification

-- `fired` collects what left the alerter, the latest first.
pub record Alerter : Type 0 where
  pub last_fired : Dict Str ℕ
  pub sustained : Dict Str ℕ
  pub fired : List Firing

unfoldable pub new_alerter : Alerter
new_alerter = record { last_fired = []; sustained = []; fired = [] }

-- The calls that a firing makes, in order. Their errors are logged and change nothing.
pub data Call : Type 0 where
  insert_alert : (ts : ℕ) (alert_type instance_name subject message severity : Str) → Call
  send : (provider : Str) → Notification → Call

-- `now.Unix()` of an instant.
abbrev pub unix : ℕ → ℕ
unix now = now / second

unfoldable pub deliver : List Str → Firing → List Call
deliver providers f =
    let n = f.notification in
    insert_alert (unix f.at) n.alert_type n.instance_name n.subject n.message n.severity
    ∷ map (λ p. send p n) providers

unfoldable pub in_cooldown : Option ℕ → ℕ → ℕ → Bool
in_cooldown none now cooldown = false
in_cooldown (some last) now cooldown = ltb now (last + cooldown)

unfoldable pub fire : ℕ → Str → ℕ → Notification → Alerter → Alerter
unfolding in_cooldown
fire now key cooldown notif a =
    if in_cooldown (lookup key a.last_fired) now cooldown then a else record a {
      last_fired = insert key now a.last_fired;
      fired = record { key = key; at = now; cooldown = cooldown; notification = notif } ∷ a.fired;
    }

-- a.sustained[key] = now
unfoldable pub mark : ℕ → Str → Alerter → Alerter
mark now key a = record a { sustained = insert key now a.sustained }

-- delete(a.sustained, key)
unfoldable pub clear : Str → Alerter → Alerter
clear key a = record a { sustained = erase key a.sustained }

-- Fire once the condition has lasted, and note the instant at which it was first seen.
unfoldable pub sustain : ℕ → Str → ℕ → ℕ → Notification → Option ℕ → Alerter → Alerter
sustain now key lasting cooldown notif none a = mark now key a
sustain now key lasting cooldown notif (some first) a =
    if leb (first + lasting) now then fire now key cooldown notif a else a

abbrev pub max_age : ℕ
max_age = 6 * hour

unfoldable pub is_recent : ℕ → ℕ → Bool
is_recent now t = not (ltb (t + max_age) now)

unfoldable pub cleanup : ℕ → Alerter → Alerter
unfolding is_recent
cleanup now a = record a {
  last_fired = keep_values (is_recent now) a.last_fired;
  sustained = keep_values (is_recent now) a.sustained;
}

module _ (fl : Float) where
  open fl use {Carrier, ge}

  unfoldable pub check_sustained_threshold :
      ℕ → Str → Carrier → ThresholdAlert Carrier → Notification → Alerter → Alerter
  check_sustained_threshold now key value cfg notif a =
      if ge value cfg.threshold
      then sustain now key cfg.duration cfg.cooldown notif (lookup key a.sustained) a
      else clear key a
