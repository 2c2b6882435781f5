-- ===== src/Dashboard/Texts.antt =====
-- templates/helpers.go: the texts of the dashboard. `age` is time.Since in nanoseconds.
use glint.Common.{ℕ, ◌*◌, Option, none, some, [], ◌∷◌, ◌++◌, ltb, fold, if◌then◌else◌}
use glint.Common.Int.{ℤ, pos, pos_part, ltb_ℤ, leb_ℤ, eqb_ℤ, quot, rem, ◌-ℤ◌}
use glint.Common.Text.{Str, str, show_int, show_nat}
use glint.Common.Float.{Float}
use glint.Common.Dict.{Dict}
use glint.Common.Time.{second, minute, hour}
use glint.Model.{PbsTask}
use glint.Cache.{Snapshot}
use glint.Dashboard.{count_guests_by_status}
use glint.Dashboard.Lists.{count_nested}

unfoldable pub format_uptime : ℤ → Str
format_uptime secs =
    let d = quot secs 86400 in
    let h = quot (rem secs 86400) 3600 in
    let m = quot (rem secs 3600) 60 in
    if ltb_ℤ (pos 0) d
    then show_int d ++ str "d " ++ show_int h ++ str "h"
    else show_int h ++ str "h " ++ show_int m ++ str "m"

unfoldable pub format_duration : ℤ → Str
format_duration d =
    if ltb_ℤ d (pos minute)
    then show_int (quot d second) ++ str "s"
    else if ltb_ℤ d (pos hour)
    then show_int (quot d minute) ++ str "m " ++ show_int (rem (quot d second) 60) ++ str "s"
    else show_int (quot d hour) ++ str "h " ++ show_int (rem (quot d minute) 60) ++ str "m"

unfoldable pub format_age : ℤ → Str
format_age age =
    if ltb_ℤ age (pos hour)
    then show_int (quot age minute) ++ str "m"
    else if ltb_ℤ age (pos (24 * hour))
    then show_int (quot age hour) ++ str "h"
    else show_int (quot age (24 * hour)) ++ str "d"

unfoldable pub task_duration : PbsTask → Str
unfolding format_duration
task_duration t = elim t.end_time [
  | none ↦ str "running"
  | some e ↦ format_duration (of_seconds (e -ℤ t.start_time))
]
  where
    -- time.Duration(n) * time.Second.
    of_seconds : ℤ → ℤ
    of_seconds z =
        if leb_ℤ (pos 0) z
        then pos (pos_part z * second)
        else pos 0 -ℤ pos (pos_part (pos 0 -ℤ z) * second)

-- `%d nodes · %d running`, with the middle dot's two bytes.
unfoldable pub header_summary : {F : Type 0} → Snapshot F → Str
header_summary snap =
    show_nat (count_nested snap.nodes)
    ++ str " nodes "
    ++ 194 ∷ 183 ∷ []
    ++ b' ' ∷ show_nat (count_guests_by_status snap.guests).0
    ++ str " running"

-- The earliest of the polls; `none` is the zero time.
unfoldable pub earlier : ℕ → Option ℕ → Option ℕ
earlier t none = some t
earlier t (some oldest) = if ltb t oldest then some t else some oldest

unfoldable pub oldest_poll : (ℕ → ℤ) → Dict Str ℕ → Str
unfolding earlier
oldest_poll age polls = elim (fold (λ e. earlier e.1) polls none) [
  | none ↦ str "never"
  | some oldest ↦ show_int (quot (age oldest) second) ++ str "s ago"
]

-- WearoutDisplay and TempDisplay.
unfoldable pub wearout_display : Option ℤ → Str
wearout_display none = str "--"
wearout_display (some w) = show_int w ++ str "%"

unfoldable pub temp_display : Option ℤ → Str
temp_display none = str "--"
temp_display (some t) = show_int t ++ str "C"

-- IntDeref and Int64Deref.
unfoldable pub int_deref : Option ℤ → ℤ
int_deref none = pos 0
int_deref (some p) = p

module _ (fl : Float) where
  open fl use {Carrier, of_int, gt, div, mul, hours, show}

  unfoldable pub mem_pct : ℤ → ℤ → Carrier
  mem_pct used total =
      if eqb_ℤ total (pos 0)
      then of_int (pos 0)
      else mul (div (of_int used) (of_int total)) (of_int (pos 100))

  unfoldable pub format_pct : Carrier → Str
  format_pct v = show v ++ str "%"

  unfoldable pub backup_status_label : ℤ → Carrier → Str
  backup_status_label age stale_hours = if gt (hours age) stale_hours then str "Stale" else str "Ok"

  unfoldable pub backup_status_class : ℤ → Carrier → Str
  backup_status_class age stale_hours =
      if gt (hours age) stale_hours then str "chip-warn" else str "chip-ok"

  unfoldable pub float64_deref : Option Carrier → Carrier
  float64_deref none = of_int (pos 0)
  float64_deref (some p) = p

  unfoldable pub node_temp_display : Option Carrier → Str
  node_temp_display none = str "--"
  node_temp_display (some t) = show t ++ str "C"
