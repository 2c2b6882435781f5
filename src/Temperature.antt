-- ===== src/Temperature.antt =====
-- internal/collector/temperature.go. The session that runs `sensors -j` and the decoding of its output are a
-- parameter: what a poll reads is `none` for an error. Where a value has not the type that the code asserts
-- it is `none` as well.
pub mod Highest
mod Tests
use glint.Common.{
  ℕ, ◌<◌, Bool, true, false, ◌&&◌, ◌||◌, Option, none, some, List, [], ◌∷◌, ◌++◌, length, ltb,
  if◌then◌else◌, fold,
}
use glint.Common.Int.{pos}
use glint.Common.Text.{Str, str, has_prefix, has_suffix}
use glint.Common.Float.{Float}
use glint.Common.Dict.{Dict}
use glint.Cache.{Cache, Heap, update_node_temperature}

-- The decoded output: the chips, their sensors and the sensors' values.
abbrev pub Sensors : Type 0 → Type 0
Sensors F = Dict Str (Option (Dict Str (Option (Dict Str (Option F)))))

unfoldable pub is_relevant_chip : Str → Bool
is_relevant_chip name =
    has_prefix name (str "coretemp")
    || has_prefix name (str "k10temp")
    || has_prefix name (str "zenpower")
    || has_prefix name (str "acpitz")
    || has_prefix name (str "Package")

-- temp…_input.
unfoldable pub is_input : Str → Bool
is_input key = ltb 6 (length key) && has_prefix key (str "temp") && has_suffix key (str "_input")

module _ (fl : Float) where
  open fl use {Carrier, of_int, gt}

  -- `maxTemp`, with `none` where nothing has been found; then it is 0.
  unfoldable pub max_temp : Option Carrier → Carrier
  max_temp none = of_int (pos 0)
  max_temp (some t) = t

  unfoldable pub note_value : Str × Option Carrier → Option Carrier → Option Carrier
  unfolding is_input max_temp
  note_value (key, none) found = found
  note_value (key, some t) found = if is_input key && gt t (max_temp found) then some t else found

  unfoldable pub note_sensor :
      Str × Option (Dict Str (Option Carrier)) → Option Carrier → Option Carrier
  unfolding note_value
  note_sensor (name, none) found = found
  note_sensor (name, some sensor_map) found = fold note_value sensor_map found

  unfoldable pub note_chip :
      Str × Option (Dict Str (Option (Dict Str (Option Carrier)))) → Option Carrier → Option Carrier
  unfolding note_sensor is_relevant_chip
  note_chip (name, none) found = found
  note_chip (name, some chip_map) found =
      if is_relevant_chip name then fold note_sensor chip_map found else found

  -- `none` is the error that no temperature was found.
  unfoldable pub parse_sensors : Sensors Carrier → Option Carrier
  unfolding note_chip
  parse_sensors sensors = fold note_chip sensors none

  -- One poll; its errors are logged and leave the cache as it is.
  unfoldable pub collect :
      Str → Str → Option (Sensors Carrier) → Cache Carrier → Heap Carrier → Heap Carrier
  unfolding parse_sensors
  collect inst node none c h = h
  collect inst node (some sensors) c h = elim (parse_sensors sensors) [
    | none ↦ h
    | some t ↦ update_node_temperature inst node t c h
  ]
