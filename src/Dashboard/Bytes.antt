-- ===== src/Dashboard/Bytes.antt =====
-- templates/helpers.go: FormatBytes and HoursDisplay. `show1` is `fmt.Sprintf("%.1f", f)`.
use glint.Common.{
  ℕ, zero, suc, ◌+◌, ◌*◌, ◌/◌, ◌^◌, ◌≤◌, ◌<◌, ◌≡◌, Option, none, some, List, [], ◌∷◌, ◌++◌, leb,
  if◌then◌else◌,
}
use glint.Common.Int.{ℤ, pos, pos_part, ltb_ℤ, leb_ℤ, quot, rem}
use glint.Common.Text.{Str, str, show_int}
use glint.Common.Float.{Float}

-- The loop, with the divisor and the exponent that it ends with; an int64 takes at most 5 rounds.
unfoldable pub scale : ℕ → ℕ → ℕ → ℕ → ℕ × ℕ
scale zero n div exp = (div, exp)
scale (suc fuel) n div exp =
    let rest = scale fuel (n / 1024) (div * 1024) (exp + 1) in
    if leb 1024 n then rest else (div, exp)

-- units[exp]; `none` is the panic of an index out of range.
unfoldable pub unit_name : ℕ → Option Str
unit_name exp = nth exp (str "KB" ∷ str "MB" ∷ str "GB" ∷ str "TB" ∷ str "PB" ∷ str "EB" ∷ [])
  where
    nth : ℕ → List Str → Option Str
    nth i [] = none
    nth zero (u ∷ us) = some u
    nth (suc i) (u ∷ us) = nth i us

-- `%03d` of a number below 1000.
unfoldable pub pad3 : ℤ → Str
pad3 z =
    if ltb_ℤ z (pos 10)
    then str "00" ++ show_int z
    else if ltb_ℤ z (pos 100)
    then str "0" ++ show_int z
    else show_int z

unfoldable pub hours_display : Option ℤ → Str
hours_display none = str "--"
hours_display (some h) =
    if leb_ℤ (pos 1000) h then show_int (quot h 1000) ++ b',' ∷ pad3 (rem h 1000) else show_int h

module _ (fl : Float) (show1 : fl.Carrier → Str) where
  open fl use {Carrier, div, of_int}

  unfoldable pub format_bytes : ℤ → Option Str
  format_bytes b =
      let (by, exp) = scale 6 (pos_part b / 1024) 1024 0 in
      if ltb_ℤ b (pos 1024) then some (show_int b ++ str " B") else (elim (unit_name exp) [
        | none ↦ none
        | some unit ↦ some (show1 (div (of_int b) (of_int (pos by))) ++ b' ' ∷ unit)
      ])

-- What the loop ends with: a power of 1024 of which the number is at least one and less than 1024.
IsScaled : ℕ → ℕ × ℕ → Type 0
IsScaled b (by, exp) = (exp < 6) × (by ≡ 1024 ^ (exp + 1)) × (by ≤ b) × (b < by * 1024)
