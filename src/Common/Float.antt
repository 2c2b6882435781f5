-- ===== src/Common/Float.antt =====
-- Go's float64 with what the program asks of it, as a parameter: the conversions and the arithmetic are
-- those of IEEE 754 in Go's runtime, the texts those of `fmt`. No law of rounding is assumed.
use mathlib.Core.Bool.{Bool}
use glint.Common.Int.{ℤ}
use glint.Common.Text.{Str}

pub record Float : Type 1 where
  pub Carrier : Type 0
  -- The value of an integer literal, and float64(n) of an int64.
  pub of_int : ℤ → Carrier
  -- int64(f), rounded towards zero.
  pub to_int : Carrier → ℤ
  pub ge : Carrier → Carrier → Bool
  pub gt : Carrier → Carrier → Bool
  pub add : Carrier → Carrier → Carrier
  pub mul : Carrier → Carrier → Carrier
  pub div : Carrier → Carrier → Carrier
  -- `fmt.Sprintf("%.0f", f)`.
  pub show : Carrier → Str
  -- `Duration.Hours()` of nanoseconds.
  pub hours : ℤ → Carrier
