-- ===== src/Common/Whole.antt =====
-- Whole numbers in place of float64, for tests and examples.
use Prim.Native.Nat.{◌+◌, ◌*◌, ◌/◌}
use glint.Common.Int.{ℤ, pos, pos_part, neg_part, sub_ℕ, ltb_ℤ, leb_ℤ, ◌+ℤ◌}
use glint.Common.Text.{show_int}
use glint.Common.Float.{Float}

abbrev pub times : ℤ → ℤ → ℤ
times a b =
    sub_ℕ (pos_part a * pos_part b + neg_part a * neg_part b)
      (pos_part a * neg_part b + neg_part a * pos_part b)

abbrev pub whole : Float
whole = record {
  Carrier = ℤ;
  of_int = λ z. z;
  to_int = λ z. z;
  ge = λ a b. leb_ℤ b a;
  gt = λ a b. ltb_ℤ b a;
  add = λ a b. a +ℤ b;
  mul = times;
  div = λ a b. pos (pos_part a / pos_part b);
  show = show_int;
  hours = λ z. pos (pos_part z / 3600000000000);
}
