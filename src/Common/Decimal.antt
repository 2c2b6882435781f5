-- ===== src/Common/Decimal.antt =====
-- Reading back a printed decimal number.
use mathlib.Core.List.{reverse, reverse-append, reverse-cons, reverse-reverse}
use glint.Common.{
  All-append, inl, inr, ℕ, zero, suc, ◌+◌, ◌/◌, ◌%◌, ◌≤◌, ◌<◌, ◌≡◌, refl, ◌∙◌, true, false, some,
  [], ◌∷◌, ◌++◌, arith, ltb, Bool-cases, All,
}
use glint.Common.Int.{ℤ, pos, negsuc, max_int64, IsInt64}
use glint.Common.Text.{
  Str, is_digit, is_empty, digits_value, digit_value, show_digits, show_nat, parse_digits,
  parse_int, show_int, leading_digits, trim_space, trim_left, is_space,
}

abbrev pub AllDigits : Str → Type 0
AllDigits = All (λ c. is_digit c ≡ true)

show_digits-AllDigits : (f n : ℕ) (acc : Str) → AllDigits acc → AllDigits (show_digits f n acc)
unfolding show_digits
show_digits-AllDigits zero n acc h = h
show_digits-AllDigits (suc f) n acc h = elim (Bool-cases (ltb n 10)) [
  | inl last ↦ rw last (ground arith, h)
  | inr more ↦ rw more (show_digits-AllDigits f (n / 10) ((48 + n % 10) ∷ acc) (ground arith, h))
]

digits_value-show_digits :
    (f n : ℕ) (acc : Str) → n < f → digits_value 10 0 (show_digits f n acc) ≡ digits_value 10 n acc
unfolding show_digits digits_value digit_value
digits_value-show_digits zero n acc h = absurd (omega arith)
digits_value-show_digits (suc f) n acc h = elim (Bool-cases (ltb n 10)) [
  | inl last ↦ rw last (ground arith)
  | inr more ↦
      rw more
        (digits_value-show_digits f (n / 10) ((48 + n % 10) ∷ acc) (ground arith) ∙ ground arith)
]

show_digits-ne_nil :
    (f n : ℕ) (acc : Str) → is_empty acc ≡ false → is_empty (show_digits f n acc) ≡ false
unfolding show_digits
show_digits-ne_nil zero n acc h = h
show_digits-ne_nil (suc f) n acc h =
    ground (arith, show_digits-ne_nil f (n / 10) ((48 + n % 10) ∷ acc))

pub show_nat-ne_nil : (n : ℕ) → is_empty (show_nat n) ≡ false
unfolding show_nat
show_nat-ne_nil n = ground (arith, show_digits-ne_nil n (n / 10) ((48 + n % 10) ∷ []))

pub show_nat-AllDigits : (n : ℕ) → AllDigits (show_nat n)
unfolding show_nat
show_nat-AllDigits n = show_digits-AllDigits (suc n) n [] tt

pub leading_digits-AllDigits : (s : Str) → AllDigits s → leading_digits s ≡ s
unfolding leading_digits
leading_digits-AllDigits [] h = refl
leading_digits-AllDigits (c ∷ s) h = ground (arith, leading_digits-AllDigits s)

parse_int_digits :
    (c : ℕ) (s : Str) (n : ℕ)
    → is_digit c ≡ true
    → digits_value 10 0 (c ∷ s) ≡ some n
    → n ≤ max_int64
    → parse_int 10 (c ∷ s) ≡ some (pos n)
unfolding parse_int parse_digits
parse_int_digits c s n h v b = ground arith

-- Printing a number and parsing it gives the number back, up to the largest int64.
pub parse_int-show_nat : (n : ℕ) → n ≤ max_int64 → parse_int 10 (show_nat n) ≡ some (pos n)
parse_int-show_nat n b =
    from (show_nat n) (show_nat-AllDigits n) (show_nat-ne_nil n)
      (unfold show_nat in digits_value-show_digits (suc n) n [] (omega arith))
  where
    from :
        (s : Str)
        → AllDigits s
        → is_empty s ≡ false
        → digits_value 10 0 s ≡ digits_value 10 n []
        → parse_int 10 s ≡ some (pos n)
    from [] d e v = cc
    from (c ∷ s) d e v = parse_int_digits c s n d.0 (v ∙ unfold digits_value in refl) b

AllDigits-reverse : (s : Str) → AllDigits s → AllDigits (reverse s)
AllDigits-reverse [] h = tt
AllDigits-reverse (c ∷ s) h =
    rw (reverse-cons c s)
      (All-append (λ c. is_digit c ≡ true) (reverse s) (c ∷ []) (AllDigits-reverse s h.1) (h.0, tt))

trim_left-AllDigits : (s : Str) → AllDigits s → trim_left s ≡ s
unfolding trim_left is_space
trim_left-AllDigits [] h = refl
trim_left-AllDigits (c ∷ s) h = ground arith

pub trim_space-AllDigits : (s : Str) → AllDigits s → trim_space s ≡ s
unfolding trim_space
trim_space-AllDigits s h =
    rw (trim_left-AllDigits s h, trim_left-AllDigits (reverse s) (AllDigits-reverse s h))
      (reverse-reverse s)

abbrev AllPrinting : Str → Type 0
AllPrinting = All (λ c. is_space c ≡ false)

digits-AllPrinting : (s : Str) → AllDigits s → AllPrinting s
unfolding is_space
digits-AllPrinting [] h = tt
digits-AllPrinting (c ∷ s) h = (ground arith, digits-AllPrinting s h.1)

reverse-AllPrinting : (s : Str) → AllPrinting s → AllPrinting (reverse s)
reverse-AllPrinting [] h = tt
reverse-AllPrinting (c ∷ s) h = rw (reverse-cons c s) (
    All-append (λ c. is_space c ≡ false) (reverse s) (c ∷ []) (reverse-AllPrinting s h.1) (h.0, tt))

trim_left-AllPrinting : (s : Str) → AllPrinting s → trim_left s ≡ s
unfolding trim_left
trim_left-AllPrinting [] h = refl
trim_left-AllPrinting (c ∷ s) h = ground (arith, h.0)

-- A line without blanks, read with its line feed.
trim_space-line :
    (c : ℕ) (s : Str) → AllPrinting (c ∷ s) → trim_space ((c ∷ s) ++ b'\n' ∷ []) ≡ c ∷ s
unfolding trim_space trim_left
trim_space-line c s h =
    let kept : trim_left ((c ∷ s) ++ b'\n' ∷ []) ≡ (c ∷ s) ++ b'\n' ∷ [] = ground (arith, h.0) in
    let turned : trim_left (reverse ((c ∷ s) ++ b'\n' ∷ [])) ≡ reverse (c ∷ s) =
      rw (reverse-append (c ∷ s) (b'\n' ∷ [])) (
        unfold is_space in
        trim_left-AllPrinting (reverse (c ∷ s)) (reverse-AllPrinting (c ∷ s) h)) in
    rw (kept, turned) (reverse-reverse (c ∷ s))

show_int-AllPrinting : (z : ℤ) → AllPrinting (show_int z)
unfolding show_int
show_int-AllPrinting (pos n) = digits-AllPrinting (show_nat n) (show_nat-AllDigits n)
show_int-AllPrinting (negsuc n) =
    (unfold is_space in refl, digits-AllPrinting (show_nat (suc n)) (show_nat-AllDigits (suc n)))

parse_digits-show_nat : (n : ℕ) → parse_digits 10 (show_nat n) ≡ some n
parse_digits-show_nat n =
    from (show_nat n) (show_nat-ne_nil n)
      (unfold show_nat in digits_value-show_digits (suc n) n [] (omega arith))
  where
    from :
        (s : Str)
        → is_empty s ≡ false
        → digits_value 10 0 s ≡ digits_value 10 n []
        → parse_digits 10 s ≡ some n
    from [] e v = cc
    from (c ∷ s) e v = unfold parse_digits in (v ∙ unfold digits_value in refl)

-- Every int64 that is printed reads back.
parse_int-show_int : (z : ℤ) → IsInt64 z → parse_int 10 (show_int z) ≡ some z
unfolding show_int parse_int
parse_int-show_int (pos n) h = parse_int-show_nat n h.0
parse_int-show_int (negsuc n) h =
    rw (parse_digits-show_nat (suc n), parse_int) (ground (arith, h.1))

-- The same with a line feed behind the number, and blanks trimmed.
pub parse_int-line :
    (z : ℤ) → IsInt64 z → parse_int 10 (trim_space (show_int z ++ b'\n' ∷ [])) ≡ some z
parse_int-line z h = rw (from (show_int z) (show_int-AllPrinting z)) (parse_int-show_int z h)
  where
    from : (s : Str) → AllPrinting s → trim_space (s ++ b'\n' ∷ []) ≡ s
    from [] p = unfold trim_space trim_left is_space in refl
    from (c ∷ s) p = trim_space-line c s p
