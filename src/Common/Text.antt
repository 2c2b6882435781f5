-- ===== src/Common/Text.antt =====
-- Go strings as lists of bytes, and the functions of Go's `strings` and `strconv` that the program
-- calls, on ASCII text.
pub mod Split
pub mod Affix
use Prim.Native.Nat.{ℕ, zero, suc, ◌+◌, ◌-◌, ◌*◌, ◌/◌, ◌%◌}
use Prim.Native.Char.{code}
use Prim.Native.String.{String}
use mathlib.Core.Path.{◌≡◌, refl}
use mathlib.Core.Logic.{◌↔◌}
use mathlib.Core.Bool.{Bool, true, false, ◌&&◌, ◌||◌}
use mathlib.Core.Option.{Option, none, some}
use mathlib.Core.List.{List, [], ◌∷◌, ◌++◌, reverse}
use native.Mathlib.Omega.{arith}
use glint.Common.Lists.{All}
use glint.Common.Tests.{ltb, leb, ◌==◌, if◌then◌else◌, ==_iff}
use glint.Common.Int.{ℤ, pos, negsuc, max_int64}

abbrev pub Str : Type 0
Str = List ℕ

-- The bytes of a literal.
unfoldable pub str : String → Str
str String.[] = []
str (String.◌∷◌ c s) = code c ∷ str s

unfoldable pub str_eq : Str → Str → Bool
str_eq [] [] = true
str_eq (c ∷ s) (d ∷ t) = c == d && str_eq s t
str_eq _ _ = false

pub str_eq_iff : (s t : Str) → (str_eq s t ≡ true) ↔ (s ≡ t)
unfolding str_eq
str_eq_iff [] [] = (λ _. refl, λ _. refl)
str_eq_iff [] (d ∷ t) = (λ h. cc, λ h. cc)
str_eq_iff (c ∷ s) [] = (λ h. cc, λ h. cc)
str_eq_iff (c ∷ s) (d ∷ t) = ground (arith, str_eq_iff s t, ==_iff c d)

-- The test `s == ""`.
abbrev pub is_empty : Str → Bool
is_empty [] = true
is_empty (c ∷ s) = false

unfoldable pub has_prefix : Str → Str → Bool
has_prefix s [] = true
has_prefix [] (d ∷ p) = false
has_prefix (c ∷ s) (d ∷ p) = c == d && has_prefix s p

unfoldable pub has_suffix : Str → Str → Bool
unfolding has_prefix
has_suffix s p = has_prefix (reverse s) (reverse p)

abbrev pub is_digit : ℕ → Bool
is_digit c = leb b'0' c && leb c b'9'

unfoldable pub is_space : ℕ → Bool
is_space c = c == 32 || (leb 9 c && leb c 13)

unfoldable pub trim_left : Str → Str
unfolding is_space
trim_left [] = []
trim_left (c ∷ s) = let rest = trim_left s in if is_space c then rest else c ∷ s

unfoldable pub trim_space : Str → Str
unfolding trim_left
trim_space s = reverse (trim_left (reverse (trim_left s)))

unfoldable pub to_lower : Str → Str
to_lower [] = []
to_lower (c ∷ s) = (if leb b'A' c && leb c b'Z' then c + 32 else c) ∷ to_lower s

-- The pieces around each separator byte; one piece where there is none.
split_at : ℕ → Str → Str → List Str
split_at sep [] piece = reverse piece ∷ []
split_at sep (c ∷ s) piece =
    let next = split_at sep s [] in
    let more = split_at sep s (c ∷ piece) in if c == sep then reverse piece ∷ next else more

unfoldable pub split : Str → ℕ → List Str
unfolding split_at
split s sep = split_at sep s []

-- `strings.Cut` at a byte.
unfoldable pub cut : Str → ℕ → Option (Str × Str)
cut [] sep = none
cut (c ∷ s) sep =
    let rest = cut s sep in
    if c == sep then some ([], s) else elim rest [ none ↦ none | some (a, b) ↦ some (c ∷ a, b) ]

-- What comes before the first separator is what stands before any.
pub cut-append :
    (sep : ℕ) (a b : Str) → All (λ c. (c == sep) ≡ false) a → cut (a ++ sep ∷ b) sep ≡ some (a, b)
unfolding cut
cut-append sep [] b h = let e : (sep == sep) ≡ true = ground arith in rw e refl
cut-append sep (c ∷ a) b h = rw (h.0, cut-append sep a b h.1) refl

-- The text behind the last separator byte.
unfoldable pub after_last : Str → ℕ → Option Str
after_last [] sep = none
after_last (c ∷ s) sep = elim (after_last s sep) [
  | some t ↦ some t
  | none ↦ if c == sep then some s else none
]

-- `strings.ReplaceAll(s, c, "")`.
unfoldable pub remove_byte : Str → ℕ → Str
remove_byte [] d = []
remove_byte (c ∷ s) d = let rest = remove_byte s d in if c == d then rest else c ∷ rest

-- `s[:end]` behind the loop that moves `end` over the leading digits.
unfoldable pub leading_digits : Str → Str
leading_digits [] = []
leading_digits (c ∷ s) = let rest = leading_digits s in if is_digit c then c ∷ rest else []

-- The value of a byte as a digit, at most 35.
unfoldable pub digit_value : ℕ → Option ℕ
digit_value c =
    if is_digit c
    then some (c - 48)
    else if leb b'a' c && leb c b'z'
    then some (c - 87)
    else if leb b'A' c && leb c b'Z'
    then some (c - 55)
    else none

unfoldable pub digits_value : ℕ → ℕ → Str → Option ℕ
unfolding digit_value
digits_value base acc [] = some acc
digits_value base acc (c ∷ s) = elim (digit_value c) [
  | none ↦ none
  | some d ↦ if ltb d base then digits_value base (acc * base + d) s else none
]

-- `strconv.ParseUint` without its bound.
unfoldable pub parse_digits : ℕ → Str → Option ℕ
unfolding digits_value
parse_digits base [] = none
parse_digits base (c ∷ s) = digits_value base 0 (c ∷ s)

abbrev to_positive : Option ℕ → Option ℤ
to_positive none = none
to_positive (some n) = if leb n max_int64 then some (pos n) else none

abbrev to_negative : Option ℕ → Option ℤ
to_negative none = none
to_negative (some zero) = some (pos 0)
to_negative (some (suc n)) = if leb n max_int64 then some (negsuc n) else none

-- `strconv.ParseInt(s, base, 64)`; `none` is its error.
unfoldable pub parse_int : ℕ → Str → Option ℤ
unfolding parse_digits
parse_int base [] = none
parse_int base (c ∷ s) =
    if c == b'+'
    then to_positive (parse_digits base s)
    else if c == b'-'
    then to_negative (parse_digits base s)
    else to_positive (parse_digits base (c ∷ s))

-- Decimal digits, with fuel for their number.
unfoldable pub show_digits : ℕ → ℕ → Str → Str
show_digits zero n acc = acc
show_digits (suc f) n acc =
    let more = show_digits f (n / 10) ((48 + n % 10) ∷ acc) in
    if ltb n 10 then (48 + n) ∷ acc else more

-- `%d` of a natural number.
unfoldable pub show_nat : ℕ → Str
unfolding show_digits
show_nat n = show_digits (suc n) n []

-- `%d`, `strconv.Itoa`.
unfoldable pub show_int : ℤ → Str
show_int (pos n) = show_nat n
show_int (negsuc n) = b'-' ∷ show_nat (suc n)

-- `strings.Fields`.
fields_at : Str → Str → List Str
unfolding is_space
fields_at [] [] = []
fields_at [] (p ∷ piece) = reverse (p ∷ piece) ∷ []
fields_at (c ∷ s) piece =
    let next = fields_at s [] in
    let more = fields_at s (c ∷ piece) in
    if is_space c then (elim piece [ [] ↦ next | q ∷ w ↦ reverse (q ∷ w) ∷ next ]) else more

unfoldable pub fields : Str → List Str
unfolding fields_at
fields s = fields_at s []

-- s < t, by bytes.
unfoldable pub str_less : Str → Str → Bool
str_less s [] = false
str_less [] (d ∷ t) = true
str_less (c ∷ s) (d ∷ t) = let rest = str_less s t in if c == d then rest else ltb c d

pub str_less_asym : (s t : Str) → str_less s t ≡ true → str_less t s ≡ false
unfolding str_less
str_less_asym s [] h = cc
str_less_asym [] (d ∷ t) h = refl
str_less_asym (c ∷ s) (d ∷ t) h = ground (arith, str_less_asym s t)

-- `strings.TrimRight` with one byte.
trim_byte : ℕ → Str → Str
trim_byte d [] = []
trim_byte d (c ∷ s) = let rest = trim_byte d s in if c == d then rest else c ∷ s

unfoldable pub trim_right : Str → ℕ → Str
unfolding trim_byte
trim_right s d = reverse (trim_byte d (reverse s))

pub has_prefix-append : (p s : Str) → has_prefix (p ++ s) p ≡ true
unfolding has_prefix
has_prefix-append [] s = refl
has_prefix-append (c ∷ p) s = ground (arith, has_prefix-append p s)
