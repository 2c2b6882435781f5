-- ===== src/Scripts/Fuzz.antt =====
-- scripts/fuzz/main.go. What `go test -fuzz` comes to is a parameter: whether it fails, what it prints and how
-- long it takes. So are the texts of the clock and of durations.
use glint.Common.{
  ℕ, zero, suc, ◌+◌, Bool, ◌||◌, ◌&&◌, not, Option, none, some, List, [], ◌∷◌, ◌==◌, length,
  if◌then◌else◌,
}
use mathlib.Core.List.{reverse}
use glint.Common.Int.{ℤ, pos, max_int64}
use glint.Common.Text.{Str, str, has_prefix, is_empty, leading_digits, parse_int, split}
use glint.Scripts.Coverage.{contains}

pub record FuzzTarget : Type 0 where
  pub function : Str
  pub dir : Str

abbrev pub target : (function dir : Str) → FuzzTarget
target function dir = record { function = function; dir = dir }

unfoldable pub fuzz_targets : List FuzzTarget
fuzz_targets =
    target (str "FuzzFormatBytes") (str "./templates/")
    ∷ target (str "FuzzBackupIDMatchesVMID") (str "./templates/")
    ∷ target (str "FuzzParseATAAttributes") (str "./internal/smart/")
    ∷ target (str "FuzzParseSCSIText") (str "./internal/smart/")
    ∷ target (str "FuzzParseNVMeText") (str "./internal/smart/")
    ∷ target (str "FuzzParseSensorsJSON") (str "./internal/collector/")
    ∷ target (str "FuzzExpandEnvVars") (str "./internal/config/")
    ∷ target (str "FuzzParseNodeStatus") (str "./internal/collector/")
    ∷ target (str "FuzzParseLoadAvg") (str "./internal/collector/")
    ∷ target (str "FuzzParseSMARTResponse") (str "./internal/collector/")
    ∷ target (str "FuzzParseGuestList") (str "./internal/collector/")
    ∷ target (str "FuzzParsePBSDatastoreUsage") (str "./internal/collector/")
    ∷ target (str "FuzzParsePBSSnapshots") (str "./internal/collector/")
    ∷ target (str "FuzzParsePBSTasks") (str "./internal/collector/")
    ∷ []

pub record FuzzResult : Type 0 where
  pub target : FuzzTarget
  pub duration : Str
  pub execs : ℤ
  pub execs_per_sec : ℤ
  pub new_interesting : ℤ
  pub passed : Bool
  pub output : Str

-- What `go test -fuzz` comes to; `duration` is printed in milliseconds.
pub record Fuzzed : Type 0 where
  pub failed : Bool
  pub output : Str
  pub duration : Str

-- `\s` of regexp: a tab, a line feed, a form feed, a carriage return or a blank.
is_blank : ℕ → Bool
is_blank c = c == 32 || c == 9 || c == 10 || c == 12 || c == 13

skip_blanks : Str → Str
unfolding is_blank
skip_blanks [] = []
skip_blanks (c ∷ s) = let rest = skip_blanks s in if is_blank c then rest else c ∷ s

-- `\s+`: at least one blank, and what follows them.
after_blanks : Str → Option Str
unfolding skip_blanks
after_blanks [] = none
after_blanks (c ∷ s) = if is_blank c then some (skip_blanks s) else none

-- s without the prefix, `none` where it has another.
strip_prefix : Str → Str → Option Str
strip_prefix s [] = some s
strip_prefix [] (d ∷ p) = none
strip_prefix (c ∷ s) (d ∷ p) = let rest = strip_prefix s p in if c == d then rest else none

unfoldable pub drop : ℕ → Str → Str
drop zero s = s
drop (suc n) [] = []
drop (suc n) (c ∷ s) = drop n s

-- `(\d+)`: the digits, at least one, and what follows them.
digits_of : Str → Option (Str × Str)
digits_of s =
    let digits = leading_digits s in
    if is_empty digits then none else some (digits, drop (length digits) s)

infixl 5 ◌>>=◌
abbrev ◌>>=◌ {ℓ κ} : {A : Type ℓ} {B : Type κ} → Option A → (A → Option B) → Option B
none >>= f = none
some a >>= f = f a

-- The match of reExecs at the start of a text.
execs_here : Str → Option (Str × Str)
unfolding strip_prefix after_blanks digits_of drop
execs_here s = do
  rest ← strip_prefix s (str "execs:")
  shown ← after_blanks rest
  execs ← digits_of shown
  behind ← after_blanks execs.1
  inside ← strip_prefix behind (str "(")
  rate ← digits_of inside
  closed ← strip_prefix rate.1 (str "/sec)")
  some (execs.0, rate.0)

-- The match of reNewInteresting at the start of a text.
new_here : Str → Option Str
unfolding strip_prefix after_blanks digits_of drop
new_here s = do
  rest ← strip_prefix s (str "new interesting:")
  shown ← after_blanks rest
  digits ← digits_of shown
  some digits.0

-- The leftmost match.
find_submatch : {A : Type 0} → (Str → Option A) → Str → Option A
find_submatch match_here [] = match_here []
find_submatch match_here (c ∷ s) =
    let later = find_submatch match_here s in
    elim (match_here (c ∷ s)) [ none ↦ later | some a ↦ some a ]

-- strconv.ParseInt of digits, whose only error is that of the range, with the largest int64 beside it.
parsed_digits : Str → ℤ
parsed_digits digits = elim (parse_int 10 digits) [ none ↦ pos max_int64 | some v ↦ v ]

is_progress : Str → Bool
is_progress line = has_prefix line (str "fuzz: elapsed:")

-- The first line of progress, in the order in which the lines are given.
first_progress : List Str → Option Str
unfolding is_progress
first_progress [] = none
first_progress (line ∷ rest) =
    let other = first_progress rest in if is_progress line then some line else other

unfoldable pub execs_of : Option Str → ℤ × ℤ
unfolding find_submatch execs_here parsed_digits
execs_of none = (pos 0, pos 0)
execs_of (some line) = elim (find_submatch execs_here line) [
  | none ↦ (pos 0, pos 0)
  | some (execs, rate) ↦ (parsed_digits execs, parsed_digits rate)
]

unfoldable pub new_of : Option Str → ℤ
unfolding find_submatch new_here parsed_digits
new_of none = pos 0
new_of (some line) = elim (find_submatch new_here line) [
  | none ↦ pos 0
  | some digits ↦ parsed_digits digits
]

unfoldable pub run_fuzz : (FuzzTarget → Fuzzed) → FuzzTarget → FuzzResult
unfolding first_progress execs_of new_of contains
run_fuzz go_test t =
    let f = go_test t in
    let line = first_progress (reverse (split f.output b'\n')) in
    let (execs, rate) = execs_of line in
    record {
      target = t;
      duration = f.duration;
      execs = execs;
      execs_per_sec = rate;
      new_interesting = new_of line;
      passed =
          not f.failed
          || (contains f.output (str "context deadline exceeded")
              && not (contains f.output (str "Failing input written to")));
      output = f.output;
    }

-- The loop of main: the results in order, and the number of failures.
unfoldable pub run_all : (FuzzTarget → Fuzzed) → List FuzzTarget → List FuzzResult × ℕ
run_all go_test [] = ([], 0)
run_all go_test (t ∷ ts) =
    let result = run_fuzz go_test t in
    let (results, failures) = run_all go_test ts in
    (result ∷ results, if result.passed then failures else failures + 1)
