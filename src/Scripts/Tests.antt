-- ===== src/Scripts/Tests.antt =====
-- A series of runs of the coverage tool, a small profile, and the fuzz tool with one target that fails.
use glint.Common.{
  ℕ, Bool, true, false, Option, none, some, List, [], ◌∷◌, ◌++◌, ◌≡◌, ◌↔◌, ◌⊎◌, refl, arith, All,
  filter, if◌then◌else◌,
}
use glint.Common.Int.{pos, IsInt64}
use glint.Common.Text.{Str, str, str_eq, parse_int, show_nat, split}
use glint.Common.Float.{Float}
use glint.Common.Whole.{whole}
use glint.Common.Result.{ok}
use glint.Scripts.Coverage.{
  Run, written, extract_total_coverage, filter_coverage_profile, is_kept, read_coverage_required,
}
use glint.Scripts.Ratchet.{Rising, after, after-Rising, last_or, passing}
use glint.Scripts.Filtered.{IsGenerated, IsMode, filter_coverage_profile_idem, or_blank}
use glint.Scripts.Fuzz.{execs_of, new_of}

-- Numbers up to 100 in place of float64.
abbrev small : Float
small = record whole {
  Carrier = Bool;
  of_int = λ z. true;
  to_int = λ b. if b then pos 90 else pos 70;
  ge = λ a b. a;
  gt = λ a b. a;
  add = λ a b. a;
  mul = λ a b. a;
  div = λ a b. a;
  show = λ a. [];
  hours = λ z. true;
}

abbrev parsed : Str → Option Bool
parsed s = if str_eq s (str "90.5") then some true else some false

small_fits : (x : Bool) → IsInt64 (small.to_int x)
small_fits true = (omega arith, omega arith)
small_fits false = (omega arith, omega arith)

abbrev profile : Str
profile = str "mode: set\na_templ.go:1 1\nb.go:2 1"

abbrev better : Run
better = record {
  directory_made = true;
  tests_pass = true;
  profile = some profile;
  profile_written = true;
  cover = λ filtered. some (str "b.go: f 1\ntotal: (statements) 90.5%");
  threshold_write = written;
}

abbrev worse : Run
worse = record better { cover = λ filtered. some (str "total: (statements) 70.1%") }

after-Rising_example :
    Rising (pos 80) (passing small parsed (worse ∷ better ∷ worse ∷ []) (some (str "80\n")))
    × (read_coverage_required (after small parsed (worse ∷ better ∷ worse ∷ []) (some (str "80\n")))
        ≡ ok (
            last_or
              (pos 80)
              (passing small parsed (worse ∷ better ∷ worse ∷ []) (some (str "80\n")))))
unfolding read_coverage_required parse_int glint.Common.Text.trim_space str
after-Rising_example =
    after-Rising small parsed small_fits (worse ∷ better ∷ worse ∷ []) (some (str "80\n")) (pos 80)
      (refl, (refl, (refl, tt))) refl

ends_higher : passing small parsed (worse ∷ better ∷ worse ∷ []) (some (str "80\n")) ≡ pos 90 ∷ []
unfolding passing read_coverage_required parse_int glint.Common.Text.trim_space str str_eq
    extract_total_coverage split glint.Common.Text.fields glint.Common.Text.has_prefix show_nat
    glint.Common.Text.show_int glint.Scripts.Coverage.check_coverage
ends_higher = refl

filter_coverage_profile_idem_example :
    (split (filter_coverage_profile profile) b'\n'
      ≡ or_blank (filter is_kept (split profile b'\n')))
    × ((line : Str) → (is_kept line ≡ true) ↔ (IsMode line ⊎ (¬ IsGenerated line)))
    × (filter_coverage_profile (filter_coverage_profile profile) ≡ filter_coverage_profile profile)
filter_coverage_profile_idem_example = filter_coverage_profile_idem profile

filtered : filter_coverage_profile profile ≡ str "mode: set\nb.go:2 1"
unfolding filter_coverage_profile is_kept split str glint.Common.Text.has_prefix
    glint.Common.Text.Split.join
filtered = refl

abbrev progress : Option Str
progress = some (str "fuzz: elapsed: 3s, execs: 102 (34/sec), new interesting: 12 (total: 20)")

stats : (execs_of progress ≡ (pos 102, pos 34)) × (new_of progress ≡ pos 12)
unfolding execs_of new_of str glint.Common.Text.leading_digits parse_int
stats = (refl, refl)
