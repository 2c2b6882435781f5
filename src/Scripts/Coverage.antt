-- ===== src/Scripts/Coverage.antt =====
-- scripts/coverage/main.go. strconv.ParseFloat and the outputs of the Go toolchain are parameters.
use glint.Common.{
  ℕ, Bool, ◌||◌, ◌&&◌, not, Option, none, some, List, [], ◌∷◌, ◌++◌, filter, if◌then◌else◌,
}
use glint.Common.Int.{ℤ, ltb_ℤ}
use glint.Common.Text.{Str, str, fields, has_prefix, parse_int, show_int, split, str_eq, trim_space}
use glint.Common.Text.Split.{join}
use glint.Common.Float.{Float}
use glint.Common.Result.{Result, ok, err}

pub data CoverageError : Type 0 where
  bad_line : Str → CoverageError
  bad_number : Str → CoverageError
  no_total : CoverageError
  unreadable : CoverageError

-- `strings.Contains`.
unfoldable pub contains : Str → Str → Bool
contains [] t = has_prefix [] t
contains (c ∷ s) t = let rest = contains s t in has_prefix (c ∷ s) t || rest

-- The mode line, and any line that is not of a generated file.
unfoldable pub is_kept : Str → Bool
unfolding contains
is_kept line = has_prefix line (str "mode:") || not (contains line (str "_templ.go:"))

-- What `filterCoverageProfile` writes for a profile.
unfoldable pub filter_coverage_profile : Str → Str
unfolding is_kept
filter_coverage_profile profile = join b'\n' (filter is_kept (split profile b'\n'))

-- strings.TrimSuffix(s, "%").
unfoldable pub trim_percent : Str → Str
trim_percent [] = []
trim_percent (c ∷ []) = if str_eq (c ∷ []) (str "%") then [] else c ∷ []
trim_percent (c ∷ d ∷ s) = c ∷ trim_percent (d ∷ s)

unfoldable pub read_coverage_required : Option Str → Result CoverageError ℤ
read_coverage_required none = err unreadable
read_coverage_required (some content) = elim (parse_int 10 (trim_space content)) [
  | none ↦ err (bad_number content)
  | some v ↦ ok v
]

-- The content that `updateCoverageRequired` writes.
unfoldable pub update_coverage_required : ℤ → Str
update_coverage_required coverage = show_int coverage ++ str "\n"

module _ (fl : Float) (parse_float : Str → Option fl.Carrier) where
  -- The third field of the line with the total.
  unfoldable pub total_of : Str → List Str → Result CoverageError ℤ
  unfolding trim_percent
  total_of line (label ∷ statements ∷ coverage ∷ more) =
      elim (parse_float (trim_percent coverage)) [
        | none ↦ err (bad_number (trim_percent coverage))
        | some f ↦ ok (fl.to_int f)
      ]
  total_of line parts = err (bad_line line)

  unfoldable pub total_among : List Str → Result CoverageError ℤ
  unfolding total_of
  total_among [] = err no_total
  total_among (line ∷ rest) =
      let other = total_among rest in
      if has_prefix line (str "total:") then total_of line (fields line) else other

  unfoldable pub extract_total_coverage : Str → Result CoverageError ℤ
  unfolding total_among
  extract_total_coverage all_coverage = total_among (split all_coverage b'\n')

-- How os.WriteFile ends: with the file written, with one that it could not open, or after it has truncated the
-- file, when there is no telling what is left.
pub data Write : Type 0 where
  written : Write
  not_opened : Write
  cut_short : (left : Option Str) → Write

-- What a run of the tool finds: the directory for the reports, the tests, their profile, what
-- `go tool cover -func` prints for a filtered profile, and how the writes end.
pub record Run : Type 0 where
  pub directory_made : Bool
  pub tests_pass : Bool
  pub profile : Option Str
  pub profile_written : Bool
  pub cover : Str → Option Str
  pub threshold_write : Write

-- The content of coverage_required.txt, `none` where it cannot be read, and the exit code.
pub record Checked : Type 0 where
  pub required : Option Str
  pub exit_code : ℕ

-- The last part of main: the ratchet and the test against the threshold.
unfoldable pub judged : (required total : ℤ) → (threshold_write : Write) → Option Str → Checked
unfolding update_coverage_required
judged required total write file =
    if ltb_ℤ required total
    then elim write [
      | written ↦ record { required = some (update_coverage_required total); exit_code = 0 }
      | not_opened ↦ record { required = file; exit_code = 1 }
      | cut_short left ↦ record { required = left; exit_code = 1 }
    ]
    else if ltb_ℤ total required
    then record { required = file; exit_code = 1 }
    else record { required = file; exit_code = 0 }

-- What `go tool cover` prints, `none` where the tool ends before it has that.
unfoldable pub covered : Run → Option Str
unfolding filter_coverage_profile
covered r = elim r.profile [
  | none ↦ none
  | some profile ↦
      if r.directory_made && r.tests_pass && r.profile_written
      then r.cover (filter_coverage_profile profile)
      else none
]

unfoldable pub or_none : Result CoverageError ℤ → Option ℤ
or_none (err e) = none
or_none (ok t) = some t

module _ (fl : Float) (parse_float : Str → Option fl.Carrier) where
  -- The total of a run, `none` where the tool ends before it has one.
  unfoldable pub measured : Run → Option ℤ
  unfolding covered extract_total_coverage or_none
  measured r = elim (covered r) [
    | none ↦ none
    | some output ↦ or_none (extract_total_coverage fl parse_float output)
  ]

  unfoldable pub check_coverage : Run → Option Str → Checked
  unfolding read_coverage_required measured judged
  check_coverage r file = elim (read_coverage_required file) [
    | err e ↦ record { required = file; exit_code = 1 }
    | ok required ↦ elim (measured r) [
      | none ↦ record { required = file; exit_code = 1 }
      | some total ↦ judged required total r.threshold_write file
    ]
  ]
