-- ===== src/Scripts/Report.antt =====
-- `buildReport` and the end of main in scripts/fuzz/main.go.
use glint.Common.{
  ℕ, zero, suc, ◌+◌, ◌-◌, Bool, List, [], ◌∷◌, ◌++◌, ltb, length, fold, if◌then◌else◌,
}
use glint.Common.Int.{ℤ, pos, ◌+ℤ◌}
use glint.Common.Text.{Str, str, show_int, show_nat, split, trim_right}
use glint.Scripts.Fuzz.{FuzzResult, FuzzTarget, Fuzzed, fuzz_targets, run_all}

-- strings.Repeat of one byte.
repeat : ℕ → ℕ → Str
repeat zero c = []
repeat (suc n) c = c ∷ repeat n c

-- `%-ns` and `%nd`.
pad_right : ℕ → Str → Str
unfolding repeat
pad_right n s = s ++ repeat (n - length s) 32

pad_left : ℕ → Str → Str
unfolding repeat
pad_left n s = repeat (n - length s) 32 ++ s

unfoldable pub sep : Str
unfolding repeat
sep = repeat 72 b'='

thin : Str
unfolding repeat
thin = repeat 72 b'-'

status_text : FuzzResult → Str
status_text r = if r.passed then str "PASS" else str "FAIL"

-- The variables of the loop over the summary.
pub record Summary : Type 0 where
  pub text : Str
  pub total_execs : ℤ
  pub failures : ℕ

-- One row. The total is taken to stay within int64.
unfoldable pub summarise : FuzzResult → Summary → Summary
unfolding pad_right pad_left status_text
summarise r s = record {
  text =
      s.text
      ++ str "  "
      ++ pad_right 40 r.target.function
      ++ str "  "
      ++ pad_right 4 (status_text r)
      ++ str "  "
      ++ pad_left 12 (show_int r.execs)
      ++ str "  "
      ++ show_int r.new_interesting
      ++ str "\n";
  total_execs = s.total_execs +ℤ r.execs;
  failures = if r.passed then s.failures else s.failures + 1;
}

-- The line below the summary.
unfoldable pub verdict_line : ℕ → Str
verdict_line zero = str "  All targets passed.\n"
verdict_line (suc n) = str "  FAILED targets:   " ++ show_nat (suc n) ++ str "\n"

indented : List Str → Str
indented [] = []
indented (line ∷ rest) = str "    " ++ line ++ str "\n" ++ indented rest

detail : FuzzResult → Str → Str
unfolding status_text indented
detail r text =
    text
    ++ str "["
    ++ status_text r
    ++ str "] "
    ++ r.target.function
    ++ str "\n  Package:         "
    ++ r.target.dir
    ++ str "\n  Duration:        "
    ++ r.duration
    ++ str "\n  Total Execs:     "
    ++ show_int r.execs
    ++ str "\n  Execs/sec:       "
    ++ show_int r.execs_per_sec
    ++ str "\n  New Interesting: "
    ++ show_int r.new_interesting
    ++ str "\n\n  Output:\n"
    ++ indented (split (trim_right r.output b'\n') b'\n')
    ++ str "\n"

-- What the report says of its surroundings; `now` and `platform` are texts.
pub record Setting : Type 0 where
  pub now : Str
  pub go_version : Str
  pub platform : Str
  pub fuzz_time : Str

unfoldable pub heading : Setting → Str
unfolding sep thin pad_right pad_left
heading s =
    str "Glint Fuzz Testing Report\n"
    ++ sep
    ++ str "\nGenerated:   "
    ++ s.now
    ++ str "\nGo Version:  "
    ++ s.go_version
    ++ str "\nOS/Arch:     "
    ++ s.platform
    ++ str "\nFuzz Time:   "
    ++ s.fuzz_time
    ++ str " per target\n"
    ++ sep
    ++ str "\n\nSummary\n"
    ++ thin
    ++ str "\n  "
    ++ pad_right 40 (str "Target")
    ++ str "  "
    ++ pad_right 4 (str "Status")
    ++ str "  "
    ++ pad_left 12 (str "Execs")
    ++ str "  New Corpus\n"
    ++ thin
    ++ str "\n"

unfoldable pub summary_of : Setting → List FuzzResult → Summary
unfolding heading summarise
summary_of s results =
    fold summarise results (record { text = heading s; total_execs = pos 0; failures = 0 })

unfoldable pub build_report : Setting → List FuzzResult → Str
unfolding summary_of verdict_line detail thin sep
build_report s results =
    let summary = summary_of s results in
    fold detail results (
      summary.text
      ++ thin
      ++ str "\n  Total executions: "
      ++ show_int summary.total_execs
      ++ str "\n"
      ++ verdict_line summary.failures
      ++ str "\nDetailed Output\n"
      ++ sep
      ++ str "\n\n")

-- The report and the exit code of main, `report_written` where the file can be written.
unfoldable pub fuzz_main : (FuzzTarget → Fuzzed) → Setting → (report_written : Bool) → Str × ℕ
unfolding run_all build_report
fuzz_main go_test s report_written =
    let (results, failures) = run_all go_test fuzz_targets in
    (build_report s results, if report_written then (if ltb 0 failures then 1 else 0) else 1)
