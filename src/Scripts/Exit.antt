-- ===== src/Scripts/Exit.antt =====
-- The exit code and the report of scripts/fuzz/main.go.
use glint.Common.{
  ℕ, zero, suc, ◌+◌, Bool, true, not, List, [], ◌∷◌, ◌≡◌, ◌↔◌, refl, sym, ap, ◌∙◌, arith, ltb, map,
  count, fold, if◌then◌else◌, All,
}
use glint.Common.Int.{pos}
use glint.Common.Text.{Str, str}
use glint.Scripts.Fuzz.{FuzzResult, FuzzTarget, Fuzzed, fuzz_targets, run_all, run_fuzz}
use glint.Scripts.Report.{
  Setting, Summary, heading, build_report, fuzz_main, summarise, summary_of, verdict_line,
}

abbrev is_failed : FuzzResult → Bool
is_failed r = not r.passed

run_all-results :
    (go_test : FuzzTarget → Fuzzed) (ts : List FuzzTarget)
    → ((run_all go_test ts).0 ≡ map (run_fuzz go_test) ts)
      × ((run_all go_test ts).1 ≡ count is_failed (map (run_fuzz go_test) ts))
unfolding run_all
run_all-results go_test [] = (refl, refl)
run_all-results go_test (t ∷ ts) =
    let rest = run_all-results go_test ts in
    (ap (λ rs. run_fuzz go_test t ∷ rs) rest.0, ground (arith, rest.1))

summarise-failures :
    (rs : List FuzzResult) (s : Summary)
    → (fold summarise rs s).failures ≡ count is_failed rs + s.failures
unfolding fold summarise
summarise-failures [] s = omega arith
summarise-failures (r ∷ rs) s = ground (arith, summarise-failures rs (summarise r s))

count-All : (rs : List FuzzResult) → (count is_failed rs ≡ 0) ↔ All (λ r. r.passed ≡ true) rs
count-All [] = (λ h. tt, λ h. refl)
count-All (r ∷ rs) =
    let rest = count-All rs in
    (λ h. (ground arith, rest.0 (ground arith)), λ h. ground (arith, h.0, rest.1 h.1))

-- The byte by which the two verdicts differ.
abbrev third : Str → ℕ
third (a ∷ b ∷ c ∷ s) = c
third s = 0

verdict_iff : (n : ℕ) → (verdict_line n ≡ str "  All targets passed.\n") ↔ (n ≡ 0)
unfolding verdict_line str
verdict_iff zero = (λ h. refl, λ h. refl)
verdict_iff (suc n) = (
  λ h. let differ : ◌≡◌ {A = ℕ} 70 65 = ap third h in absurd (omega arith),
  λ h. absurd (omega arith),
)

exits_iff : (n : ℕ) → (◌≡◌ {A = ℕ} (if ltb 0 n then 1 else 0) 0) ↔ (n ≡ 0)
exits_iff n = ground arith

summary-failures :
    (s : Setting) (rs : List FuzzResult) → (summary_of s rs).failures ≡ count is_failed rs
unfolding summary_of
summary-failures s rs =
    omega (
      arith,
      summarise-failures rs (record { text = heading s; total_execs = pos 0; failures = 0 }),
    )

-- The result of every target, in the order of the list.
abbrev results_of : (FuzzTarget → Fuzzed) → List FuzzResult
results_of go_test = map (run_fuzz go_test) fuzz_targets

-- The tool runs every target once, in the order of the list, and reports on these results. Where the report
-- can be written, it exits with 0 exactly when all of them passed, and that is when the report says that all
-- targets passed.
fuzz_main-exit :
    (go_test : FuzzTarget → Fuzzed) (s : Setting)
    → ((fuzz_main go_test s true).0 ≡ build_report s (results_of go_test))
      × (((fuzz_main go_test s true).1 ≡ 0) ↔ All (λ r. r.passed ≡ true) (results_of go_test))
      × ((verdict_line (summary_of s (results_of go_test)).failures ≡ str "  All targets passed.\n")
          ↔ ((fuzz_main go_test s true).1 ≡ 0))
unfolding fuzz_main
fuzz_main-exit go_test s =
    let (same, failures) = run_all-results go_test fuzz_targets in
    let exits = exits_iff (run_all go_test fuzz_targets).1 in
    let passed = count-All (results_of go_test) in
    let counted = summary-failures s (results_of go_test) in
    let verdict = verdict_iff (summary_of s (results_of go_test)).failures in
    (
      ap (build_report s) same,
      (λ h. passed.0 (sym failures ∙ exits.0 h), λ h. exits.1 (failures ∙ passed.1 h)),
      (
        λ h. exits.1 (failures ∙ sym counted ∙ verdict.0 h),
        λ h. verdict.1 (counted ∙ sym failures ∙ exits.0 h),
      ),
    )
