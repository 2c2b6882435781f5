-- ===== src/Scripts/Ratchet.antt =====
-- The threshold of scripts/coverage/main.go over a series of runs of the tool.
use glint.Common.{
  Bool, true, false, Option, none, some, List, [], ◌∷◌, ◌≡◌, refl, sym, ap, ◌∙◌, ◌⊎◌, inl, inr,
  arith, ◌==◌, All, Bool-cases, if◌then◌else◌,
}
use glint.Common.Int.{ℤ, ltb_ℤ, ◌≤ℤ◌, IsInt64}
use glint.Common.Text.{Str, str, fields, has_prefix, split}
use glint.Common.Decimal.{parse_int-line}
use glint.Common.Float.{Float}
use glint.Common.Result.{Result, ok, err}
use glint.Scripts.Coverage.{
  CoverageError, Run, Write, written, not_opened, cut_short, check_coverage, extract_total_coverage,
  covered, judged, measured, or_none, read_coverage_required, total_among, total_of, trim_percent,
  update_coverage_required,
}

-- The file after a series of runs, and the totals of those that passed.
module _ (fl : Float) (parse_float : Str → Option fl.Carrier) where
  unfoldable pub after : List Run → Option Str → Option Str
  unfolding check_coverage
  after [] file = file
  after (r ∷ rs) file = after rs (check_coverage fl parse_float r file).required

  unfoldable pub passing : List Run → Option Str → List ℤ
  unfolding check_coverage
  passing [] file = []
  passing (r ∷ rs) file =
      let c = check_coverage fl parse_float r file in
      let later = passing rs c.required in
      if c.exit_code == 0
      then elim (measured fl parse_float r) [ none ↦ later | some t ↦ t ∷ later ]
      else later

-- Each number is at least the one before it, the first at least the bound.
abbrev pub Rising : ℤ → List ℤ → Type 0
Rising bound [] = Unit
Rising bound (t ∷ ts) = (bound ≤ℤ t) × Rising t ts

abbrev pub last_or : ℤ → List ℤ → ℤ
last_or bound [] = bound
last_or bound (t ∷ ts) = last_or t ts

-- The write has not failed once it had the file open.
abbrev pub is_whole : Write → Bool
is_whole written = true
is_whole not_opened = true
is_whole (cut_short left) = false

-- What is printed and written reads back.
read-update :
    (t : ℤ) → IsInt64 t → read_coverage_required (some (update_coverage_required t)) ≡ ok t
unfolding read_coverage_required update_coverage_required str
read-update t h = rw (parse_int-line t h, read_coverage_required) refl

judged-cases :
    (required t : ℤ) (write : Write) (file : Option Str)
    → is_whole write ≡ true
    → IsInt64 t
    → read_coverage_required file ≡ ok required
    → ((required ≤ℤ t)
        × ((judged required t write file).exit_code ≡ 0)
        × (read_coverage_required (judged required t write file).required ≡ ok t))
      ⊎ (((judged required t write file).exit_code ≡ 1)
          × ((judged required t write file).required ≡ file))
unfolding judged
judged-cases required t written file w h e = elim (Bool-cases (ltb_ℤ required t)) [
  | inl higher ↦ rw higher (inl (ground arith, refl, read-update t h))
  | inr other ↦ rw other (elim (Bool-cases (ltb_ℤ t required)) [
    | inl lower ↦ rw lower (inr (refl, refl))
    | inr neither ↦
        let same : required ≡ t = ground arith in
        rw neither (inl (ground arith, refl, e ∙ ap ok same))
  ])
]
judged-cases required t not_opened file w h e = elim (Bool-cases (ltb_ℤ required t)) [
  | inl higher ↦ rw higher (inr (refl, refl))
  | inr other ↦ rw other (elim (Bool-cases (ltb_ℤ t required)) [
    | inl lower ↦ rw lower (inr (refl, refl))
    | inr neither ↦
        let same : required ≡ t = ground arith in
        rw neither (inl (ground arith, refl, e ∙ ap ok same))
  ])
]
judged-cases required t (cut_short left) file w h e = cc

module _ (fl : Float) (parse_float : Str → Option fl.Carrier)
    (fits : (x : fl.Carrier) → IsInt64 (fl.to_int x)) where
  abbrev Fits : Result CoverageError ℤ → Type 0
  Fits (err e) = Unit
  Fits (ok t) = IsInt64 t

  total_of-Fits : (line : Str) (parts : List Str) → Fits (total_of fl parse_float line parts)
  unfolding total_of
  total_of-Fits line [] = tt
  total_of-Fits line (a ∷ []) = tt
  total_of-Fits line (a ∷ b ∷ []) = tt
  total_of-Fits line (a ∷ b ∷ c ∷ more) = from (parse_float (trim_percent c)) refl
    where
      from :
          (o : Option fl.Carrier)
          → parse_float (trim_percent c) ≡ o
          → Fits (total_of fl parse_float line (a ∷ b ∷ c ∷ more))
      from none e = rw (e, total_of) tt
      from (some f) e = rw (e, total_of) (fits f)

  total_among-Fits : (lines : List Str) → Fits (total_among fl parse_float lines)
  unfolding total_among
  total_among-Fits [] = tt
  total_among-Fits (line ∷ rest) = elim (Bool-cases (has_prefix line (str "total:"))) [
    | inl found ↦ rw found (total_of-Fits line (fields line))
    | inr other ↦ rw other (total_among-Fits rest)
  ]

  measured-IsInt64 : (r : Run) (t : ℤ) → measured fl parse_float r ≡ some t → IsInt64 t
  unfolding measured or_none extract_total_coverage
  measured-IsInt64 r t e = from (covered r) refl
    where
      of_total : (o : Result CoverageError ℤ) → Fits o → or_none o ≡ some t → IsInt64 t
      of_total (err x) h m = cc
      of_total (ok u) h m = let same : u ≡ t = cc in rw (← same) h

      from : (o : Option Str) → covered r ≡ o → IsInt64 t
      from none c = cc
      from (some output) c =
          of_total (extract_total_coverage fl parse_float output)
            (total_among-Fits (split output b'\n')) (sym (rw (c, measured) refl) ∙ e)

  -- One run.
  check-cases :
      (r : Run) (file : Option Str) (required : ℤ)
      → is_whole r.threshold_write ≡ true
      → read_coverage_required file ≡ ok required
      → ((t : ℤ) × (measured fl parse_float r ≡ some t)
          × (required ≤ℤ t)
          × ((check_coverage fl parse_float r file).exit_code ≡ 0)
          × (read_coverage_required (check_coverage fl parse_float r file).required ≡ ok t))
        ⊎ (((check_coverage fl parse_float r file).exit_code ≡ 1)
            × ((check_coverage fl parse_float r file).required ≡ file))
  unfolding check_coverage
  check-cases r file required w e = from (measured fl parse_float r) refl
    where
      from :
          (o : Option ℤ)
          → measured fl parse_float r ≡ o
          → ((t : ℤ) × (o ≡ some t)
              × (required ≤ℤ t)
              × ((check_coverage fl parse_float r file).exit_code ≡ 0)
              × (read_coverage_required (check_coverage fl parse_float r file).required ≡ ok t))
            ⊎ (((check_coverage fl parse_float r file).exit_code ≡ 1)
                × ((check_coverage fl parse_float r file).required ≡ file))
      from none m = inr (rw (e, m, check_coverage) refl, rw (e, m, check_coverage) refl)
      from (some t) m =
          let same : check_coverage fl parse_float r file
              ≡ judged required t r.threshold_write file =
            rw (e, m, check_coverage) refl in
          elim (judged-cases required t r.threshold_write file w (measured-IsInt64 r t m) e) [
            | inl (above, passed, kept) ↦ inl (t, refl, above, rw same passed, rw same kept)
            | inr (failed, kept) ↦ inr (rw same failed, rw same kept)
          ]

  -- Over a series of runs from a threshold that can be read, in none of which the write of the threshold fails
  -- once the file is open, the coverages of the runs that pass never fall from one to the next, nor below the
  -- threshold at first, and the threshold at the end is the coverage of the last run that passed, the first
  -- threshold if none did. It holds whatever else fails in the other runs: the tests, the profile, the coverage
  -- itself, or opening the file to write. The conversion to int is taken to give an int64.
  pub after-Rising :
      (rs : List Run) (file : Option Str) (required : ℤ)
      → All (λ r. is_whole r.threshold_write ≡ true) rs
      → read_coverage_required file ≡ ok required
      → Rising required (passing fl parse_float rs file)
        × (read_coverage_required (after fl parse_float rs file)
            ≡ ok (last_or required (passing fl parse_float rs file)))
  unfolding after passing
  after-Rising [] file required w e = (tt, e)
  after-Rising (r ∷ rs) file required w e = elim (check-cases r file required w.0 e) [
    | inl (t, m, above, passed, kept) ↦
        let rest = after-Rising rs (check_coverage fl parse_float r file).required t w.1 kept in
        rw (passed, m) ((above, rest.0), rest.1)
    | inr (failed, kept) ↦ let rest = after-Rising rs file required w.1 e in rw (failed, kept) rest
  ]
