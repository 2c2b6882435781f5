-- ===== src/Smart/Scsi.antt =====
-- internal/smart/scsi.go: the two metrics in the text of `smartctl -d scsi`.
use glint.Common.{cons_some, Option, none, some, List, [], ◌∷◌, if◌then◌else◌}
use glint.Common.Int.{ℤ, pos, leb_ℤ}
use glint.Common.Text.{
  Str, str, is_empty, trim_space, to_lower, split, cut, has_prefix, remove_byte, leading_digits,
  parse_int, show_int, after_last, fields,
}
use glint.Model.{SmartAttribute}

abbrev pub scsi_temperature : ℤ
scsi_temperature = pos 300

abbrev pub scsi_power_on_hours : ℤ
scsi_power_on_hours = pos 301

unfoldable pub metric : ℤ → Str → ℤ → SmartAttribute
metric i n v = record {
  id = i;
  name = n;
  value = pos 0;
  worst = pos 0;
  threshold = pos 0;
  raw_value = v;
  raw_string = show_int v;
  status = 0;
  failure_rate = none;
}

-- `none` stands for the result `false`.
unfoldable pub extract_int_after_colon : Str → Option ℤ
extract_int_after_colon s = elim (after_last s b':') [
  | none ↦ none
  | some rest ↦
      let digits = leading_digits (trim_space rest) in
      if is_empty digits then none else parse_int 10 digits
]

-- `strconv.Atoi` and the test that the hours are not negative.
unfoldable pub hours_attribute : Option ℤ → Option SmartAttribute
hours_attribute none = none
hours_attribute (some h) =
    if leb_ℤ (pos 0) h then some (metric scsi_power_on_hours (str "Power On Hours") h) else none

unfoldable pub temperature_line : Str → Option SmartAttribute
temperature_line line = elim (extract_int_after_colon line) [
  | none ↦ none
  | some t ↦ some (metric scsi_temperature (str "Temperature") t)
]

-- The text up to the first dot.
unfoldable pub whole_part : Str → Str
whole_part s = elim (cut s b'.') [ none ↦ s | some (before, after) ↦ before ]

unfoldable pub hours_line : Str → Option SmartAttribute
hours_line line = elim (cut line b'=') [
  | none ↦ none
  | some (before, after) ↦
      hours_attribute (parse_int 10 (remove_byte (whole_part (trim_space after)) b','))
]

unfoldable pub last_field : List Str → Option Str
last_field [] = none
last_field (f ∷ []) = some f
last_field (f ∷ g ∷ fs) = last_field (g ∷ fs)

unfoldable pub clock_line : Str → Option SmartAttribute
clock_line line = elim (last_field (fields line)) [
  | none ↦ none
  | some hm ↦ elim (cut hm b':') [
    | none ↦ none
    | some (before, after) ↦ hours_attribute (parse_int 10 before)
  ]
]

-- The body of the loop: the attribute of a line, if the line has one.
unfoldable pub parse_line : Str → Option SmartAttribute
parse_line raw_line =
    let line = trim_space raw_line in
    let lower = to_lower line in
    if is_empty line
    then none
    else if has_prefix lower (str "current drive temperature:")
    then temperature_line line
    else if has_prefix lower (str "number of hours powered up")
    then hours_line line
    else if has_prefix lower (str "accumulated power on time, hours:minutes")
    then clock_line line
    else none

unfoldable pub parse_lines : List Str → List SmartAttribute
parse_lines [] = []
parse_lines (l ∷ rest) = cons_some (parse_line l) (parse_lines rest)

unfoldable pub parse_scsi_text : Str → List SmartAttribute
parse_scsi_text t = parse_lines (split t 10)
