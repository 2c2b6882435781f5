-- ===== src/Smart/Nvme.antt =====
-- internal/smart/nvme.go: the attributes in the text of smartctl for an NVMe drive.
use glint.Common.{cons_some, ℕ, String, Option, none, some, List, [], ◌∷◌, if◌then◌else◌}
use glint.Common.Int.{ℤ, pos}
use glint.Common.Text.{
  Str, str, is_empty, trim_space, to_lower, split, cut, has_prefix, remove_byte, leading_digits,
  parse_int,
}
use glint.Common.Dict.{Dict, lookup, str_key}
use glint.Model.{SmartAttribute}
use glint.Smart.Ata.{or_zero}

-- The pseudo attribute ids.
abbrev pub nvme_temperature : ℤ
nvme_temperature = pos 2

abbrev pub nvme_percentage_used : ℤ
nvme_percentage_used = pos 5

abbrev pub nvme_power_on_hours : ℤ
nvme_power_on_hours = pos 8

pub record NvmeField : Type 0 where
  pub id : ℤ
  pub name : Str

abbrev field : String → ℕ → String → Str × NvmeField
field label i n = (str label, record { id = pos i; name = str n })

unfoldable pub nvme_field_map : Dict Str NvmeField
nvme_field_map =
    field "critical warning" 1 "Critical Warning"
    ∷ field "temperature" 2 "Temperature"
    ∷ field "available spare" 3 "Available Spare"
    ∷ field "available spare threshold" 4 "Available Spare Threshold"
    ∷ field "percentage used" 5 "Percentage Used"
    ∷ field "data units read" 6 "Data Units Read"
    ∷ field "data units written" 7 "Data Units Written"
    ∷ field "power on hours" 8 "Power On Hours"
    ∷ field "media and data integrity errors" 9 "Media Errors"
    ∷ field "error information log entries" 10 "Error Log Entries"
    ∷ []

-- The two bytes of a prefix taken off.
abbrev drop_two : Str → Str
drop_two (a ∷ b ∷ s) = s
drop_two s = s

unfoldable pub parse_nvme_value : Str → ℤ × Str
unfolding or_zero
parse_nvme_value value =
    let s = trim_space value in
    let digits = leading_digits (remove_byte s b',') in
    if is_empty s
    then (pos 0, [])
    else if has_prefix s (str "0x")
    then (or_zero (parse_int 16 (drop_two s)), s)
    else if is_empty digits
    then (pos 0, s)
    else (or_zero (parse_int 10 digits), s)

unfoldable pub nvme_attribute : NvmeField → Str → SmartAttribute
nvme_attribute f value =
    let parsed = parse_nvme_value value in
    record {
      id = f.id;
      name = f.name;
      value = pos 0;
      worst = pos 0;
      threshold = pos 0;
      raw_value = parsed.0;
      raw_string = parsed.1;
      status = 0;
      failure_rate = none;
    }

-- The body of the loop: the attribute of a line, if the line has one.
unfoldable pub parse_line : Str → Option SmartAttribute
parse_line raw_line =
    let line = trim_space raw_line in
    if is_empty line then none else elim (cut line b':') [
      | none ↦ none
      | some (before, after) ↦ elim (lookup (to_lower (trim_space before)) nvme_field_map) [
        | none ↦ none
        | some f ↦ some (nvme_attribute f (trim_space after))
      ]
    ]

unfoldable pub parse_lines : List Str → List SmartAttribute
parse_lines [] = []
parse_lines (l ∷ rest) = cons_some (parse_line l) (parse_lines rest)

abbrev pub non_empty : List SmartAttribute → Option (List SmartAttribute)
non_empty [] = none
non_empty (a ∷ attrs) = some (a ∷ attrs)

-- `none` is the error "no NVMe SMART attributes found in text".
unfoldable pub parse_nvme_text : Str → Option (List SmartAttribute)
parse_nvme_text t = non_empty (parse_lines (split t 10))
