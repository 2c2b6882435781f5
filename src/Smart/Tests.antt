-- ===== src/Smart/Tests.antt =====
-- The parsers on lines of smartctl.
use glint.Common.{◌≡◌, refl, List, [], ◌∷◌, map}
use glint.Common.Int.{ℤ, pos}
use glint.Common.Text.{
  str, trim_space, cut, to_lower, split, has_prefix, leading_digits, remove_byte, parse_int,
  after_last, fields, show_int, show_nat,
}
use glint.Model.{SmartAttribute}
use glint.Smart.Nvme.{parse_nvme_value}
use glint.Smart.Scsi
use glint.Smart.Scsi.{
  whole_part, last_field, metric, hours_attribute, temperature_line, hours_line, clock_line,
  parse_scsi_text, extract_int_after_colon,
}

abbrev readings : List SmartAttribute → List (ℤ × ℤ)
readings = map (λ a. (a.id, a.raw_value))

nvme_units : parse_nvme_value (str " 1,234,567 [632 GB]") ≡ (pos 1234567, str "1,234,567 [632 GB]")
unfolding parse_nvme_value str trim_space leading_digits remove_byte parse_int has_prefix
nvme_units = refl

nvme_hex : (parse_nvme_value (str "0x1F")).0 ≡ pos 31
unfolding parse_nvme_value str trim_space leading_digits remove_byte parse_int has_prefix
nvme_hex = refl

scsi_lines :
    readings (
      parse_scsi_text (
        str
          "Current Drive Temperature:     32 C\nx\nNumber of hours powered up = 12,345.23\nAccumulated power on time, hours:minutes 21867:04"))
    ≡ (pos 300, pos 32) ∷ (pos 301, pos 12345) ∷ (pos 301, pos 21867) ∷ []
unfolding parse_scsi_text Scsi.parse_lines Scsi.parse_line hours_attribute temperature_line
    hours_line clock_line metric whole_part last_field extract_int_after_colon str trim_space
    leading_digits remove_byte parse_int has_prefix to_lower split cut after_last fields show_int
    show_nat
scsi_lines = refl
