-- ===== src/Smart/Examples.antt =====
-- The theorems on SMART data at concrete attributes and disks.
use glint.Common.{
  ℕ, ◌≤◌, ◌<◌, ◌≡◌, ◌≢◌, ◌↔◌, ◌⊎◌, refl, Bool, true, false, Option, none, some, List, [], ◌∷◌,
  arith, All, any, length,
}
use mathlib.Core.List.Memᴰ.{head}
use glint.Common.Int.{ℤ, pos}
use glint.Common.Text.{
  Str, str, is_empty, has_prefix, trim_space, remove_byte, show_nat, split, cut, to_lower,
  leading_digits, parse_int,
}
use glint.Common.Dict.{Dict, lookup, int_key, str_key}
use glint.Common.Result.{ok}
use glint.Common.Whole.{whole}
use glint.Model.{SmartAttribute, Disk}
use glint.Smart.Thresholds.{
  Bucket, AttrThreshold, lookup_threshold, find_bucket, find_in, in_bucket, threshold_table,
}
use glint.Smart.Flags.{has_flag}
use glint.Smart.Evaluate.{evaluate_attribute, evaluate_disk}
use glint.Smart.Buckets.{find_bucket-covers, rate-find_bucket_mono}
use glint.Smart.Verdicts.{with_raw, evaluate_attribute_mono, evaluate_disk-flag}
use glint.Smart.Endurance.{percentage_used_fails}
use glint.Smart.Nvme.{parse_nvme_text}
use glint.Smart.Ata.{Any, int64, int, bad_id, extract_leading_int, parse_raw, parse_ata_attributes}
use glint.Smart.Parsing.{has_id, FirstBad, parse_ata_attributes-ok, parse_ata_attributes-err}

abbrev sectors : SmartAttribute
sectors = record {
  id = pos 5;
  name = str "Reallocated_Sector_Ct";
  value = pos 100;
  worst = pos 100;
  threshold = pos 0;
  raw_value = pos 20;
  raw_string = str "20";
  status = 0;
  failure_rate = none;
}

abbrev worn : SmartAttribute
worn = record sectors { value = pos 9; threshold = pos 10 }

abbrev disk : List SmartAttribute → Disk
disk attrs = record {
  instance_name = str "pve";
  node = str "n1";
  wwn = str "w";
  dev_path = str "/dev/sda";
  model = str "m";
  serial = str "s";
  disk_type = str "hdd";
  protocol = str "ata";
  size_bytes = pos 1;
  health = str "PASSED";
  status = 0;
  temperature = none;
  power_on_hours = none;
  wearout = none;
  attributes = attrs;
  first_seen = 0;
  last_seen = 0;
}

abbrev two : Disk
two = disk (sectors ∷ worn ∷ [])

abbrev table_of : Option AttrThreshold → AttrThreshold
table_of none = record { id = pos 0; name = []; buckets = [] }
table_of (some t) = t

abbrev sectors_table : AttrThreshold
sectors_table = table_of (lookup_threshold (pos 5))

abbrev bucket_of : Option Bucket → Bucket
bucket_of none = record { low = pos 0; high = pos 0; annual_failure_rate = 0 }
bucket_of (some b) = b

abbrev at : ℕ → Bucket
at raw = bucket_of (find_bucket sectors_table (pos raw))

find_bucket-covers_example : (b : Bucket) × (find_bucket sectors_table (pos 20) ≡ some b)
unfolding lookup_threshold threshold_table lookup
find_bucket-covers_example = find_bucket-covers (pos 5) sectors_table 20 refl (omega arith)

rate-find_bucket_mono_example : (at 2).annual_failure_rate ≤ (at 20).annual_failure_rate
unfolding lookup_threshold threshold_table lookup find_bucket find_in in_bucket
rate-find_bucket_mono_example =
    rate-find_bucket_mono (pos 5) sectors_table (pos 2) (pos 20) (at 2) (at 20) refl (omega arith)
      refl refl

evaluate_attribute_mono_example :
    (evaluate_attribute (with_raw sectors 2) (str "ata")).1
    ≤ (evaluate_attribute (with_raw sectors 20) (str "ata")).1
evaluate_attribute_mono_example =
    evaluate_attribute_mono sectors (str "ata") 2 20 (omega arith) (omega arith)

evaluate_disk-flag_example :
    has_flag (evaluate_disk two).0.status 1
    ≡ any (λ a. has_flag (evaluate_attribute a two.protocol).1 1) two.attributes
evaluate_disk-flag_example = evaluate_disk-flag two 1 (omega arith)

abbrev used : SmartAttribute
used = record sectors {
  name = str "Percentage Used";
  value = pos 0;
  worst = pos 0;
  raw_value = pos 17;
  raw_string = str "17%";
}

percentage_used_fails_example : has_flag (evaluate_disk (disk (used ∷ []))).0.status 4 ≡ true
unfolding parse_nvme_text glint.Smart.Nvme.parse_lines glint.Smart.Nvme.parse_line
    glint.Smart.Nvme.nvme_attribute glint.Smart.Nvme.nvme_field_map
    glint.Smart.Nvme.parse_nvme_value glint.Smart.Ata.or_zero parse_int split cut trim_space
    to_lower remove_byte leading_digits has_prefix lookup str glint.Common.Text.str_eq
percentage_used_fails_example =
    percentage_used_fails (str "Percentage Used: 17%") (disk (used ∷ [])) used 17 refl (head refl)
      refl refl (omega arith) (omega arith)

abbrev entry : Dict Str (Any ℤ)
entry = (str "id", int (pos 5)) ∷ []

abbrev named : Dict Str (Any ℤ)
named = (str "name", int (pos 5)) ∷ []

parse_ata_attributes-ok_example :
    (attrs : List SmartAttribute) × (parse_ata_attributes whole (entry ∷ entry ∷ []) ≡ ok attrs)
    × (length attrs ≡ length (entry ∷ entry ∷ []))
unfolding has_id glint.Smart.Ata.get glint.Smart.Ata.to_int64 lookup str glint.Common.Text.str_eq
parse_ata_attributes-ok_example = parse_ata_attributes-ok whole (entry ∷ entry ∷ []) refl

parse_ata_attributes-err_example : FirstBad whole 1 (entry ∷ named ∷ [])
unfolding parse_ata_attributes glint.Smart.Ata.parse_from glint.Smart.Ata.parse_one_ata
    glint.Smart.Ata.get glint.Smart.Ata.to_int64 lookup str glint.Common.Text.str_eq
parse_ata_attributes-err_example = parse_ata_attributes-err whole (entry ∷ named ∷ []) 1 refl
