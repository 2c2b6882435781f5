-- ===== src/Smart/Outputs.antt =====
-- The attributes that the text parsers can return, and the verdicts that those get.
use mathlib.Core.Path.{subst}
use glint.Common.{
  All-cons_some, inl, inr, ◌≡◌, ◌≢◌, refl, ◌⊎◌, Bool, true, ◌&&◌, Option, none, some, List, [], ◌∷◌,
  arith, All, all, Option-cases,
}
use glint.Common.Int.{ℤ, pos, leb_ℤ, ◌≤ℤ◌}
use glint.Common.Text.{
  Str, trim_space, to_lower, cut, split, show_int, parse_int, remove_byte, fields,
}
use glint.Common.Dict.{lookup, str_key, int_key, lookup-all}
use glint.Model.{SmartAttribute, Disk}
use glint.Smart.Nvme
use glint.Smart.Nvme.{NvmeField, nvme_field_map, nvme_attribute, parse_nvme_text}
use glint.Smart.Scsi
use glint.Smart.Scsi.{
  whole_part, last_field, metric, hours_attribute, temperature_line, hours_line, clock_line,
  parse_scsi_text, extract_int_after_colon,
}
use glint.Smart.Thresholds.{lookup_threshold}
use glint.Smart.Evaluate.{evaluate_attribute, evaluate_all, evaluate_disk, below_threshold}

-- An attribute of an NVMe drive: a pseudo id from 1 to 10, and no threshold.
pub record IsNvme (a : SmartAttribute) : Type 0 where
  pub id_low : pos 1 ≤ℤ a.id
  pub id_high : a.id ≤ℤ pos 10
  pub no_threshold : a.threshold ≡ pos 0

field_in_range : NvmeField → Bool
field_in_range f = leb_ℤ (pos 1) f.id && leb_ℤ f.id (pos 10)

fields_in_range : all (λ e. field_in_range e.1) nvme_field_map ≡ true
unfolding field_in_range nvme_field_map
fields_in_range = refl

nvme_attribute-IsNvme :
    (k v : Str) (f : NvmeField) → lookup k nvme_field_map ≡ some f → IsNvme (nvme_attribute f v)
unfolding nvme_attribute field_in_range
nvme_attribute-IsNvme k v f h =
    ground (arith, lookup-all field_in_range k nvme_field_map f fields_in_range h)

line-IsNvme : (l : Str) (a : SmartAttribute) → Nvme.parse_line l ≡ some a → IsNvme a
unfolding Nvme.parse_line
line-IsNvme l a h = elim (Option-cases (cut (trim_space l) b':')) [
  | inl e ↦ ground (arith, e)
  | inr ((b, v), e) ↦ elim (Option-cases (lookup (to_lower (trim_space b)) nvme_field_map)) [
    | inl e' ↦ ground (arith, e, e')
    | inr (f, e') ↦
        ground (arith, e, e', nvme_attribute-IsNvme (to_lower (trim_space b)) (trim_space v) f e')
  ]
]

lines-IsNvme : (ls : List Str) → All IsNvme (Nvme.parse_lines ls)
unfolding Nvme.parse_lines
lines-IsNvme [] = tt
lines-IsNvme (l ∷ ls) =
    All-cons_some IsNvme (Nvme.parse_line l) (Nvme.parse_lines ls) (line-IsNvme l) (lines-IsNvme ls)

some-IsNvme :
    (xs attrs : List SmartAttribute)
    → All IsNvme xs
    → Nvme.non_empty xs ≡ some attrs
    → (attrs ≢ []) × All IsNvme attrs
some-IsNvme [] attrs h e = cc
some-IsNvme (a ∷ xs) attrs h e =
    let q : a ∷ xs ≡ attrs = cc e in (λ r. cc (q, r), subst (All IsNvme) q h)

-- The text of an NVMe drive parses to attributes with pseudo ids 1 to 10 and no threshold, at least one.
parse_nvme_text-IsNvme :
    (t : Str) (attrs : List SmartAttribute)
    → parse_nvme_text t ≡ some attrs
    → (attrs ≢ []) × All IsNvme attrs
unfolding parse_nvme_text
parse_nvme_text-IsNvme t attrs h =
    some-IsNvme (Nvme.parse_lines (split t 10)) attrs (lines-IsNvme (split t 10)) h

-- A metric of a drive that answers to SCSI: one of the two pseudo ids, no threshold, and a text that is
-- the decimal form of the raw value.
pub record IsScsi (a : SmartAttribute) : Type 0 where
  pub known_id : (a.id ≡ pos 300) ⊎ (a.id ≡ pos 301)
  pub no_threshold : a.threshold ≡ pos 0
  pub text : a.raw_string ≡ show_int a.raw_value

hours_attribute-IsScsi : (h : Option ℤ) (a : SmartAttribute) → hours_attribute h ≡ some a → IsScsi a
unfolding hours_attribute metric
hours_attribute-IsScsi none a e = cc
hours_attribute-IsScsi (some h) a e = ground arith

temperature_line-IsScsi : (l : Str) (a : SmartAttribute) → temperature_line l ≡ some a → IsScsi a
unfolding temperature_line metric
temperature_line-IsScsi l a e = ground arith

hours_line-IsScsi : (l : Str) (a : SmartAttribute) → hours_line l ≡ some a → IsScsi a
unfolding hours_line
hours_line-IsScsi l a e = elim (Option-cases (cut l b'=')) [
  | inl c ↦ ground (arith, c)
  | inr ((x, y), c) ↦
      let o : Option ℤ = parse_int 10 (remove_byte (whole_part (trim_space y)) b',') in
      hours_attribute-IsScsi o a (ground (arith, c))
]

clock_line-IsScsi : (l : Str) (a : SmartAttribute) → clock_line l ≡ some a → IsScsi a
unfolding clock_line
clock_line-IsScsi l a e = elim (Option-cases (last_field (fields l))) [
  | inl c ↦ ground (arith, c)
  | inr (hm, c) ↦ elim (Option-cases (cut hm b':')) [
    | inl c' ↦ ground (arith, c, c')
    | inr ((x, y), c') ↦ hours_attribute-IsScsi (parse_int 10 x) a (ground (arith, c, c'))
  ]
]

line-IsScsi : (l : Str) (a : SmartAttribute) → Scsi.parse_line l ≡ some a → IsScsi a
unfolding Scsi.parse_line
line-IsScsi l a e =
    let line = trim_space l in
    ground
      (arith, temperature_line-IsScsi line a, hours_line-IsScsi line a, clock_line-IsScsi line a)

lines-IsScsi : (ls : List Str) → All IsScsi (Scsi.parse_lines ls)
unfolding Scsi.parse_lines
lines-IsScsi [] = tt
lines-IsScsi (l ∷ ls) =
    All-cons_some IsScsi (Scsi.parse_line l) (Scsi.parse_lines ls) (line-IsScsi l) (lines-IsScsi ls)

-- Every attribute that the text of a SCSI drive parses to has one of the two pseudo ids, no threshold and
-- the decimal form of its raw value for a text.
parse_scsi_text-IsScsi : (t : Str) → All IsScsi (parse_scsi_text t)
unfolding parse_scsi_text
parse_scsi_text-IsScsi t = lines-IsScsi (split t 10)

scsi_passes : (a : SmartAttribute) (p : Str) → IsScsi a → (evaluate_attribute a p).1 ≡ 0
unfolding evaluate_attribute below_threshold lookup_threshold
scsi_passes a p h = elim h.known_id [
  | inl e ↦ rw (e, h.no_threshold) refl
  | inr e ↦ rw (e, h.no_threshold) refl
]

every_scsi_passes :
    (xs : List SmartAttribute) (p : Str) → All IsScsi xs → (evaluate_all xs p 0).1 ≡ 0
unfolding evaluate_all
every_scsi_passes [] p h = refl
every_scsi_passes (a ∷ xs) p h = ground (arith, scsi_passes a p h.0, every_scsi_passes xs p h.1)

-- A disk whose attributes came from SCSI text is always evaluated as passed.
evaluate_disk-scsi :
    (d : Disk) (t : Str) → d.attributes ≡ parse_scsi_text t → (evaluate_disk d).0.status ≡ 0
unfolding evaluate_disk
evaluate_disk-scsi d t e =
    rw e (every_scsi_passes (parse_scsi_text t) d.protocol (parse_scsi_text-IsScsi t))
