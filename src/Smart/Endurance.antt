-- ===== src/Smart/Endurance.antt =====
-- What becomes of "Percentage Used" in the text of smartctl for an NVMe drive.
use mathlib.Core.List.{Memᴰ}
use mathlib.Core.Path.{subst}
use glint.Common.{
  ℕ, ◌≤◌, ◌≡◌, refl, inl, inr, Bool, true, none, some, List, [], ◌∷◌, arith, all, All, All-Mem,
  any-Mem, All-cons_some, ◌∙◌, Bool-cases, if◌then◌else◌, Option-cases,
}
use glint.Common.Int.{ℤ, pos, eqb_ℤ}
use glint.Common.Text.{Str, str, str_eq, str_eq_iff, is_empty, split, cut, trim_space, to_lower}
use glint.Common.Dict.{lookup, lookup-all, str_key}
use glint.Model.{SmartAttribute, Disk}
use glint.Smart.Thresholds.{
  open_end, is_critical, lookup_threshold, find_bucket, find_in, in_bucket,
}
use glint.Smart.Evaluate.{apply_rules, below_threshold, evaluate_attribute, evaluate_disk}
use glint.Smart.Flags.{has_flag}
use glint.Smart.Nvme.{
  NvmeField, nvme_attribute, nvme_field_map, non_empty, parse_line, parse_lines, parse_nvme_text,
}
use glint.Smart.Verdicts.{evaluate_disk-flag}

abbrev pub percentage_used : Str
percentage_used = str "Percentage Used"

-- What has the name has the id of "Reallocated Sectors Count".
abbrev numbered : Str → ℤ → Bool
numbered name id = if str_eq name percentage_used then eqb_ℤ id (pos 5) else true

fields_numbered : all (λ e. numbered e.1.name e.1.id) nvme_field_map ≡ true
unfolding nvme_field_map str str_eq
fields_numbered = refl

abbrev IsPseudo : SmartAttribute → Type 0
IsPseudo a = (a.threshold ≡ pos 0) × (numbered a.name a.id ≡ true)

found-IsPseudo :
    (key value : Str) (f : NvmeField)
    → lookup key nvme_field_map ≡ some f
    → IsPseudo (nvme_attribute f value)
unfolding nvme_attribute
found-IsPseudo key value f e =
    (refl, lookup-all (λ f. numbered f.name f.id) key nvme_field_map f fields_numbered e)

parse_line-IsPseudo : (raw : Str) (a : SmartAttribute) → parse_line raw ≡ some a → IsPseudo a
unfolding parse_line
parse_line-IsPseudo raw a e = elim (Bool-cases (is_empty (trim_space raw))) [
  | inl blank ↦
      let gone : parse_line raw ≡ none = rw (blank, parse_line) refl in absurd (cc (gone, e))
  | inr text ↦ elim (Option-cases (cut (trim_space raw) b':')) [
    | inl c ↦
        let gone : parse_line raw ≡ none = rw (text, c, parse_line) refl in absurd (cc (gone, e))
    | inr ((before, after), c) ↦
        elim (Option-cases (lookup (to_lower (trim_space before)) nvme_field_map)) [
          | inl l ↦
              let gone : parse_line raw ≡ none = rw (text, c, l, parse_line) refl in
              absurd (cc (gone, e))
          | inr (f, l) ↦
              let read : parse_line raw ≡ some (nvme_attribute f (trim_space after)) =
                rw (text, c, l, parse_line) refl in
              let same : nvme_attribute f (trim_space after) ≡ a = cc (read, e) in
              subst IsPseudo same (found-IsPseudo _ (trim_space after) f l)
        ]
  ]
]

parse_lines-IsPseudo : (lines : List Str) → All IsPseudo (parse_lines lines)
unfolding parse_lines
parse_lines-IsPseudo [] = tt
parse_lines-IsPseudo (l ∷ rest) =
    All-cons_some IsPseudo (parse_line l) (parse_lines rest) (parse_line-IsPseudo l)
      (parse_lines-IsPseudo rest)

non_empty-All :
    (P : SmartAttribute → Type 0) (xs attrs : List SmartAttribute)
    → non_empty xs ≡ some attrs
    → All P xs
    → All P attrs
non_empty-All P [] attrs e h = cc
non_empty-All P (x ∷ xs) attrs e h = let same : x ∷ xs ≡ attrs = cc in subst (All P) same h

parsed-IsPseudo :
    (t : Str) (attrs : List SmartAttribute) → parse_nvme_text t ≡ some attrs → All IsPseudo attrs
unfolding parse_nvme_text
parsed-IsPseudo t attrs e =
    non_empty-All IsPseudo (parse_lines (split t 10)) attrs e (parse_lines-IsPseudo (split t 10))

fails :
    (a : SmartAttribute) (protocol : Str) (used : ℕ)
    → a.id ≡ pos 5
    → a.threshold ≡ pos 0
    → a.raw_value ≡ pos used
    → 17 ≤ used
    → used ≤ open_end
    → (evaluate_attribute a protocol).1 ≡ 4
unfolding evaluate_attribute below_threshold apply_rules is_critical lookup_threshold find_bucket
    find_in in_bucket
fails a protocol used i t r lo hi = rw (i, t, r) (ground arith)

-- A disk with the attributes that `ParseNVMeText` read from a text, among them one called "Percentage Used"
-- of 17 or more, gets the flag of a failure in `EvaluateDisk`, whatever the other attributes say: the name is
-- given the id of the ATA attribute "Reallocated Sectors Count", whose table is used for it. Its value is taken
-- to be at most 2^62 - 1.
pub percentage_used_fails :
    (t : Str) (d : Disk) (a : SmartAttribute) (used : ℕ)
    → parse_nvme_text t ≡ some d.attributes
    → Memᴰ a d.attributes
    → a.name ≡ str "Percentage Used"
    → a.raw_value ≡ pos used
    → 17 ≤ used
    → used ≤ open_end
    → has_flag (evaluate_disk d).0.status 4 ≡ true
unfolding has_flag
percentage_used_fails t d a used parsed among named raw lo hi =
    let (no_threshold, n) =
      All-Mem IsPseudo a d.attributes (parsed-IsPseudo t d.attributes parsed) among in
    let i : a.id ≡ pos 5 = ground (arith, n, (str_eq_iff a.name percentage_used).1 named) in
    let verdict = fails a d.protocol used i no_threshold raw lo hi in
    evaluate_disk-flag d 4 (omega arith)
    ∙ any-Mem (λ x. has_flag (evaluate_attribute x d.protocol).1 4) a d.attributes (rw verdict refl)
        among
