-- ===== src/Smart/Parsing.antt =====
-- The ATA parser and the numbers of the NVMe parser (internal/smart/ata.go, internal/smart/nvme.go).
use mathlib.Core.Path.{subst}
use glint.Common.{
  inl, inr, ℕ, zero, suc, ◌+◌, ◌≤◌, ◌≡◌, refl, ap, Bool, true, false, none, some, List, [], ◌∷◌,
  arith, length, all, Option-cases,
}
use glint.Common.Int.{pos, max_int64}
use glint.Common.Text.{Str, str, is_empty, has_prefix, trim_space, remove_byte, show_nat, show_int}
use glint.Common.Decimal.{
  show_nat-ne_nil, show_nat-AllDigits, leading_digits-AllDigits, trim_space-AllDigits,
  parse_int-show_nat,
}
use glint.Common.Dict.{Dict}
use glint.Common.Float.{Float}
use glint.Common.Result.{ok, err}
use glint.Model.{SmartAttribute}
use glint.Smart.Nvme.{parse_nvme_value}
use glint.Smart.Ata.{
  Any, int64, bad_id, get, or_zero, extract_leading_int, to_int64, parse_raw, parse_one_ata,
  parse_from, parse_ata_attributes,
}

-- The text that goes with an int64 raw value from 0 on reads back as that value.
extract_leading_int-parse_raw :
    (fl : Float) (n : ℕ)
    → n ≤ max_int64
    → extract_leading_int (parse_raw fl (int64 (pos n))).0 ≡ (parse_raw fl (int64 (pos n))).1
unfolding parse_raw show_int extract_leading_int or_zero
extract_leading_int-parse_raw fl n b =
    rw
      (
        trim_space-AllDigits (show_nat n) (show_nat-AllDigits n),
        leading_digits-AllDigits (show_nat n) (show_nat-AllDigits n),
        parse_int-show_nat n b,
      )
      (rw (show_nat-ne_nil n))

module _ (fl : Float) where
  -- The entry has an id that is a number or a text of one.
  unfoldable pub has_id : Dict Str (Any fl.Carrier) → Bool
  has_id entry = elim (to_int64 fl (get entry (str "id"))) [ none ↦ false | some id ↦ true ]

  parse_one_ata-has_id :
      (entry : Dict Str (Any fl.Carrier))
      → (elim (parse_one_ata fl entry) [ none ↦ false | some attr ↦ true ]) ≡ has_id entry
  unfolding parse_one_ata has_id
  parse_one_ata-has_id entry = ground arith

  parse_from-ok :
      (i : ℕ) (entries : List (Dict Str (Any fl.Carrier)))
      → all has_id entries ≡ true
      → (attrs : List SmartAttribute) × (parse_from fl i entries ≡ ok attrs)
        × (length attrs ≡ length entries)
  unfolding parse_from
  parse_from-ok i [] h = ([], refl, refl)
  parse_from-ok i (entry ∷ rest) h = elim (Option-cases (parse_one_ata fl entry)) [
    | inl e ↦ ground (arith, e, parse_one_ata-has_id entry)
    | inr (a, e) ↦
        let (attrs, f, l) = parse_from-ok (suc i) rest (ground arith) in
        (a ∷ attrs, ground (arith, e, f), ap suc l)
  ]

  -- When every entry of a list has an id that reads as a number, the list parses, to as many attributes.
  pub parse_ata_attributes-ok :
      (entries : List (Dict Str (Any fl.Carrier)))
      → all has_id entries ≡ true
      → (attrs : List SmartAttribute) × (parse_ata_attributes fl entries ≡ ok attrs)
        × (length attrs ≡ length entries)
  unfolding parse_ata_attributes
  parse_ata_attributes-ok entries h = parse_from-ok 0 entries h

  -- The entry at a place, if the place is there and all before it have an id while it has none.
  abbrev pub FirstBad : ℕ → List (Dict Str (Any fl.Carrier)) → Type 0
  FirstBad i [] = ⊥
  FirstBad zero (entry ∷ rest) = has_id entry ≡ false
  FirstBad (suc i) (entry ∷ rest) = (has_id entry ≡ true) × FirstBad i rest

  parse_from-err :
      (entries : List (Dict Str (Any fl.Carrier))) (k i : ℕ)
      → parse_from fl k entries ≡ err (bad_id i)
      → (j : ℕ) × (i ≡ k + j) × FirstBad j entries
  unfolding parse_from
  parse_from-err [] k i h = cc
  parse_from-err (entry ∷ rest) k i h = elim (Option-cases (parse_one_ata fl entry)) [
    | inl e ↦ (0, ground (arith, e), ground (arith, e, parse_one_ata-has_id entry))
    | inr (a, e) ↦
        let (j, p, bad) = parse_from-err rest (suc k) i (ground (arith, e)) in
        (suc j, omega arith, (ground (arith, e, parse_one_ata-has_id entry), bad))
  ]

  -- An error names the first entry that has no id that reads as a number.
  pub parse_ata_attributes-err :
      (entries : List (Dict Str (Any fl.Carrier))) (i : ℕ)
      → parse_ata_attributes fl entries ≡ err (bad_id i)
      → FirstBad i entries
  unfolding parse_ata_attributes
  parse_ata_attributes-err entries i h =
      let (j, p, bad) = parse_from-err entries 0 i h in
      subst (λ k. FirstBad k entries) (omega arith) bad

remove_byte-ne_nil : (s : Str) (c : ℕ) → is_empty (remove_byte s c) ≡ false → is_empty s ≡ false
unfolding remove_byte
remove_byte-ne_nil [] c h = h
remove_byte-ne_nil (d ∷ s) c h = refl

-- A text without blanks around it and without the prefix 0x that is, but for commas, the decimal form of a
-- number of at most 2^63 - 1 is read as that number, and is its own text.
parse_nvme_value-commas :
    (s : Str) (n : ℕ)
    → n ≤ max_int64
    → trim_space s ≡ s
    → has_prefix s (str "0x") ≡ false
    → remove_byte s b',' ≡ show_nat n
    → parse_nvme_value s ≡ (pos n, s)
unfolding parse_nvme_value or_zero
parse_nvme_value-commas s n b trimmed dec plain =
    rw (trimmed, dec, plain, leading_digits-AllDigits (show_nat n) (show_nat-AllDigits n))
      (rw (
        show_nat-ne_nil n,
        parse_int-show_nat n b,
        remove_byte-ne_nil s b',' (rw plain (show_nat-ne_nil n)),
      ))
