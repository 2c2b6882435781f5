-- ===== src/Smart/Ata.antt =====
-- internal/smart/ata.go: the ATA attributes of the PVE API. A value of type `any` is what encoding/json
-- makes of a JSON value, or an integer; `other` carries the text that `%v` prints of a value of any other
-- type, such as a bool or a map.
use glint.Common.{ℕ, suc, Option, none, some, List, [], ◌∷◌, if◌then◌else◌}
use glint.Common.Int.{ℤ, pos, negsuc, ltb_ℤ, max_int64}
use glint.Common.Text.{Str, str, is_empty, trim_space, leading_digits, parse_int, show_int}
use glint.Common.Dict.{Dict, lookup, str_key}
use glint.Common.Float.{Float}
use glint.Common.Result.{Result, ok, err, ◌>>=◌}
use glint.Model.{SmartAttribute}

pub data Any (F : Type 0) : Type 0 where
  float : F → Any F
  int64 : ℤ → Any F
  int : ℤ → Any F
  text : Str → Any F
  nil : Any F
  other : Str → Any F

-- What an error of the parser says: which attribute of the list, and why.
pub data AtaError : Type 0 where
  bad_id : ℕ → AtaError

-- `m[k]`: the nil interface where the key is missing.
unfoldable pub get : {F : Type 0} → Dict Str (Any F) → Str → Any F
get m k = elim (lookup k m) [ none ↦ nil | some v ↦ v ]

unfoldable pub or_zero : Option ℤ → ℤ
or_zero none = pos 0
or_zero (some n) = n

unfoldable pub extract_leading_int : Str → ℤ
unfolding or_zero
extract_leading_int s =
    let digits = leading_digits (trim_space s) in
    if is_empty digits then pos 0 else or_zero (parse_int 10 digits)

-- MaxInt and MinInt of a 64-bit platform.
unfoldable pub safe_int : ℤ → ℤ
safe_int v =
    if ltb_ℤ (pos max_int64) v
    then pos max_int64
    else if ltb_ℤ v (negsuc max_int64)
    then negsuc max_int64
    else v

module _ (fl : Float) where
  open fl use {Carrier, to_int}

  unfoldable pub to_int64 : Any Carrier → Option ℤ
  to_int64 (float n) = some (to_int n)
  to_int64 (int64 n) = some n
  to_int64 (int n) = some n
  to_int64 (text s) = parse_int 10 s
  to_int64 nil = none
  to_int64 (other s) = none

  -- The error result of `parseRaw` is nil on every path.
  unfoldable pub parse_raw : Any Carrier → Str × ℤ
  parse_raw (text r) = (r, extract_leading_int r)
  parse_raw (float r) = (show_int (to_int r), to_int r)
  parse_raw (int64 r) = (show_int r, r)
  parse_raw (int r) = (show_int r, r)
  parse_raw nil = (str "0", pos 0)
  parse_raw (other s) = (s, extract_leading_int s)

  -- A field that is no text leaves the name empty, one that is no number leaves a zero.
  unfoldable pub text_or_empty : Any Carrier → Str
  text_or_empty (text s) = s
  text_or_empty _ = []

  unfoldable pub parse_one_ata : Dict Str (Any Carrier) → Option SmartAttribute
  unfolding to_int64 parse_raw text_or_empty
  parse_one_ata entry = elim (to_int64 (get entry (str "id"))) [
    | none ↦ none
    | some id ↦
        let raw = parse_raw (get entry (str "raw")) in
        some (record {
          id = safe_int id;
          name = text_or_empty (get entry (str "name"));
          value = or_zero (to_int64 (get entry (str "value")));
          worst = or_zero (to_int64 (get entry (str "worst")));
          threshold = or_zero (to_int64 (get entry (str "thresh")));
          raw_value = raw.1;
          raw_string = raw.0;
          status = 0;
          failure_rate = none;
        })
  ]

  -- The loop, with the number of attributes already parsed.
  unfoldable pub parse_from :
      ℕ → List (Dict Str (Any Carrier)) → Result AtaError (List SmartAttribute)
  parse_from i [] = ok []
  parse_from i (entry ∷ rest) = elim (parse_one_ata entry) [
    | none ↦ err (bad_id i)
    | some attr ↦ do attrs ← parse_from (suc i) rest; ok (attr ∷ attrs)
  ]

  unfoldable pub parse_ata_attributes :
      List (Dict Str (Any Carrier)) → Result AtaError (List SmartAttribute)
  unfolding parse_from
  parse_ata_attributes entries = parse_from 0 entries
