-- ===== src/Collector.antt =====
-- internal/collector/pve.go: how a collector makes disks of what the PVE API answers. The answers, with
-- their JSON decoded, are parameters: one of the disk list, and for each disk and each way to ask for
-- SMART data one of that.
pub mod Disks
pub mod Retries
pub mod Identity
pub mod Tests
use glint.Common.{
  ℕ, zero, suc, Bool, true, false, ◌&&◌, Option, none, some, List, [], ◌∷◌, ◌==◌, if◌then◌else◌,
  fold,
}
use glint.Common.Int.{ℤ, pos, ◌-ℤ◌, eqb_ℤ}
use glint.Common.Text.{Str, str, str_eq, is_empty, parse_int}
use glint.Common.Float.{Float}
use glint.Common.Dict.{Dict}
use glint.Common.Result.{Result, ok, err}
use glint.Model.{Disk, SmartAttribute}
use glint.Smart.Ata.{Any, float, text, safe_int, parse_ata_attributes}
use glint.Smart.Nvme.{parse_nvme_text, nvme_temperature, nvme_power_on_hours, nvme_percentage_used}
use glint.Smart.Scsi.{parse_scsi_text, scsi_temperature, scsi_power_on_hours}
use glint.Smart.Evaluate.{evaluate_disk}

-- The values of `smartType`: "", "sat" and "scsi".
pub data SmartType : Type 0 where
  auto : SmartType
  sat : SmartType
  scsi : SmartType

pub record SmartData (F : Type 0) : Type 0 where
  pub health : Str
  pub wearout : Any F
  pub attributes : List (Dict Str (Any F))
  pub text : Str

-- What `apiGet` and the two decodings come to.
pub data Reply (F : Type 0) : Type 0 where
  api_error : (status_code : ℕ) → Reply F
  unreadable : Reply F
  answered : SmartData F → Reply F

-- The disk that the pointer shows at the return, whether the error is nil, and the ways that were asked,
-- the latest first.
pub record Collected : Type 0 where
  pub disk : Disk
  pub failed : Bool
  pub asked : List SmartType

unfoldable pub is_nvme : Disk → Bool
is_nvme d = str_eq d.protocol (str "nvme")

unfoldable pub is_ata : Disk → Bool
is_ata d = str_eq d.protocol (str "ata")

-- The scalar metrics of one attribute.
unfoldable pub nvme_metric : SmartAttribute → Disk → Disk
nvme_metric a d =
    if eqb_ℤ a.id nvme_temperature
    then record d { temperature = some (safe_int a.raw_value) }
    else if eqb_ℤ a.id nvme_power_on_hours
    then record d { power_on_hours = some (safe_int a.raw_value) }
    else if eqb_ℤ a.id nvme_percentage_used
    then elim d.wearout [
      | none ↦ record d { wearout = some (pos 100 -ℤ safe_int a.raw_value) }
      | some w ↦ d
    ]
    else d

unfoldable pub ata_metric : SmartAttribute → Disk → Disk
ata_metric a d =
    if eqb_ℤ a.id (pos 194)
    then record d { temperature = some (safe_int a.raw_value) }
    else if eqb_ℤ a.id (pos 190)
    then elim d.temperature [
      | none ↦ record d { temperature = some (safe_int a.raw_value) }
      | some t ↦ d
    ]
    else if eqb_ℤ a.id (pos 9)
    then record d { power_on_hours = some (safe_int a.raw_value) }
    else if eqb_ℤ a.id scsi_temperature
    then record d { temperature = some (safe_int a.raw_value) }
    else if eqb_ℤ a.id scsi_power_on_hours
    then record d { power_on_hours = some (safe_int a.raw_value) }
    else d

-- The end of `collectSMARTWithType`: the verdicts, then the metrics.
unfoldable pub finish : List SmartAttribute → Disk → Disk
finish attrs d =
    let d' = (evaluate_disk (record d { attributes = attrs })).0 in
    fold (if is_nvme d' then nvme_metric else ata_metric) d'.attributes d'

unfoldable pub or_none : Option (List SmartAttribute) → List SmartAttribute
or_none none = []
or_none (some attrs) = attrs

-- What the switch over the answer decides: attributes to go on with, or another way to ask.
pub data Choice : Type 0 where
  take : List SmartAttribute → Choice
  retry : SmartType → Choice

-- What becomes of an error that the API answers.
pub data Fallback : Type 0 where
  again : SmartType → Fallback
  ignored : Fallback
  surfaced : Fallback

unfoldable pub on_api_error : SmartType → ℕ → Fallback
on_api_error auto code = surfaced
on_api_error sat code = if code == 400 then again scsi else surfaced
on_api_error scsi code = if code == 400 then ignored else surfaced

module _ (fl : Float) where
  open fl use {Carrier, to_int}

  unfoldable pub read_wearout : Any Carrier → Option ℤ → Option ℤ
  read_wearout (float w) old = some (to_int w)
  read_wearout (text s) old = elim (parse_int 10 s) [ none ↦ old | some w ↦ some w ]
  read_wearout _ old = old

  unfoldable pub ata_or_none : List (Dict Str (Any Carrier)) → List SmartAttribute
  ata_or_none entries = elim (parse_ata_attributes fl entries) [ err e ↦ [] | ok attrs ↦ attrs ]

  -- The last three cases of the switch, where there is no structured data.
  unfoldable pub without_data : SmartType → Disk → SmartData Carrier → Choice
  without_data scsi d s = if is_empty s.text then take [] else take (parse_scsi_text s.text)
  without_data auto d s = if is_ata d then retry sat else take []
  without_data sat d s = if is_ata d then retry scsi else take []

  unfoldable pub choose : SmartType → Disk → SmartData Carrier → Choice
  unfolding without_data
  choose t d s =
      let rest : Choice = elim s.attributes [
        | [] ↦ without_data t d s
        | e ∷ es ↦ take (ata_or_none (e ∷ es))
      ] in
      if is_nvme d
      then (if is_empty s.text then rest else take (or_none (parse_nvme_text s.text)))
      else rest

  -- disk.Health and disk.Wearout.
  unfoldable pub note_answer : SmartData Carrier → Disk → Disk
  note_answer s d = record d { health = s.health; wearout = read_wearout s.wearout d.wearout }

  module _ (ask : SmartType → Reply Carrier) where
    -- `collectSMARTWithType`; the first argument bounds the ways that are asked, and `none` is the answer
    -- where it is spent.
    unfoldable pub collect_smart_with_type :
        ℕ → List SmartType → Disk → SmartType → Option Collected
    collect_smart_with_type zero asked d t = none
    collect_smart_with_type (suc n) asked d t = elim (ask t) [
      | unreadable ↦ some (record { disk = d; failed = true; asked = t ∷ asked })
      | api_error code ↦ elim (on_api_error t code) [
        | again t' ↦ collect_smart_with_type n (t ∷ asked) d t'
        | ignored ↦ some (record { disk = d; failed = false; asked = t ∷ asked })
        | surfaced ↦ some (record { disk = d; failed = true; asked = t ∷ asked })
      ]
      | answered s ↦ elim (choose t (note_answer s d) s) [
        | take attrs ↦
            some
              (record { disk = finish attrs (note_answer s d); failed = false; asked = t ∷ asked })
        | retry t' ↦ collect_smart_with_type n (t ∷ asked) (note_answer s d) t'
      ]
    ]

    -- `collectSMART`: there are three ways to ask.
    unfoldable pub collect_smart : Disk → Option Collected
    collect_smart d = collect_smart_with_type 3 [] d auto
