-- ===== src/Smart/Evaluate.antt =====
-- internal/smart/evaluate.go: the verdict on an attribute and on a disk. A function that writes through
-- its pointer returns the new record beside its result.
use Prim.Native.Nat.{bit_or}
use glint.Common.{ℕ, Bool, ◌&&◌, Option, none, some, List, [], ◌∷◌, if◌then◌else◌, leb}
use glint.Common.Int.{pos, ltb_ℤ, leb_ℤ}
use glint.Common.Text.{Str}
use glint.Model.{
  SmartAttribute, Disk, status_passed, status_failed_smart, status_warn_scrutiny,
  status_failed_scrutiny,
}
use glint.Smart.Thresholds.{Bucket, is_critical, lookup_threshold, find_bucket}

-- attr.Status = s; return s
abbrev conclude : SmartAttribute → ℕ → SmartAttribute × ℕ
conclude attr s = (record attr { status = s }, s)

-- Steps 3 and 4, with the bucket that was found.
unfoldable pub apply_rules : SmartAttribute → Option Bucket → Bool → SmartAttribute × ℕ
apply_rules attr (some b) critical =
    let rate = b.annual_failure_rate in
    let attr' = record attr { failure_rate = some rate } in
    if critical
    then (if leb 100 rate
        then conclude attr' status_failed_scrutiny
        else conclude attr' status_passed)
    else if leb 200 rate
    then conclude attr' status_failed_scrutiny
    else if leb 100 rate
    then conclude attr' status_warn_scrutiny
    else conclude attr' status_passed
apply_rules attr none critical =
    if critical then conclude attr status_warn_scrutiny else conclude attr status_passed

-- Step 1: a failure by the manufacturer's threshold.
unfoldable pub below_threshold : SmartAttribute → Bool
below_threshold attr =
    ltb_ℤ (pos 0) attr.threshold && ltb_ℤ (pos 0) attr.value && leb_ℤ attr.value attr.threshold

unfoldable pub evaluate_attribute : SmartAttribute → Str → SmartAttribute × ℕ
unfolding apply_rules
evaluate_attribute attr protocol =
    if below_threshold attr
    then conclude attr status_failed_smart
    else elim (lookup_threshold attr.id) [
      | none ↦ conclude attr status_passed
      | some t ↦ apply_rules attr (find_bucket t attr.raw_value) (is_critical attr.id)
    ]

-- The loop of `EvaluateDisk`.
unfoldable pub evaluate_all : List SmartAttribute → Str → ℕ → List SmartAttribute × ℕ
evaluate_all [] protocol status = ([], status)
evaluate_all (a ∷ rest) protocol status =
    let (a', s) = evaluate_attribute a protocol in
    let (rest', status') = evaluate_all rest protocol (bit_or status s) in (a' ∷ rest', status')

unfoldable pub evaluate_disk : Disk → Disk × ℕ
unfolding evaluate_all
evaluate_disk disk =
    let (attrs, status) = evaluate_all disk.attributes disk.protocol status_passed in
    (record disk { attributes = attrs; status = status }, status)
