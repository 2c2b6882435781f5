-- ===== src/Smart/Verdicts.antt =====
-- What the verdicts of `Evaluate` say: when an attribute fails, how verdicts grow with the raw value, and
-- what the status of a disk collects.
use Prim.Native.Nat.{bit_or}
use glint.Common.{
  ℕ, ◌≤◌, ◌<◌, ◌≡◌, refl, ◌↔◌, inl, inr, Bool, true, ◌||◌, some, List, [], ◌∷◌, arith, any,
  Option-cases,
}
use glint.Common.Int.{pos, ltb_ℤ, ◌≤ℤ◌}
use glint.Common.Text.{Str}
use glint.Model.{SmartAttribute, Disk, status_passed}
use glint.Smart.Thresholds.{Bucket, open_end, is_critical, lookup_threshold}
use glint.Smart.Evaluate.{
  apply_rules, below_threshold, evaluate_attribute, evaluate_all, evaluate_disk,
}
use glint.Smart.Buckets.{find_bucket-covers, rate-find_bucket_mono}
use glint.Smart.Flags.{has_flag, has_flag-bit_or, bit_or-lt, has_flag-zero}

-- An attribute's verdict is the manufacturer's failure exactly when its normalised value is positive and
-- at most its positive threshold.
evaluate_attribute-failed_smart :
    (a : SmartAttribute) (protocol : Str)
    → ((evaluate_attribute a protocol).1 ≡ 1)
      ↔ (ltb_ℤ (pos 0) a.threshold ≡ true)
        × (ltb_ℤ (pos 0) a.value ≡ true)
        × (a.value ≤ℤ a.threshold)
unfolding evaluate_attribute below_threshold
evaluate_attribute-failed_smart a protocol = ground arith

rules_mono :
    (a a' : SmartAttribute) (b b' : Bucket) (critical : Bool)
    → b.annual_failure_rate ≤ b'.annual_failure_rate
    → (apply_rules a (some b) critical).1 ≤ (apply_rules a' (some b') critical).1
unfolding apply_rules
rules_mono a a' b b' critical h = ground arith

-- The attribute with another raw value.
abbrev pub with_raw : SmartAttribute → ℕ → SmartAttribute
with_raw a raw = record a { raw_value = pos raw }

-- With all else equal, of two raw values from 0 to 2^62 - 1 the larger never gives the smaller status: on that
-- range the verdict goes from passed to warning to failed only.
pub evaluate_attribute_mono :
    (a : SmartAttribute) (protocol : Str) (raw raw' : ℕ)
    → raw ≤ raw'
    → raw' ≤ open_end
    → (evaluate_attribute (with_raw a raw) protocol).1
      ≤ (evaluate_attribute (with_raw a raw') protocol).1
unfolding evaluate_attribute below_threshold
evaluate_attribute_mono a protocol raw raw' le hi = elim (Option-cases (lookup_threshold a.id)) [
  | inl e ↦ ground (arith, e)
  | inr (t, e) ↦
      let (b, f) = find_bucket-covers a.id t raw e (omega arith) in
      let (b', f') = find_bucket-covers a.id t raw' e hi in
      ground (
        arith,
        e,
        f,
        f',
        rules_mono (with_raw a raw) (with_raw a raw') b b' (is_critical a.id)
            (rate-find_bucket_mono a.id t (pos raw) (pos raw') b b' e (omega arith) f f'),
      )
]

evaluate_attribute-lt :
    (a : SmartAttribute) (protocol : Str) → (evaluate_attribute a protocol).1 < 8
unfolding evaluate_attribute
evaluate_attribute-lt a protocol = ground arith

evaluate_all-flag :
    (xs : List SmartAttribute) (protocol : Str) (status f : ℕ)
    → f < 8
    → status < 8
    → has_flag (evaluate_all xs protocol status).1 f
      ≡ (has_flag status f || any (λ a. has_flag (evaluate_attribute a protocol).1 f) xs)
unfolding evaluate_all
evaluate_all-flag [] protocol status f hf hs = ground arith
evaluate_all-flag (a ∷ xs) protocol status f hf hs =
    let s = (evaluate_attribute a protocol).1 in
    let hs' = evaluate_attribute-lt a protocol in
    ground (
      arith,
      evaluate_all-flag xs protocol (bit_or status s) f hf (bit_or-lt status s hs hs'),
      has_flag-bit_or f status s hf hs hs',
    )

-- A flag below 8 is set in the status of an evaluated disk exactly when it is set in the verdict on one of
-- the disk's attributes.
pub evaluate_disk-flag :
    (d : Disk) (f : ℕ)
    → f < 8
    → has_flag (evaluate_disk d).0.status f
      ≡ any (λ a. has_flag (evaluate_attribute a d.protocol).1 f) d.attributes
unfolding evaluate_disk
evaluate_disk-flag d f hf = ground (
  arith,
  evaluate_all-flag d.attributes d.protocol status_passed f hf (omega arith),
  has_flag-zero f hf,
)

evaluate_all-lt :
    (xs : List SmartAttribute) (protocol : Str) (status : ℕ)
    → status < 8
    → (evaluate_all xs protocol status).1 < 8
unfolding evaluate_all
evaluate_all-lt [] protocol status hs = hs
evaluate_all-lt (a ∷ xs) protocol status hs =
    let s = (evaluate_attribute a protocol).1 in
    evaluate_all-lt xs protocol (bit_or status s)
      (bit_or-lt status s hs (evaluate_attribute-lt a protocol))

-- An evaluated disk is neither of unknown status nor in an internal error: both flags lie above 4.
pub evaluate_disk-lt : (d : Disk) → (evaluate_disk d).0.status < 8
unfolding evaluate_disk
evaluate_disk-lt d = evaluate_all-lt d.attributes d.protocol status_passed (omega arith)

evaluate_attribute_idem :
    (a : SmartAttribute) (protocol : Str)
    → evaluate_attribute (evaluate_attribute a protocol).0 protocol ≡ evaluate_attribute a protocol
unfolding evaluate_attribute below_threshold apply_rules
evaluate_attribute_idem a protocol = ground arith

evaluate_all_idem :
    (xs : List SmartAttribute) (protocol : Str) (status : ℕ)
    → evaluate_all (evaluate_all xs protocol status).0 protocol status
      ≡ evaluate_all xs protocol status
unfolding evaluate_all
evaluate_all_idem [] protocol status = refl
evaluate_all_idem (a ∷ xs) protocol status =
    let s = (evaluate_attribute a protocol).1 in
    ground
      (arith, evaluate_attribute_idem a protocol, evaluate_all_idem xs protocol (bit_or status s))

-- Evaluating an evaluated disk again changes neither its attributes nor its status.
evaluate_disk_idem : (d : Disk) → evaluate_disk (evaluate_disk d).0 ≡ evaluate_disk d
unfolding evaluate_disk
evaluate_disk_idem d = ground (arith, evaluate_all_idem d.attributes d.protocol status_passed)
