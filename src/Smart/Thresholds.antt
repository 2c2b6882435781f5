-- ===== src/Smart/Thresholds.antt =====
-- internal/smart/thresholds.go: the table of failure rates and its lookups. An annual failure rate is
-- written in thousandths: the source has only the constants below and compares them with 0.10 and 0.20.
use glint.Common.{
  ℕ, ◌-◌, ◌^◌, String, Bool, ◌&&◌, Option, none, some, List, [], ◌∷◌, if◌then◌else◌, any,
}
use glint.Common.Int.{ℤ, pos, leb_ℤ, eqb_ℤ}
use glint.Common.Text.{Str, str}
use glint.Common.Dict.{Dict, lookup, int_key}

pub record Bucket : Type 0 where
  pub low : ℤ
  pub high : ℤ
  pub annual_failure_rate : ℕ

pub record AttrThreshold : Type 0 where
  pub id : ℤ
  pub name : Str
  pub buckets : List Bucket

-- 1<<62 - 1
abbrev pub open_end : ℕ
open_end = 2 ^ 62 - 1

abbrev bucket : ℕ → ℕ → ℕ → Bucket
bucket l h r = record { low = pos l; high = pos h; annual_failure_rate = r }

abbrev entry : ℕ → String → List Bucket → ℤ × AttrThreshold
entry i n bs = (pos i, record { id = pos i; name = str n; buckets = bs })

unfoldable pub threshold_table : Dict ℤ AttrThreshold
threshold_table =
    entry 5 "Reallocated Sectors Count" (
      bucket 0 0 25
      ∷ bucket 1 4 27
      ∷ bucket 4 16 75
      ∷ bucket 16 70 236
      ∷ bucket 70 open_end 500
      ∷ [])
    ∷ entry 10 "Spin Retry Count" (bucket 0 0 25 ∷ bucket 1 3 150 ∷ bucket 3 open_end 350 ∷ [])
    ∷ entry 187 "Reported Uncorrectable Errors"
        (bucket 0 0 15 ∷ bucket 1 10 50 ∷ bucket 10 50 150 ∷ bucket 50 open_end 400 ∷ [])
    ∷ entry 188 "Command Timeout"
        (bucket 0 0 15 ∷ bucket 1 100 30 ∷ bucket 100 1000 80 ∷ bucket 1000 open_end 200 ∷ [])
    ∷ entry 196 "Reallocate Event Count"
        (bucket 0 0 25 ∷ bucket 1 5 50 ∷ bucket 5 open_end 250 ∷ [])
    ∷ entry 197 "Current Pending Sector Count"
        (bucket 0 0 25 ∷ bucket 1 5 100 ∷ bucket 5 open_end 350 ∷ [])
    ∷ entry 198 "Offline Uncorrectable Sector Count"
        (bucket 0 0 25 ∷ bucket 1 5 100 ∷ bucket 5 open_end 350 ∷ [])
    ∷ entry 1 "Read Error Rate"
        (bucket 0 0 20 ∷ bucket 1 1000 30 ∷ bucket 1000 100000 80 ∷ bucket 100000 open_end 150 ∷ [])
    ∷ entry 9 "Power-On Hours" (
        bucket 0 10000 20
        ∷ bucket 10000 20000 25
        ∷ bucket 20000 40000 30
        ∷ bucket 40000 open_end 60
        ∷ [])
    ∷ entry 194 "Temperature"
        (bucket 0 35 20 ∷ bucket 35 45 25 ∷ bucket 45 55 50 ∷ bucket 55 open_end 120 ∷ [])
    ∷ entry 199 "UDMA CRC Error Count"
        (bucket 0 0 25 ∷ bucket 1 100 30 ∷ bucket 100 open_end 100 ∷ [])
    ∷ entry 200 "Multi-Zone Error Rate"
        (bucket 0 0 20 ∷ bucket 1 100 50 ∷ bucket 100 open_end 150 ∷ [])
    ∷ []

critical_attributes : List ℤ
critical_attributes = pos 5 ∷ pos 10 ∷ pos 187 ∷ pos 188 ∷ pos 196 ∷ pos 197 ∷ pos 198 ∷ []

unfoldable pub is_critical : ℤ → Bool
unfolding critical_attributes
is_critical id = any (eqb_ℤ id) critical_attributes

unfoldable pub lookup_threshold : ℤ → Option AttrThreshold
unfolding threshold_table lookup
lookup_threshold id = lookup id threshold_table

unfoldable pub in_bucket : Bucket → ℤ → Bool
in_bucket b raw = leb_ℤ b.low raw && leb_ℤ raw b.high

unfoldable pub find_in : List Bucket → ℤ → Option Bucket
find_in [] raw = none
find_in (b ∷ bs) raw = if in_bucket b raw then some b else find_in bs raw

unfoldable pub find_bucket : AttrThreshold → ℤ → Option Bucket
unfolding find_in
find_bucket t raw = find_in t.buckets raw
