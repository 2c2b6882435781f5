-- ===== src/Smart/Buckets.antt =====
-- The buckets of the table of failure rates and the search in them (internal/smart/thresholds.go).
use glint.Common.{
  ℕ, ◌+◌, ◌≤◌, ◌≡◌, refl, inl, inr, Bool, true, false, ◌&&◌, none, some, List, [], ◌∷◌, arith, leb,
  ◌==◌, all, Bool-cases,
}
use glint.Common.Int.{ℤ, pos, pos_part, neg_part, leb_ℤ, eqb_ℤ, ◌≤ℤ◌}
use glint.Common.Dict.{lookup-all, int_key}
use glint.Smart.Thresholds.{
  Bucket, AttrThreshold, open_end, threshold_table, lookup_threshold, in_bucket, find_in,
  find_bucket,
}

-- The next bucket begins no later than one past the end of this one, ends no earlier and has no
-- smaller rate.
follows : Bucket → Bucket → Bool
follows a b =
    leb_ℤ a.low b.low
    && leb (pos_part b.low + neg_part a.high) (pos_part a.high + neg_part b.low + 1)
    && leb_ℤ a.high b.high
    && leb a.annual_failure_rate b.annual_failure_rate

chained : Bucket → List Bucket → Bool
unfolding follows
chained a [] = pos_part a.high == open_end
chained a (b ∷ bs) = follows a b && chained b bs

regular : List Bucket → Bool
unfolding chained
regular [] = false
regular (b ∷ bs) = eqb_ℤ b.low (pos 0) && chained b bs

table-regular : all (λ e. regular e.1.buckets) threshold_table ≡ true
unfolding regular threshold_table
table-regular = refl

threshold-regular :
    (id : ℤ) (t : AttrThreshold) → lookup_threshold id ≡ some t → regular t.buckets ≡ true
unfolding lookup_threshold
threshold-regular id t h = lookup-all (λ u. regular u.buckets) id threshold_table t table-regular h

-- From a chain, a value from the first low end up to the open end has a bucket.
find_in-covers :
    (a : Bucket) (bs : List Bucket) (raw : ℕ)
    → chained a bs ≡ true
    → a.low ≤ℤ pos raw
    → raw ≤ open_end
    → (b : Bucket) × (find_in (a ∷ bs) (pos raw) ≡ some b)
unfolding find_in in_bucket chained
find_in-covers a [] raw h lo hi = (a, ground arith)
find_in-covers a (b ∷ bs) raw h lo hi = elim (Bool-cases (leb_ℤ (pos raw) a.high)) [
  | inl inside ↦ (a, ground arith)
  | inr outside ↦
      let (c, found) = find_in-covers b bs raw (ground arith) (ground arith) hi in (c, ground arith)
]

-- Every raw value from 0 to 2^62 - 1 falls into a bucket of an attribute that the table has.
pub find_bucket-covers :
    (id : ℤ) (t : AttrThreshold) (raw : ℕ)
    → lookup_threshold id ≡ some t
    → raw ≤ open_end
    → (b : Bucket) × (find_bucket t (pos raw) ≡ some b)
unfolding find_bucket regular
find_bucket-covers id t raw h hi = from t.buckets (threshold-regular id t h)
  where
    from : (bs : List Bucket) → regular bs ≡ true → (b : Bucket) × (find_in bs (pos raw) ≡ some b)
    from [] r = cc
    from (a ∷ bs) r = find_in-covers a bs raw (ground arith) (ground arith) hi

-- Below the low end of a chain there is no bucket.
find_in-below :
    (a : Bucket) (bs : List Bucket) (raw : ℤ)
    → chained a bs ≡ true
    → leb_ℤ a.low raw ≡ false
    → find_in (a ∷ bs) raw ≡ none
unfolding find_in in_bucket chained
find_in-below a [] raw h lo = ground arith
find_in-below a (b ∷ bs) raw h lo = ground (arith, find_in-below b bs raw)

-- A bucket found in a chain has no smaller rate than the first.
rate-find_in :
    (a : Bucket) (bs : List Bucket) (raw : ℤ) (b : Bucket)
    → chained a bs ≡ true
    → find_in (a ∷ bs) raw ≡ some b
    → a.annual_failure_rate ≤ b.annual_failure_rate
unfolding find_in chained
rate-find_in a [] raw b h e = ground arith
rate-find_in a (c ∷ bs) raw b h e = ground (arith, rate-find_in c bs raw b)

-- Of two values in order, only the larger one in the bucket, the smaller lies below it.
below_of_in_bucket :
    (a : Bucket) (raw raw' : ℤ)
    → raw ≤ℤ raw'
    → in_bucket a raw ≡ false
    → in_bucket a raw' ≡ true
    → leb_ℤ a.low raw ≡ false
unfolding in_bucket
below_of_in_bucket a raw raw' le out in' = ground arith

rate-find_in_mono :
    (a : Bucket) (bs : List Bucket) (raw raw' : ℤ) (b b' : Bucket)
    → chained a bs ≡ true
    → raw ≤ℤ raw'
    → find_in (a ∷ bs) raw ≡ some b
    → find_in (a ∷ bs) raw' ≡ some b'
    → b.annual_failure_rate ≤ b'.annual_failure_rate
unfolding find_in chained
rate-find_in_mono a [] raw raw' b b' h le e e' = ground arith
rate-find_in_mono a (c ∷ bs) raw raw' b b' h le e e' = elim (Bool-cases (in_bucket a raw)) [
  | inl here ↦ ground (arith, rate-find_in a (c ∷ bs) raw' b' h e')
  | inr out ↦ elim (Bool-cases (in_bucket a raw')) [
    | inl here ↦ cc (e, find_in-below a (c ∷ bs) raw h (below_of_in_bucket a raw raw' le out here))
    | inr out' ↦
        rate-find_in_mono c bs raw raw' b b' (ground arith) le (rw out at e) (rw out' at e')
  ]
]

-- For an attribute of the table and two raw values that have buckets, the bucket of the larger value has
-- no smaller failure rate.
pub rate-find_bucket_mono :
    (id : ℤ) (t : AttrThreshold) (raw raw' : ℤ) (b b' : Bucket)
    → lookup_threshold id ≡ some t
    → raw ≤ℤ raw'
    → find_bucket t raw ≡ some b
    → find_bucket t raw' ≡ some b'
    → b.annual_failure_rate ≤ b'.annual_failure_rate
unfolding find_bucket regular
rate-find_bucket_mono id t raw raw' b b' h le e e' = from t.buckets (threshold-regular id t h) e e'
  where
    from :
        (bs : List Bucket)
        → regular bs ≡ true
        → find_in bs raw ≡ some b
        → find_in bs raw' ≡ some b'
        → b.annual_failure_rate ≤ b'.annual_failure_rate
    from [] r f f' = cc
    from (a ∷ bs) r f f' = rate-find_in_mono a bs raw raw' b b' (ground arith) le f f'
