-- ===== src/Common/Time.antt =====
-- Go's durations and instants, in nanoseconds. An instant counts from the Unix epoch.
use glint.Common.{ℕ, ◌*◌}

abbrev pub second : ℕ
second = 1_000_000_000

abbrev pub minute : ℕ
minute = 60 * second

abbrev pub hour : ℕ
hour = 60 * minute
