-- ===== src/Alerter.antt =====
-- internal/alerter/alerter.go: the alerter evaluates its rules on a snapshot of the cache.
pub mod Config
pub mod State
pub mod Notice
pub mod Evaluate
pub mod Steps
pub mod Rounds
pub mod Cooldown
pub mod Conditions
pub mod Tests
