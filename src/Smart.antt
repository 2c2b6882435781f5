-- ===== src/Smart.antt =====
-- internal/smart: SMART data. The model stands in `Thresholds` and `Evaluate` (the verdicts) and in
-- `Ata`, `Nvme` and `Scsi` (the parsers).
pub mod Thresholds
pub mod Evaluate
pub mod Buckets
pub mod Flags
pub mod Verdicts
pub mod Ata
pub mod Nvme
pub mod Scsi
pub mod Parsing
pub mod Outputs
pub mod Endurance
mod Tests
mod Examples
