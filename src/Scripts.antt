-- ===== src/Scripts.antt =====
-- The tools under scripts/ that guard the build: the coverage threshold and the report of the fuzz targets.
-- The runs of the Go toolchain and the file system are parameters; what the tools print is left out.
pub mod Coverage
pub mod Ratchet
pub mod Filtered
pub mod Fuzz
pub mod Report
pub mod Exit
mod Tests
