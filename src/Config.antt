-- ===== src/Config.antt =====
-- internal/config/config.go: the configuration, its validation and the overrides from the environment.
pub mod Types
pub mod Validate
pub mod Load
pub mod Usable
pub mod Environment
mod Tests
