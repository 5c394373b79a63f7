-- ===== src/Config.antt =====
-- internal/config: the configuration, its defaults, its validation and what is read off it.
pub mod Types
pub mod Defaults
pub mod Validation
pub mod Windows
pub mod Load
