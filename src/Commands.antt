-- ===== src/Commands.antt =====
-- cmd: the programs that are more than a call of the library.
pub mod Watchdog
pub mod Healthcheck
pub mod DemoTarget
pub mod Certgen
