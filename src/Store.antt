-- ===== src/Store.antt =====
-- internal/store: the repository interface and its implementations.
pub mod Types
pub mod Key
pub mod Outcome
pub mod Memory
pub mod Postgres
