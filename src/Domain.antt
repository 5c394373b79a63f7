-- ===== src/Domain.antt =====
-- internal/domain: the data that the other packages share, and the SLO arithmetic.
pub mod Types
pub mod Slo
