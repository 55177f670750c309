-- ===== src/Domain.antt =====
-- The value types of libs/go/src/domain.
pub mod Money
