-- ===== src/Functional.antt =====
-- The types of libs/go/src/functional.
pub mod Validated
