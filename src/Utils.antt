-- ===== src/Utils.antt =====
-- The generic helpers of libs/go/src/utils.
pub mod Diff
pub mod Merge
