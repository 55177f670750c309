-- ===== src/Iam.antt =====
-- The IAM policy service, services/iam-policy.
pub mod Hierarchy
