-- ===== src/Remediation.antt =====
-- apps/backend/remediation: the evaluation of a plan's readiness for approval.
pub mod Readiness
