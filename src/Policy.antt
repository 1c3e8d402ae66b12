-- ===== src/Policy.antt =====
-- apps/backend/policy: the rules that apply to an assessment, and what may be done about a finding.
pub mod Rules
pub mod Context
pub mod Remediation
mod Tests
