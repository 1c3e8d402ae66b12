-- ===== src/Assessment.antt =====
-- apps/backend/assessment: what is derived in code from the results of an assessment.
pub mod Results
pub mod Findings
pub mod Readiness
pub mod Runner
pub mod ManualReview
pub mod Drift
pub mod Comparison
pub mod Planner
pub mod Worker
pub mod Coverage
pub mod Verification
mod Tests
