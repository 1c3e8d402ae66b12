-- ===== src/Evidence.antt =====
-- The evidence that code judges: apps/backend/policy/evidence_paths.py,
-- apps/backend/assessment/deterministic.py and plan_facts.py, and
-- packages/contracts/terraform_plan.py.
pub mod Json
pub mod Path
pub mod Lookup
pub mod Binding
pub mod Verdict
pub mod Plan
pub mod TerraformPlan
mod Tests
