-- ===== src/Assessment/Findings.antt =====
-- packages/contracts/assessments.py and apps/backend/assessment/findings.py: findings. A finding's rationale
-- is left out.
use kosa_aws.Base.{List, Option, String, ℕ}
use kosa_aws.Evidence.Binding.{EvaluationPerspective}
use kosa_aws.Evidence.Verdict.{EvaluationStatus}

pub record Finding : Type 0 where
  pub finding_id : String
  pub resource_id : String
  pub rule_id : String
  pub rule_version : String
  pub perspective : EvaluationPerspective
  pub status : EvaluationStatus
  pub severity : String
  pub score : ℕ
  pub evidence_references : List String
  pub assessed_commit_sha : Option String
  pub evaluated_at : Option String
