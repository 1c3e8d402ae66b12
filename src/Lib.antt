-- ===== src/Lib.antt =====
-- Verification of the governance platform: the parts that decide who may do what, how work moves
-- through its states, and which evidence settles a finding.
--
-- The program assesses the infrastructure code and the actual state of a customer's accounts against
-- policy rules, proposes remediations, and deploys them after a human has approved a plan. Work is a job
-- with a revision; each step of it is a message of a transactional outbox that names the job's next
-- revision. A deployment's plan, approval, run and verification are facts that its worker reads again
-- before every command, and its status is derived from them.
--
-- The files, by the paths of the repository:
--   Base, Base/*: shared names, Boolean tests, lists and texts.
--   Errors: the exceptions as values, `Result` and `require`.
--   Jobs/Model, Jobs/Lifecycle: packages/contracts/jobs.py, apps/backend/jobs/models.py and lifecycle.py.
--     `job_post_init` is `Job.__post_init__`, `transition_job` and `create_job` are the functions of that
--     name, and a `Run` is a sequence of transitions.
--   Jobs/Item, Jobs/Table, Jobs/Repository: apps/backend/repositories/dynamodb.py. A table is any value of
--     the interface `DynamoTable`, whose laws say what a consistent read and a conditional put promise.
--     `update_job` takes the table that it read and the table at the time of its write, since other
--     writers may act in between.
--   Jobs/Outbox: apps/backend/jobs/outbox.py. Whether a call returns or raises is up to a world.
--   PublicErrors: apps/backend/jobs/errors.py.
--   Auth: apps/backend/auth/authorization.py and principal.py.
--   Deployment/Contracts, Deployment/Status: packages/contracts/deployments.py and remediation.py.
--   Deployment/Trace: code that calls ports, as a result beside the calls made so far.
--   Deployment/Work, Deployment/Worker: apps/backend/deployment/worker.py.
--   Deployment/Record, Deployment/Approval, Deployment/Completion: record.py, approval.py and completion.py
--     of apps/backend/deployment. Deployment/Resume holds what the last two share.
--   Remediation/Readiness: apps/backend/remediation/readiness.py.
--   Evidence/Json, Evidence/Path, Evidence/Lookup: documents and apps/backend/policy/evidence_paths.py.
--   Evidence/Binding: `EvidenceCapabilityBinding` of packages/contracts/policy_authoring.py.
--   Evidence/Verdict, Evidence/Plan: apps/backend/assessment/deterministic.py and plan_facts.py.
--   Evidence/TerraformPlan: packages/contracts/terraform_plan.py.
--   Policy/Rules, Policy/Context: packages/contracts/policy.py and apps/backend/policy/context.py. The
--     catalog is any value of `PolicyCatalog`.
--   Policy/Remediation: packages/contracts/remediation_policy.py. Policy/Remediation/Exempt and Decide:
--     apps/backend/policy/remediation.py; a decision is first a `Judgement`, which names the return of
--     `decide` that is taken, and then the contract that is built of it.
--   Assessment/Runner, Assessment/ManualReview: runner.py and manual_review.py of apps/backend/assessment,
--     over any value of `Evaluator`.
--   Assessment/Planner, Assessment/Worker: execution_plan.py and worker.py of the same package, from the
--     perspectives of a rule to the plan of a task and its evaluation. The loop of `_evaluate` over the
--     runners is written out in the order of the perspectives; `assess` is `handle`, with the calls of the
--     stores. Assessment/Coverage: coverage.py. Assessment/Verification: verification.py and models.py.
--   Assessment/Readiness: apps/backend/assessment/readiness.py. A score is kept in hundredths. Python's
--     `round(a / b, 2)` is a parameter, as it depends on the arithmetic of floats; `Rounds` of
--     Assessment/Readiness/Rounding has its laws, and `nearest` there is one such rounding.
--   Assessment/Results, Assessment/Findings, Assessment/Drift, Assessment/Comparison:
--     packages/contracts/assessments.py, and drift.py and comparison.py of apps/backend/assessment.
--
-- Values have the types that the source checks with isinstance, so those checks are not written. Revisions
-- and counts are natural numbers, as Python's integers have no bound. A set that is only searched is a
-- list, and a dictionary an association list or a function. The path parser recurses on fuel, the length
-- of the path, as each round of it consumes a character; a loop that has not ended is told from a path
-- that is refused. `str.casefold` is a parameter, and so is
-- `datetime.fromisoformat`, whose results are instants, natural numbers that count from a fixed early
-- one. Error messages and the texts of rationales are left out; of the rationale of a verdict by code it is
-- kept which sentence it is and what that names.
--
-- Not modelled: the user interface, the infrastructure code, the calls of the model service and of the
-- cloud provider, the wiring of handlers and workers, the reports, the authoring of policies, and the
-- transactions that write a deployment with its job.
pub mod Base
pub mod Errors
pub mod Jobs
pub mod Auth
pub mod Deployment
pub mod Evidence
pub mod Remediation
pub mod Assessment
pub mod Policy
pub mod PublicErrors
