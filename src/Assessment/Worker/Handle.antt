-- ===== src/Assessment/Worker/Handle.antt =====
-- apps/backend/assessment/worker.py: `handle`, whose calls of the stores are recorded. The commit and the
-- time that results are stamped with are not kept, as the results of the model do not have them.
use kosa_aws.Assessment.Results.{EvaluationResult}
use kosa_aws.Assessment.Worker.{AssessmentResourceWork, WorkerRunners, evaluate}
use kosa_aws.Assessment.Worker.Ports.{
  AssessmentEvaluationPlan, WorkerPorts, plan_coordinates, evaluation_plan_post_init, resource_work,
}
use kosa_aws.Base.{List, String, none, some}
use kosa_aws.Deployment.Trace.{Exec, lift, perform, pure, ◌>>=◌, ◌>>◌}
use kosa_aws.Jobs.Model.{WorkflowTask}
use kosa_aws.Policy.Context.{PolicyContext}

pub data StoreCall : Type 0 where
  put_plan : AssessmentEvaluationPlan → StoreCall
  put_results : (customer assessment : String) → List EvaluationResult → StoreCall

unfoldable pub record_plan :
    WorkerPorts → WorkerRunners → AssessmentResourceWork → PolicyContext → Exec StoreCall (Unit {0})
unfolding plan_coordinates evaluation_plan_post_init
record_plan ports worker work context = elim ports.put_plan_if_absent [
  | none ↦ pure tt
  | some put ↦ do
    coordinates ← lift (plan_coordinates worker work context)
    plan ← lift (
        evaluation_plan_post_init (record {
          customer_id = work.customer_id;
          assessment_id = work.assessment_id;
          planned_coordinates = coordinates;
        }))
    perform (put_plan plan) (put plan)
]

-- `AssessmentWorker.handle`
unfoldable pub assess :
    WorkerPorts → WorkerRunners → WorkflowTask → Exec StoreCall (List EvaluationResult)
unfolding resource_work record_plan evaluate
assess ports worker task = do
  (work, context) ← lift (resource_work ports task)
  record_plan ports worker work context
  profile ← lift (ports.get_assessment_profile work.model_profile_id)
  results ← lift (evaluate work context profile worker)
  perform (put_results work.customer_id work.assessment_id results)
      (ports.put_results_if_absent work.customer_id work.assessment_id results)
  pure results
