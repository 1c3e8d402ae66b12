-- ===== src/Evidence/Plan.antt =====
-- apps/backend/assessment/plan_facts.py and the lookups of
-- apps/backend/assessment/deterministic.py: a Rule's predicates judged on the values of a Terraform
-- plan. The facts of a plan map a location to its values.
use Prim.Native.String.{◌++◌ as append}
use kosa_aws.Base.{
  Bool, List, Option, String, [], false, if◌then◌else◌, is_empty, map, none, not, some, true, ◌&&◌,
  ◌++◌, ◌==◌, ◌||◌, ◌∷◌,
}
use kosa_aws.Errors.{Result, ok, ◌>>=◌}
use kosa_aws.Evidence.Binding.{
  EvaluationPerspective, EvidenceCapabilityBinding, PlanEvidencePath, aws_actual, is_decidable,
}
use kosa_aws.Evidence.Json.{Json}
use kosa_aws.Evidence.Verdict.{
  DeterministicVerdict, Observation, observe, verdict_from_observations,
}
use kosa_aws.Jobs.Item.{lookup}

pub record GovernanceControl : Type 0 where
  pub control_id : String
  pub available_evidence_capabilities : List EvidenceCapabilityBinding

abbrev pub is_aws : EvaluationPerspective → Bool
is_aws aws_actual = true
is_aws _ = false

-- `aws_bindings(control, resource_type=resource_type).get(key)`: of two bindings with one key the later
-- one is kept.
unfoldable pub aws_binding :
    List EvidenceCapabilityBinding → String → String → Option EvidenceCapabilityBinding
aws_binding [] resource_type key = none
aws_binding (binding ∷ bindings) resource_type key = elim (aws_binding bindings resource_type key) [
  | some later ↦ some later
  | none ↦
      if is_aws binding.perspective
        && binding.resource_type == resource_type
        && binding.capability_key == key
      then some binding
      else none
]

-- The loop of `decidable_bindings_for`.
unfoldable pub select_bindings :
    GovernanceControl
    → String
    → List String
    → List EvidenceCapabilityBinding
    → List EvidenceCapabilityBinding
unfolding aws_binding is_decidable
select_bindings control resource_type [] selected = selected
select_bindings control resource_type (key ∷ keys) selected =
    elim (aws_binding control.available_evidence_capabilities resource_type key) [
      | none ↦ []
      | some binding ↦
          let rest = select_bindings control resource_type keys (selected ++ (binding ∷ [])) in
          if is_decidable binding then rest else []
    ]

unfoldable pub decidable_bindings_for :
    GovernanceControl → List String → String → List EvidenceCapabilityBinding
unfolding select_bindings
decidable_bindings_for control required resource_type =
    select_bindings control resource_type required []

-- `evidence_location`
unfoldable pub evidence_location : String → String → String
evidence_location terraform_resource_type path = append terraform_resource_type (append ":" path)

abbrev pub Facts : Type 0
Facts = List (String × List Json)

-- `facts.get(location, ())`
abbrev pub values_at : Facts → String → List Json
values_at facts location = elim (lookup location facts) [ none ↦ [] | some values ↦ values ]

abbrev pub with_location : String → List Json → List (String × Json)
with_location location values = map (λ value. (location, value)) values

-- `_plan_values`, on the paths of the binding
unfoldable pub plan_values : List PlanEvidencePath → Facts → List (String × Json)
unfolding evidence_location lookup
plan_values [] facts = []
plan_values (entry ∷ entries) facts =
    let location = evidence_location entry.terraform_resource_type entry.path in
    with_location location (values_at facts location) ++ plan_values entries facts

module _ (casefold : String → String) where
  unfoldable pub observe_located :
      EvidenceCapabilityBinding → List (String × Json) → Result (List Observation)
  observe_located binding [] = ok []
  observe_located binding ((location, value) ∷ rest) = do
    first ← observe casefold binding location value
    others ← observe_located binding rest
    ok (first ∷ others)

  -- The loop of `decide_from_plan_evidence`; `none` where the plan does not settle a capability.
  unfoldable pub observe_required :
      GovernanceControl → String → Facts → List String → Result (Option (List Observation))
  unfolding aws_binding is_decidable plan_values
  observe_required control resource_type facts [] = ok (some [])
  observe_required control resource_type facts (key ∷ keys) =
      let others = observe_required control resource_type facts keys in
      elim (aws_binding control.available_evidence_capabilities resource_type key) [
        | none ↦ ok none
        | some binding ↦
            let located = plan_values binding.plan_paths facts in
            if not (is_decidable binding) || is_empty binding.plan_paths || is_empty located
            then ok none
            else (observe_located binding located >>= λ here. others >>= λ rest. elim rest [
              | none ↦ ok none
              | some observations ↦ ok (some (here ++ observations))
            ])
      ]

  abbrev pub optional_verdict : Option (List Observation) → Result (Option DeterministicVerdict)
  optional_verdict none = ok none
  optional_verdict (some observations) =
      verdict_from_observations observations >>= λ verdict. ok (some verdict)

  unfoldable pub decide_from_plan_evidence :
      GovernanceControl
      → List String
      → String
      → String
      → List (String × Facts)
      → Result (Option DeterministicVerdict)
  unfolding observe_required verdict_from_observations lookup
  decide_from_plan_evidence control required resource_type resource_id evidence =
      elim (lookup resource_id evidence) [
        | none ↦ ok none
        | some facts ↦
            if is_empty facts || is_empty required
            then ok none
            else (observe_required control resource_type facts required >>= optional_verdict)
      ]
