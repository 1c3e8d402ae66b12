-- ===== src/Remediation/Readiness/Ready.antt =====
-- When a plan is ready for approval, and when it needs a human.
use mathlib.Core.Path.{subst}
use kosa_aws.Base.{
  Bool, List, Option, String, [], all, any, arith, contains, eq_iff, false, is_blank, is_empty,
  none, not, opt_eq, opt_eq_iff, refl, some, true, ◌&&◌, ◌++◌, ◌==◌, ◌||◌, ◌↔◌, ◌∙◌, ◌∷◌, ◌≡◌, ◌≢◌,
}
use kosa_aws.Deployment.Contracts.{
  DeploymentReadiness, manual_review, readiness_post_init, ready_for_approval,
}
use kosa_aws.Errors.{bind_ok, ok, ok_inj, require_ok}
use kosa_aws.Evidence.Plan.{GovernanceControl}
use kosa_aws.Jobs.Model.{require_non_empty_string}
use kosa_aws.Remediation.Readiness.{
  PlanReadinessInput, RemediationContext, evaluate_deployment_readiness, finding_resolved,
  is_unresolved, note, readiness_reasons, status_of_reasons, wants_review,
}

any-append :
    {A : Type 0} (p : A → Bool) (xs ys : List A) → any p (xs ++ ys) ≡ (any p xs || any p ys)
any-append p [] ys = refl
any-append p (x ∷ xs) ys = ground (arith, any-append p xs ys)

is_empty-append : {A : Type 0} (xs ys : List A) → is_empty (xs ++ ys) ≡ (is_empty xs && is_empty ys)
is_empty-append [] ys = refl
is_empty-append (x ∷ xs) ys = refl

-- A reason in front of others: what it adds to the two tests of the status.
any-note :
    (b : Bool) (reason : String) (rest : List String)
    → any wants_review (note b reason ++ rest)
      ≡ ((b && wants_review reason) || any wants_review rest)
any-note true reason rest = ground arith
any-note false reason rest = refl

is_empty-note :
    (b : Bool) (reason : String) (rest : List String)
    → is_empty (note b reason ++ rest) ≡ (not b && is_empty rest)
is_empty-note true reason rest = refl
is_empty-note false reason rest = refl

-- The reasons by the six conditions.
abbrev listed : (a b c d e f : Bool) → List String
listed a b c d e f =
    note a "PLAN_CUSTOMER_SCOPE_MISMATCH"
    ++ (note b "PLAN_REPOSITORY_SCOPE_MISMATCH"
        ++ (note c "PLAN_NOT_REFRESHED"
            ++ (note d "FINDING_RESOURCE_NOT_MAPPED"
                ++ (note e "DESTRUCTIVE_CHANGE_REQUIRES_MANUAL_REVIEW"
                    ++ note f "FINDING_UNRESOLVED_IN_PLAN"))))

review-last : (f : Bool) → any wants_review (note f "FINDING_UNRESOLVED_IN_PLAN") ≡ false
unfolding wants_review
review-last true = refl
review-last false = refl

review-destructive :
    (e : Bool) (rest : List String)
    → any wants_review rest ≡ false
    → any wants_review (note e "DESTRUCTIVE_CHANGE_REQUIRES_MANUAL_REVIEW" ++ rest) ≡ e
unfolding wants_review
review-destructive true rest h = refl
review-destructive false rest h = h

-- A reason that asks for no review changes nothing.
review-other :
    (b : Bool) (reason : String) (rest : List String)
    → wants_review reason ≡ false
    → any wants_review (note b reason ++ rest) ≡ any wants_review rest
review-other b reason rest h = ground (arith, any-note b reason rest, h)

silent_customer : wants_review "PLAN_CUSTOMER_SCOPE_MISMATCH" ≡ false
unfolding wants_review
silent_customer = refl

silent_repository : wants_review "PLAN_REPOSITORY_SCOPE_MISMATCH" ≡ false
unfolding wants_review
silent_repository = refl

silent_refreshed : wants_review "PLAN_NOT_REFRESHED" ≡ false
unfolding wants_review
silent_refreshed = refl

silent_mapped : wants_review "FINDING_RESOURCE_NOT_MAPPED" ≡ false
unfolding wants_review
silent_mapped = refl

listed-review : (a b c d e f : Bool) → any wants_review (listed a b c d e f) ≡ e
listed-review a b c d e f =
    review-other a _ _ silent_customer
    ∙ review-other b _ _ silent_repository
    ∙ review-other c _ _ silent_refreshed
    ∙ review-other d _ _ silent_mapped
    ∙ review-destructive e _ (review-last f)

listed-empty :
    (a b c d e f : Bool)
    → is_empty (listed a b c d e f) ≡ (not a && not b && not c && not d && not e && not f)
listed-empty a b c d e f = ground arith

listed-status :
    (a b c d e f : Bool)
    → ((status_of_reasons (listed a b c d e f) ≡ manual_review) ↔ (e ≡ true))
      × ((status_of_reasons (listed a b c d e f) ≡ ready_for_approval)
          ↔ ((not a && not b && not c && not d && not e && not f) ≡ true))
unfolding status_of_reasons
listed-status a b c d e f = ground (arith, listed-review a b c d e f, listed-empty a b c d e f)

-- What a ready plan has to show.
pub record Clear (context : RemediationContext) (plan_input : PlanReadinessInput)
    (resolved : Option Bool) : Type 0 where
  pub customer : plan_input.plan.artifact.customer_id ≡ context.snapshot.customer_id
  pub repository : plan_input.plan.artifact.repository_id ≡ some context.snapshot.repository_id
  pub refreshed : plan_input.refreshed ≡ true
  pub mapped : contains plan_input.mapped_resource_ids context.finding.resource_id ≡ true
  pub harmless : plan_input.has_destructive_changes ≡ false
  pub resolves : resolved ≢ some false

-- What an evaluation reports of a plan, with the outcome of the finding's predicates on it.
pub record Judged (context : RemediationContext) (plan_input : PlanReadinessInput)
    (resolved : Option Bool) (r : DeploymentReadiness) : Type 0 where
  pub ready : (r.status ≡ ready_for_approval) ↔ Clear context plan_input resolved
  pub review : (r.status ≡ manual_review) ↔ (plan_input.has_destructive_changes ≡ true)
  pub finding : r.finding_id ≡ context.finding.finding_id
  pub deployment : r.deployment_id ≡ plan_input.plan.deployment_id
  pub commit : r.commit_sha ≡ plan_input.plan.commit_sha
  pub hash : r.plan_hash ≡ plan_input.plan.plan_hash

unresolved_iff : (o : Option Bool) → (not (is_unresolved o) ≡ true) ↔ (o ≢ some false)
unresolved_iff none = (λ h e. cc, λ h. refl)
unresolved_iff (some true) = (λ h e. cc, λ h. refl)
unresolved_iff (some false) = (λ h. cc, λ h. absurd (h refl))

abbrev conditions : RemediationContext → PlanReadinessInput → Option Bool → Bool
conditions context i resolved =
    not (not (i.plan.artifact.customer_id == context.snapshot.customer_id))
    && not (not (opt_eq i.plan.artifact.repository_id (some context.snapshot.repository_id)))
    && not (not i.refreshed)
    && not (not (contains i.mapped_resource_ids context.finding.resource_id))
    && not i.has_destructive_changes
    && not (is_unresolved resolved)

abbrev ClearFields : RemediationContext → PlanReadinessInput → Option Bool → Type 0
ClearFields context i resolved =
    (i.plan.artifact.customer_id ≡ context.snapshot.customer_id)
    × (i.plan.artifact.repository_id ≡ some context.snapshot.repository_id)
    × (i.refreshed ≡ true)
    × (contains i.mapped_resource_ids context.finding.resource_id ≡ true)
    × (i.has_destructive_changes ≡ false)
    × (resolved ≢ some false)

six :
    (a b c d e f : Bool)
    → ((not (not a) && not (not b) && not (not c) && not (not d) && not e && not f) ≡ true)
      ↔ ((a ≡ true) × (b ≡ true) × (c ≡ true) × (d ≡ true) × (e ≡ false) × (not f ≡ true))
six a b c d e f = ground arith

conditions-Clear :
    (context : RemediationContext) (i : PlanReadinessInput) (resolved : Option Bool)
    → (conditions context i resolved ≡ true) ↔ Clear context i resolved
conditions-Clear context i resolved =
    let s =
      six (i.plan.artifact.customer_id == context.snapshot.customer_id)
        (opt_eq i.plan.artifact.repository_id (some context.snapshot.repository_id)) i.refreshed
        (contains i.mapped_resource_ids context.finding.resource_id) i.has_destructive_changes
        (is_unresolved resolved) in
    let customers = eq_iff i.plan.artifact.customer_id context.snapshot.customer_id in
    let repositories =
      opt_eq_iff i.plan.artifact.repository_id (some context.snapshot.repository_id) in
    (
      λ h.
          let (a, b, c, d, e, f) = s.0 h in
          record {
            customer = customers.0 a;
            repository = repositories.0 b;
            refreshed = c;
            mapped = d;
            harmless = e;
            resolves = (unresolved_iff resolved).0 f;
          },
      λ k. s.1 (
        customers.1 k.customer,
        repositories.1 k.repository,
        k.refreshed,
        k.mapped,
        k.harmless,
        (unresolved_iff resolved).1 k.resolves,
      ),
    )

readiness_post_init-same :
    (r : DeploymentReadiness) {r' : DeploymentReadiness} → readiness_post_init r ≡ ok r' → r ≡ r'
unfolding readiness_post_init
readiness_post_init-same r h =
    let (_, _, h1) = bind_ok (require_non_empty_string r.deployment_id) _ h in
    let (_, _, h2) = bind_ok (require_non_empty_string r.finding_id) _ h1 in
    let (_, _, h3) = bind_ok (require_non_empty_string r.commit_sha) _ h2 in
    let (_, _, h4) = bind_ok (require_non_empty_string r.plan_hash) _ h3 in
    let (_, h5) = require_ok (not (is_empty r.reason_codes)) _ _ h4 in
    let (_, h6) = require_ok (all (λ reason. not (is_blank reason)) r.reason_codes) _ _ h5 in
    ok_inj h6

-- If the evaluation returns, its status is READY_FOR_APPROVAL exactly where the plan is in the
-- customer's and repository's scope, refreshed, maps the finding's resource, destroys nothing, and the
-- finding's predicates do not fail on the plan's values; it is MANUAL_REVIEW exactly where the plan
-- has destructive changes; and it names the finding and the plan's deployment, commit and hash.
pub evaluate_deployment_readiness-Judged :
    (casefold : String → String) (context : RemediationContext) (plan_input : PlanReadinessInput)
    (rule_control : Option (GovernanceControl × List String)) (resource_type : Option String)
    {r : DeploymentReadiness}
    → evaluate_deployment_readiness casefold context plan_input rule_control resource_type ≡ ok r
    → (resolved : Option Bool) × (finding_resolved casefold context plan_input rule_control
          resource_type
        ≡ ok resolved)
      × Judged context plan_input resolved r
unfolding evaluate_deployment_readiness readiness_reasons
evaluate_deployment_readiness-Judged casefold context i rule_control resource_type h =
    let (resolved, hr, h1) =
      bind_ok (finding_resolved casefold context i rule_control resource_type) _ h in
    let (review, ready) =
      listed-status (not (i.plan.artifact.customer_id == context.snapshot.customer_id))
        (not (opt_eq i.plan.artifact.repository_id (some context.snapshot.repository_id)))
        (not i.refreshed) (not (contains i.mapped_resource_ids context.finding.resource_id))
        i.has_destructive_changes (is_unresolved resolved) in
    let clear = conditions-Clear context i resolved in
    let made : Judged context i resolved _ = record {
      ready = (λ p. clear.0 (ready.0 p), λ k. ready.1 (clear.1 k));
      review = review;
      finding = refl;
      deployment = refl;
      commit = refl;
      hash = refl;
    } in
    (resolved, hr, subst (Judged context i resolved) (readiness_post_init-same _ h1) made)
