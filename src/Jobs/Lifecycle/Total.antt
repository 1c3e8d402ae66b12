-- ===== src/Jobs/Lifecycle/Total.antt =====
-- When `transition_job` succeeds.
use kosa_aws.Base.{
  Option, String, arith, eq_iff, is_some, nat_eq_iff, none, not, refl, some, true, ◌||◌, ◌↔◌, ◌≡◌,
}
use kosa_aws.Errors.{Result, bind_ok, ok}
use kosa_aws.Jobs.Lifecycle.{Transition, allowed, is_failed, link_once, transition_job}
use kosa_aws.Jobs.Lifecycle.Advance.{job_post_init-error, next_job, transition_job-Taken}
use kosa_aws.Jobs.Model.{
  ApiError, Job, JobStatus, error_fits, job_post_init, require_non_empty_string,
  require_optional_non_empty_string,
}

-- `link_once` raises only where a link is set and another one is given.
abbrev pub LinkFits : Option String → Option String → Type 0
LinkFits (some old) (some new) = new ≡ old
LinkFits _ _ = Unit

-- What the caller of a transition must respect.
pub record Accepts (j : Job) (t : Transition) : Type 0 where
  pub revision : j.revision ≡ t.expected_revision
  pub status : allowed j.status t.status ≡ true
  pub error : is_failed t.status ≡ is_some t.error
  pub assessment_id : LinkFits j.assessment_id t.assessment_id
  pub remediation_id : LinkFits j.remediation_id t.remediation_id
  pub deployment_id : LinkFits j.deployment_id t.deployment_id
  pub assessment_named : require_optional_non_empty_string t.assessment_id ≡ ok tt
  pub remediation_named : require_optional_non_empty_string t.remediation_id ≡ ok tt
  pub deployment_named : require_optional_non_empty_string t.deployment_id ≡ ok tt

-- A job that its constructor accepts.
abbrev pub IsValid : Job → Type 0
IsValid j = job_post_init j ≡ ok j

pub link_once-ok :
    (old new : Option String)
    → LinkFits old new
    → require_optional_non_empty_string old ≡ ok tt
    → require_optional_non_empty_string new ≡ ok tt
    → (l : Option String) × (link_once old new ≡ ok l)
      × (require_optional_non_empty_string l ≡ ok tt)
unfolding link_once
link_once-ok old none fits a b = (old, refl, a)
link_once-ok none (some n) fits a b = (some n, refl, b)
link_once-ok (some o) (some n) fits a b = (some o, ground (arith, eq_iff n o), a)

pub link_once-fits :
    (old new : Option String) {l : Option String} → link_once old new ≡ ok l → LinkFits old new
unfolding link_once
link_once-fits none none e = tt
link_once-fits (some o) none e = tt
link_once-fits none (some n) e = tt
link_once-fits (some o) (some n) e = ground (arith, eq_iff n o)

error_fits_iff :
    (s : JobStatus) (e : Option ApiError) → (error_fits s e ≡ true) ↔ (is_failed s ≡ is_some e)
unfolding error_fits is_failed
error_fits_iff s e = ground arith

-- The identity fields that no transition changes.
abbrev pub Named : Job → Type 0
Named j =
    (require_non_empty_string j.job_id ≡ ok tt)
    × (require_non_empty_string j.customer_id ≡ ok tt)
    × (require_non_empty_string j.job_type ≡ ok tt)
    × (require_non_empty_string j.requested_by ≡ ok tt)

abbrev pub Linked : Job → Type 0
Linked j =
    (require_optional_non_empty_string j.assessment_id ≡ ok tt)
    × (require_optional_non_empty_string j.remediation_id ≡ ok tt)
    × (require_optional_non_empty_string j.deployment_id ≡ ok tt)

pub unit_ok : {r : Result (Unit {0})} (u : Unit {0}) → r ≡ ok u → r ≡ ok tt
unit_ok u e = e

pub IsValid-Named : (j : Job) {k : Job} → job_post_init j ≡ ok k → Named j × Linked j
unfolding job_post_init
IsValid-Named j v =
    let (a, ea, v1) = bind_ok (require_non_empty_string j.job_id) _ v in
    let (b, eb, v2) = bind_ok (require_non_empty_string j.customer_id) _ v1 in
    let (c, ec, v3) = bind_ok (require_non_empty_string j.job_type) _ v2 in
    let (d, ed, v4) = bind_ok (require_non_empty_string j.requested_by) _ v3 in
    let (e, ee, v5) = bind_ok (require_optional_non_empty_string j.assessment_id) _ v4 in
    let (f, ef, v6) = bind_ok (require_optional_non_empty_string j.remediation_id) _ v5 in
    let (g, eg, v7) = bind_ok (require_optional_non_empty_string j.deployment_id) _ v6 in
    ((ea, eb, ec, ed), (ee, ef, eg))

job_post_init-build :
    (j : Job) → Named j → Linked j → error_fits j.status j.error ≡ true → IsValid j
unfolding job_post_init
job_post_init-build j (a, b, c, d) (e, f, g) fits = rw (a, b, c, d, e, f, g, fits)

-- The constructor accepts the next job of a valid one, if the links are named and the error fits.
pub next_job-IsValid :
    (j : Job) (t : Transition) (a r d : Option String)
    → IsValid j
    → require_optional_non_empty_string a ≡ ok tt
    → require_optional_non_empty_string r ≡ ok tt
    → require_optional_non_empty_string d ≡ ok tt
    → error_fits t.status t.error ≡ true
    → IsValid (next_job j t a r d)
next_job-IsValid j t a r d v ha hr hd he =
    job_post_init-build (next_job j t a r d) (IsValid-Named j v).0 (ha, hr, hd) he

accepted :
    (j : Job) (t : Transition) → IsValid j → Accepts j t → (k : Job) × (transition_job j t ≡ ok k)
unfolding transition_job
accepted j t v h =
    let (_, (va, vr, vd)) = IsValid-Named j v in
    let (a, ea, na) = link_once-ok _ _ h.assessment_id va h.assessment_named in
    let (r, er, nr) = link_once-ok _ _ h.remediation_id vr h.remediation_named in
    let (d, ed, nd) = link_once-ok _ _ h.deployment_id vd h.deployment_named in
    let fits = (error_fits_iff t.status t.error).1 h.error in
    let blames : (is_failed t.status || not (is_some t.error)) ≡ true = ground arith in
    (
      next_job j t a r d,
      rw ((nat_eq_iff _ _).1 h.revision, h.status, blames, ea, er, ed)
          (next_job-IsValid j t a r d v na nr nd fits),
    )

link_once-named :
    (old new : Option String) {l : Option String}
    → link_once old new ≡ ok l
    → require_optional_non_empty_string l ≡ ok tt
    → require_optional_non_empty_string new ≡ ok tt
unfolding link_once require_optional_non_empty_string
link_once-named old none e n = refl
link_once-named none (some c) e n = ground arith
link_once-named (some o) (some c) e n = ground (arith, eq_iff c o)

accepts : (j : Job) (t : Transition) {k : Job} → transition_job j t ≡ ok k → Accepts j t
accepts j t h =
    let taken = transition_job-Taken j t h in
    let built = next_job j t taken.assessment_id taken.remediation_id taken.deployment_id in
    let (_, (na, nr, nd)) = IsValid-Named built taken.built in
    record {
      revision = (nat_eq_iff _ _).0 taken.revision;
      status = taken.status;
      error = (error_fits_iff _ _).0 (job_post_init-error built taken.built);
      assessment_id = link_once-fits _ _ taken.links_assessment;
      remediation_id = link_once-fits _ _ taken.links_remediation;
      deployment_id = link_once-fits _ _ taken.links_deployment;
      assessment_named = link_once-named _ _ taken.links_assessment na;
      remediation_named = link_once-named _ _ taken.links_remediation nr;
      deployment_named = link_once-named _ _ taken.links_deployment nd;
    }

-- For a valid job, `transition_job` succeeds exactly when the revision is the expected one, the status
-- change is in the table, an error is given exactly for FAILED, no set link is replaced by another,
-- and the links that are given are not blank.
pub transition_job-ok_iff :
    (j : Job) (t : Transition) → IsValid j → Accepts j t ↔ ((k : Job) × (transition_job j t ≡ ok k))
transition_job-ok_iff j t v = (accepted j t v, λ (k, e). accepts j t e)
