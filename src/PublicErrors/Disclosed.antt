-- ===== src/PublicErrors/Disclosed.antt =====
-- How a refused transition reaches a client.
use mathlib.Core.Path.{subst}
use kosa_aws.Base.{
  Bool, Option, String, arith, false, inl, inr, is_some, nat_eq, none, not, refl, some, sym, true,
  ◌||◌, ◌∙◌, ◌≡◌, ◌⊎◌,
}
use kosa_aws.Errors.{
  Error, Result, err, invalid_job_transition, ok, ok_inj, require, stale_job_revision, ◌>>=◌,
}
use kosa_aws.Jobs.Item.{invalid}
use kosa_aws.Jobs.Lifecycle.{Transition, allowed, is_failed, link_once, transition_job}
use kosa_aws.Jobs.Lifecycle.Advance.{next_job}
use kosa_aws.Jobs.Lifecycle.Total.{
  IsValid, IsValid-Named, link_once-fits, link_once-ok, next_job-IsValid,
}
use kosa_aws.Jobs.Model.{ApiError, Job, JobStatus, error_fits, require_optional_non_empty_string}
use kosa_aws.PublicErrors.{public_failure, sanitize_public_failure}

bind_err {ℓ κ} :
    {A : Type ℓ} {B : Type κ} (m : Result A) (f : A → Result B) {e : Error}
    → (m >>= f) ≡ err e
    → (m ≡ err e) ⊎ ((a : A) × (m ≡ ok a) × (f a ≡ err e))
bind_err (ok a) f h = inr (a, refl, h)
bind_err (err e) f h = inl cc

abbrev pub IsConflict : Error → Type 0
IsConflict e = (e ≡ stale_job_revision) ⊎ (e ≡ invalid_job_transition)

require_err : (c : Bool) (d e : Error) → require c d ≡ err e → (c ≡ false) × (e ≡ d)
require_err c d e h = ground arith

link_once_err :
    (o n : Option String) {e : Error} → link_once o n ≡ err e → e ≡ invalid_job_transition
unfolding link_once
link_once_err o none h = cc
link_once_err none (some n) h = cc
link_once_err (some o) (some n) h = ground arith

fits : (s : JobStatus) (e : Option ApiError) → is_failed s ≡ is_some e → error_fits s e ≡ true
unfolding error_fits is_failed
fits s e h = ground arith

-- A transition whose error goes with its status and whose links are named.
pub record Formed (t : Transition) : Type 0 where
  pub error : is_failed t.status ≡ is_some t.error
  pub assessment_named : require_optional_non_empty_string t.assessment_id ≡ ok tt
  pub remediation_named : require_optional_non_empty_string t.remediation_id ≡ ok tt
  pub deployment_named : require_optional_non_empty_string t.deployment_id ≡ ok tt

linked_name :
    (o n : Option String) {l : Option String}
    → require_optional_non_empty_string o ≡ ok tt
    → require_optional_non_empty_string n ≡ ok tt
    → link_once o n ≡ ok l
    → require_optional_non_empty_string l ≡ ok tt
linked_name o n {l} ho hn h =
    let (k, hk, named_k) = link_once-ok o n (link_once-fits o n h) ho hn in
    subst (λ x. require_optional_non_empty_string x ≡ ok tt) (ok_inj (sym hk ∙ h)) named_k

refused-IsConflict :
    (j : Job) (t : Transition) {e : Error}
    → IsValid j
    → Formed t
    → transition_job j t ≡ err e
    → IsConflict e
unfolding transition_job
refused-IsConflict j t {e} v formed h =
    let (_, (va, vr, vd)) = IsValid-Named j v in
    elim (bind_err (require (nat_eq j.revision t.expected_revision) stale_job_revision) _ h) [
      | inl stale ↦ inl (require_err _ _ e stale).1
      | inr (_, _, h1) ↦
          elim (bind_err (require (allowed j.status t.status) invalid_job_transition) _ h1) [
            | inl bad ↦ inr (require_err _ _ e bad).1
            | inr (_, _, h2) ↦
                elim (bind_err
                  (require (is_failed t.status || not (is_some t.error)) invalid_job_transition) _
                  h2) [
                    | inl bad ↦ inr (require_err _ _ e bad).1
                    | inr (_, _, h3) ↦
                        elim (bind_err (link_once j.assessment_id t.assessment_id) _ h3) [
                          | inl bad ↦ inr (link_once_err _ _ bad)
                          | inr (a, ha, h4) ↦
                              elim (bind_err (link_once j.remediation_id t.remediation_id) _ h4) [
                                | inl bad ↦ inr (link_once_err _ _ bad)
                                | inr (r, hr, h5) ↦
                                    elim (bind_err (link_once j.deployment_id t.deployment_id) _
                                      h5) [
                                        | inl bad ↦ inr (link_once_err _ _ bad)
                                        | inr (d, hd, h6) ↦
                                            let built =
                                              next_job-IsValid j t a r d v
                                                (linked_name _ _ va formed.assessment_named ha)
                                                (linked_name _ _ vr formed.remediation_named hr)
                                                (linked_name _ _ vd formed.deployment_named hd)
                                                (fits t.status t.error formed.error) in
                                            absurd (
                                              let wrong : (ok (next_job j t a r d) ≡ err e) =
                                                sym built ∙ h6 in
                                              cc wrong)
                                      ]
                              ]
                        ]
                  ]
          ]
    ]

-- A transition of a valid job that is refused, where the caller's links are named and its error goes
-- with its status, reaches the client as 409 CONFLICT and never as an internal error.
pub transition_job-conflict :
    (j : Job) (t : Transition) {e : Error}
    → IsValid j
    → Formed t
    → transition_job j t ≡ err e
    → (sanitize_public_failure e).status_code ≡ 409
unfolding sanitize_public_failure public_failure
transition_job-conflict j t v formed h = elim (refused-IsConflict j t v formed h) [
  | inl stale ↦ rw stale refl
  | inr invalid ↦ rw invalid refl
]
