-- ===== src/Evidence/Verdict/Outcome.antt =====
-- What a verdict says of the observations and of the document.
use mathlib.Core.Path.{subst}
use kosa_aws.Base.{
  All, Bool-cases, List, String, [], all, ap, arith, filter, if◌then◌else◌, inl, inr, is_empty, not,
  refl, sym, true, ◌++◌, ◌↔◌, ◌∙◌, ◌∷◌, ◌≡◌,
}
use kosa_aws.Errors.{bind_ok, ok, ok_inj, require_ok}
use kosa_aws.Evidence.Binding.{EvidenceCapabilityBinding, judged_paths}
use kosa_aws.Evidence.Json.{Json}
use kosa_aws.Evidence.Lookup.{document_path_values}
use kosa_aws.Evidence.Verdict.{
  DeterministicVerdict, Observation, decide_document, fail_verdict, observe, observe_all,
  observe_bindings, observe_paths, pass, pass_verdict, satisfies, verdict_from_observations,
}
use kosa_aws.Evidence.Verdict.Reported.{
  Reports, fail_verdict-Reports, pass_verdict-Reports, sat, unsat,
}

abbrev pub verdict_of : List Observation → DeterministicVerdict
verdict_of os =
    if is_empty (filter unsat os)
    then pass_verdict os (filter sat os)
    else fail_verdict os (filter sat os) (filter unsat os)

pub verdict_from_observations-Reports :
    (os : List Observation) {v : DeterministicVerdict}
    → verdict_from_observations os ≡ ok v
    → Reports os v
unfolding verdict_from_observations
verdict_from_observations-Reports os h =
    let (_, h1) = require_ok (not (is_empty os)) _ _ h in
    elim (Bool-cases (is_empty (filter unsat os))) [
      | inl none_broken ↦
          subst (Reports os) (ok_inj (rw none_broken at h1)) (pass_verdict-Reports os none_broken)
      | inr broken ↦ subst (Reports os) (ok_inj (rw broken at h1)) (fail_verdict-Reports os broken)
    ]

module _ (casefold : String → String) where
  abbrev pub HoldsAt : EvidenceCapabilityBinding → Json → Type 0
  HoldsAt binding value = satisfies casefold binding value ≡ ok true

  -- Every value that the path names in the document satisfies the predicate.
  abbrev pub PathHolds : EvidenceCapabilityBinding → Json → String → Type 0
  PathHolds binding document path =
      (vs : List Json) × (document_path_values document path ≡ ok vs) × All (HoldsAt binding) vs

  abbrev pub BindingHolds : Json → EvidenceCapabilityBinding → Type 0
  BindingHolds document binding = All (PathHolds binding document) (judged_paths binding)

  all-split :
      (xs ys : List Observation)
      → (all sat (xs ++ ys) ≡ true) ↔ ((all sat xs ≡ true) × (all sat ys ≡ true))
  all-split [] ys = ground arith
  all-split (x ∷ xs) ys = ground (arith, all-split xs ys)

  observe-sat :
      (b : EvidenceCapabilityBinding) (path : String) (v : Json) {o : Observation}
      → observe casefold b path v ≡ ok o
      → (sat o ≡ true) ↔ HoldsAt b v
  unfolding observe
  observe-sat b path v {o} h =
      let (s, hs, h1) = bind_ok (satisfies casefold b v) _ h in
      let same = ap sat (ok_inj h1) in
      (λ k. hs ∙ ap ok (same ∙ k), λ k. sym same ∙ ok_inj (sym hs ∙ k))

  cons_sat :
      (o : Observation) (os : List Observation) {P Q : Type 0}
      → (sat o ≡ true) ↔ P
      → (all sat os ≡ true) ↔ Q
      → (all sat (o ∷ os) ≡ true) ↔ (P × Q)
  cons_sat o os p q = ground (arith, p, q)

  append-sat :
      (xs ys : List Observation) {P Q : Type 0}
      → (all sat xs ≡ true) ↔ P
      → (all sat ys ≡ true) ↔ Q
      → (all sat (xs ++ ys) ≡ true) ↔ (P × Q)
  append-sat xs ys p q = ground (arith, p, q, all-split xs ys)

  -- an iff carried along the equation of a result
  along :
      {os os' : List Observation} {P : Type 0}
      → ok os ≡ ok os'
      → (all sat os ≡ true) ↔ P
      → (all sat os' ≡ true) ↔ P
  along {P = P} h k = subst (λ xs. (all sat xs ≡ true) ↔ P) (ok_inj h) k

  observe_all-sat :
      (b : EvidenceCapabilityBinding) (path : String) (vs : List Json) {os : List Observation}
      → observe_all casefold b path vs ≡ ok os
      → (all sat os ≡ true) ↔ All (HoldsAt b) vs
  unfolding observe_all
  observe_all-sat b path [] h = along h (λ _. tt, λ _. refl)
  observe_all-sat b path (v ∷ vs) h =
      let (o, ho, h1) = bind_ok (observe casefold b path v) _ h in
      let (os, hos, h2) = bind_ok (observe_all casefold b path vs) _ h1 in
      along h2 (cons_sat o os (observe-sat b path v ho) (observe_all-sat b path vs hos))

  -- the values of a path are those that the lookup returns
  path_holds :
      (b : EvidenceCapabilityBinding) (d : Json) (path : String) (vs : List Json)
      (os : List Observation)
      → document_path_values d path ≡ ok vs
      → (all sat os ≡ true) ↔ All (HoldsAt b) vs
      → (all sat os ≡ true) ↔ PathHolds b d path
  path_holds b d path vs os hv k = (
    λ h. (vs, hv, k.0 h),
    λ (us, hu, held). k.1 (subst (All (HoldsAt b)) (ok_inj (sym hu ∙ hv)) held),
  )

  observe_paths-sat :
      (b : EvidenceCapabilityBinding) (d : Json) (paths : List String) {os : List Observation}
      → observe_paths casefold b d paths ≡ ok os
      → (all sat os ≡ true) ↔ All (PathHolds b d) paths
  unfolding observe_paths
  observe_paths-sat b d [] h = along h (λ _. tt, λ _. refl)
  observe_paths-sat b d (path ∷ paths) h =
      let (vs, hv, h1) = bind_ok (document_path_values d path) _ h in
      let (_, h2) = require_ok (not (is_empty vs)) _ _ h1 in
      let (here, hh, h3) = bind_ok (observe_all casefold b path vs) _ h2 in
      let (rest, hr, h4) = bind_ok (observe_paths casefold b d paths) _ h3 in
      along h4 (
        append-sat here rest (path_holds b d path vs here hv (observe_all-sat b path vs hh))
          (observe_paths-sat b d paths hr))

  observe_bindings-sat :
      (bs : List EvidenceCapabilityBinding) (d : Json) {os : List Observation}
      → observe_bindings casefold bs d ≡ ok os
      → (all sat os ≡ true) ↔ All (BindingHolds d) bs
  unfolding observe_bindings
  observe_bindings-sat [] d h = along h (λ _. tt, λ _. refl)
  observe_bindings-sat (b ∷ bs) d h =
      let (here, hh, h1) = bind_ok (observe_paths casefold b d (judged_paths b)) _ h in
      let (rest, hr, h2) = bind_ok (observe_bindings casefold bs d) _ h1 in
      along h2 (
        append-sat here rest (observe_paths-sat b d (judged_paths b) hh)
          (observe_bindings-sat bs d hr))

  -- Where code decides a document, the verdict passes exactly if every value that a judged path of a
  -- binding names satisfies the predicate of the binding.
  pub decide_document-pass_iff :
      (bs : List EvidenceCapabilityBinding) (d : Json) {v : DeterministicVerdict}
      → decide_document casefold bs d ≡ ok v
      → (v.status ≡ pass) ↔ All (BindingHolds d) bs
  unfolding decide_document
  decide_document-pass_iff bs d {v} h =
      let (_, h1) = require_ok (not (is_empty bs)) _ _ h in
      let (os, ho, h2) = bind_ok (observe_bindings casefold bs d) _ h1 in
      let passes = (verdict_from_observations-Reports os h2).passes in
      let held = observe_bindings-sat bs d ho in
      (λ p. held.0 (passes.0 p), λ k. passes.1 (held.1 k))
