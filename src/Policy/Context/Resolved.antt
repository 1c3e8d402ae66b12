-- ===== src/Policy/Context/Resolved.antt =====
-- Which rules a resolved context holds: exactly the applicable ones of the pinned profile, each in the
-- version that the profile pins.
use mathlib.Core.Path.{subst}
use mathlib.Core.Option.{some-injective}
use kosa_aws.Base.{
  In, In-filter, List, Option, String, [], arith, eq_iff, false, filter, inl, inr, is_empty, none,
  not, refl, some, sym, true, ◌&&◌, ◌==◌, ◌↔◌, ◌∙◌, ◌∷◌, ◌≡◌, ◌≢◌, ◌⊎◌,
}
use kosa_aws.Errors.{bind_ok, err, ok, ok_inj, policy_not_found, require, require_ok, ◌>>=◌, ◌>>◌}
use kosa_aws.Jobs.Model.{require_non_empty_string, require_optional_non_empty_string}
use kosa_aws.Policy.Context.{
  PolicyCatalog, PolicyContext, fits_pin, is_applicable, missing_profile, resolve, resolve_profile,
  resolve_rule, resolve_rules,
}
use kosa_aws.Policy.Rules.{AssessmentPhase, PolicyProfile, PolicyRule, PolicyRuleReference}

-- The catalog has the rule under exactly the reference's identifier and version.
abbrev pub Pinned : PolicyCatalog → PolicyRuleReference → PolicyRule → Type 0
Pinned catalog reference rule =
    (catalog.get_rule reference.rule_id reference.version ≡ ok (some rule))
    × (rule.rule_id ≡ reference.rule_id)
    × (rule.version ≡ reference.version)

module _ (catalog : PolicyCatalog) where
  resolve_rule-Pinned :
      (reference : PolicyRuleReference) {rule : PolicyRule}
      → resolve_rule catalog reference ≡ ok rule
      → Pinned catalog reference rule
  unfolding resolve_rule
  resolve_rule-Pinned reference {rule} h =
      let (found, reads, h1) = bind_ok (catalog.get_rule reference.rule_id reference.version) _ h in
      of_read found reads h1
    where
      of_read :
          (found : Option PolicyRule)
          → catalog.get_rule reference.rule_id reference.version ≡ ok found
          → ((elim found [ none ↦ err policy_not_found | some r ↦ ok r ]) >>= λ r.
              require
                (r.rule_id == reference.rule_id && r.version == reference.version)
                policy_not_found
              >> ok r)
            ≡ ok rule
          → Pinned catalog reference rule
      of_read none reads h = absurd (cc)
      of_read (some r) reads h =
          let (same, done) =
            require_ok (r.rule_id == reference.rule_id && r.version == reference.version) _ _ h in
          subst (Pinned catalog reference) (ok_inj done) (
            reads,
            ground (arith, eq_iff r.rule_id reference.rule_id),
            ground (arith, eq_iff r.rule_id reference.rule_id, eq_iff r.version reference.version),
          )

  Pinned-unique :
      (reference : PolicyRuleReference) (a b : PolicyRule)
      → Pinned catalog reference a
      → Pinned catalog reference b
      → a ≡ b
  Pinned-unique reference a b p q = some-injective a b (ok_inj (sym p.0 ∙ q.0))

  -- The rules are those that the references pin, and each reference pins one.
  abbrev pub Pins : List PolicyRuleReference → List PolicyRule → Type 0
  Pins references rules =
      ((rule : PolicyRule)
        → In rule rules ↔ (
            (reference : PolicyRuleReference) × In reference references
            × Pinned catalog reference rule))
      × ((reference : PolicyRuleReference)
          → In reference references
          → (rule : PolicyRule) × Pinned catalog reference rule)

  Pins-cons :
      (r : PolicyRuleReference) (rs : List PolicyRuleReference) (first : PolicyRule)
      (rest : List PolicyRule)
      → Pinned catalog r first
      → Pins rs rest
      → Pins (r ∷ rs) (first ∷ rest)
  Pins-cons r rs first rest pins (members, total) = (
    λ rule. (
      λ i. elim i [
        | inl e ↦ (r, inl refl, subst (Pinned catalog r) (sym e) pins)
        | inr there ↦
            let (reference, listed, pinned) = (members rule).0 there in
            (reference, inr listed, pinned)
      ],
      λ h. elim h.1 [
        | inl e ↦ inl (Pinned-unique r rule first (subst (λ x. Pinned catalog x rule) e h.2) pins)
        | inr listed ↦ inr ((members rule).1 (h.0, listed, h.2))
      ],
    ),
    λ reference i. elim i [
      | inl e ↦ (first, subst (λ x. Pinned catalog x first) (sym e) pins)
      | inr there ↦ total reference there
    ],
  )

  resolve_rules-Pins :
      (references : List PolicyRuleReference) {rules : List PolicyRule}
      → resolve_rules catalog references ≡ ok rules
      → Pins references rules
  unfolding resolve_rules
  resolve_rules-Pins [] h =
      subst (Pins []) (ok_inj h)
        ((λ rule. (λ never. absurd never, λ n. absurd n.1)), λ reference never. absurd never)
  resolve_rules-Pins (r ∷ rs) h =
      let (first, resolves, h1) = bind_ok (resolve_rule catalog r) _ h in
      let (rest, rests, h2) = bind_ok (resolve_rules catalog rs) _ h1 in
      subst (Pins (r ∷ rs)) (ok_inj h2)
        (Pins-cons r rs first rest (resolve_rule-Pinned r resolves) (resolve_rules-Pins rs rests))

  fits_pinned :
      (expected : Option String) (version : String)
      → fits_pin expected version ≡ true
      → (expected ≡ none) ⊎ (expected ≡ some version)
  fits_pinned none version h = inl refl
  fits_pinned (some e) version h = ground (arith, eq_iff version e)

  missing_profile-raises :
      (policy_profile_id : String) (expected : Option String) {profile : PolicyProfile}
      → missing_profile catalog policy_profile_id expected ≢ ok profile
  unfolding missing_profile
  missing_profile-raises policy_profile_id none h = absurd (cc)
  missing_profile-raises policy_profile_id (some e) h =
      let (_, _, wrong) = bind_ok (catalog.get_profile policy_profile_id none) _ h in
      absurd (cc wrong)

  module _ (policy_profile_id : String) (phase : AssessmentPhase) (resource_type : String)
      (expected : Option String) where
    -- What a context that was resolved holds.
    pub record Resolves (context : PolicyContext) : Type 0 where
      pub profile : PolicyProfile
      pub reads : catalog.get_profile policy_profile_id expected ≡ ok (some profile)
      pub version : context.policy_profile_version ≡ profile.version
      pub pinned : (expected ≡ none) ⊎ (expected ≡ some context.policy_profile_version)
      pub scoped : (context.phase ≡ phase) × (context.resource_type ≡ resource_type)
      pub has_rules : is_empty context.rules ≡ false
      pub rules :
          (rule : PolicyRule)
          → In rule context.rules ↔ (
              ((reference : PolicyRuleReference) × In reference profile.rule_references
                × Pinned catalog reference rule)
              × (is_applicable phase resource_type rule ≡ true))
      pub complete :
          (reference : PolicyRuleReference)
          → In reference profile.rule_references
          → (rule : PolicyRule) × Pinned catalog reference rule

    resolve_profile-Resolves :
        (profile : PolicyProfile) {context : PolicyContext}
        → catalog.get_profile policy_profile_id expected ≡ ok (some profile)
        → resolve_profile catalog profile phase resource_type expected ≡ ok context
        → Resolves context
    unfolding resolve_profile
    resolve_profile-Resolves profile reads h =
        let (pin, h1) = require_ok (fits_pin expected profile.version) _ _ h in
        let (rules, resolves, h2) = bind_ok (resolve_rules catalog profile.rule_references) _ h1 in
        let applicable = filter (is_applicable phase resource_type) rules in
        let (there, h3) = require_ok (not (is_empty applicable)) _ _ h2 in
        let (members, total) = resolve_rules-Pins profile.rule_references resolves in
        let filtered = In-filter (is_applicable phase resource_type) rules in
        subst Resolves (ok_inj h3) (record {
          profile = profile;
          reads = reads;
          version = refl;
          pinned = fits_pinned expected profile.version pin;
          scoped = (refl, refl);
          has_rules = ground arith;
          rules = λ rule. (
            λ i.
                let (resolved, applies) = (filtered rule).0 i in
                ((members rule).0 resolved, applies),
            λ h. (filtered rule).1 ((members rule).1 h.0, h.1),
          );
          complete = total;
        })

    -- Where a context is resolved, the profile was read under the expected version and has it, and the
    -- context's rules, of which there is at least one, are exactly the rules of the profile that apply to
    -- the phase and the resource type, each of the identifier and version that the profile pins. Every
    -- reference of the profile has such a rule, so none was left out because the catalog lacks it.
    pub resolve-Resolves :
        {context : PolicyContext}
        → resolve catalog policy_profile_id phase resource_type expected ≡ ok context
        → Resolves context
    unfolding resolve
    resolve-Resolves {context} h =
        let (_, _, h1) = bind_ok (require_non_empty_string policy_profile_id) _ h in
        let (_, _, h2) = bind_ok (require_optional_non_empty_string expected) _ h1 in
        let (_, _, h3) = bind_ok (require_non_empty_string resource_type) _ h2 in
        let (found, reads, h4) = bind_ok (catalog.get_profile policy_profile_id expected) _ h3 in
        of_read found reads h4
      where
        of_read :
            (found : Option PolicyProfile)
            → catalog.get_profile policy_profile_id expected ≡ ok found
            → ((elim found [
              | none ↦ missing_profile catalog policy_profile_id expected
              | some profile ↦ ok profile
            ])
                >>= λ profile. resolve_profile catalog profile phase resource_type expected)
              ≡ ok context
            → Resolves context
        of_read none reads h =
            let (_, wrong, _) = bind_ok (missing_profile catalog policy_profile_id expected) _ h in
            absurd (missing_profile-raises policy_profile_id expected wrong)
        of_read (some profile) reads h = resolve_profile-Resolves profile reads h
