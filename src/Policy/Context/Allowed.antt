-- ===== src/Policy/Context/Allowed.antt =====
-- Which evidence a context allows: what its rules cite, and the state of resources.
use mathlib.Core.Path.{subst}
use kosa_aws.Base.{
  Bool, Bool-cases, In, In-append, List, String, [], any, ap, arith, contains, eq_iff, false,
  if◌then◌else◌, inl, inr, is_blank, map, refl, sym, true, ◌++◌, ◌==◌, ◌||◌, ◌↔◌, ◌∙◌, ◌∷◌, ◌≡◌,
  ◌⊎◌,
}
use kosa_aws.Policy.Context.{
  PolicyContext, add_sources, allows_evidence, is_resource_evidence, policy_evidence_references,
  same_reference, source_references_of,
}
use kosa_aws.Policy.Rules.{PolicyRule, SourceReference, evidence_reference}

same_reference→eq : (a b : SourceReference) → same_reference a b ≡ true → a ≡ b
same_reference→eq a b h = ground (
  arith,
  eq_iff a.source_id b.source_id,
  eq_iff a.source_version b.source_version,
  eq_iff a.locator b.locator,
  eq_iff a.content_sha256 b.content_sha256,
)

any_same :
    (r : SourceReference) (references : List SourceReference)
    → any (same_reference r) references ≡ true
    → In r references
any_same r [] h = absurd (cc)
any_same r (s ∷ references) h = elim (Bool-cases (same_reference r s)) [
  | inl same ↦ inl (same_reference→eq r s same)
  | inr differ ↦ inr (any_same r references (ground arith))
]

-- Appending a reference that may be there.
added_reference :
    (references : List SourceReference) (s r : SourceReference) (b : Bool)
    → any (same_reference s) references ≡ b
    → In r (if b then references else references ++ (s ∷ [])) ↔ (In r references ⊎ (r ≡ s))
added_reference references s r true h = (
  λ i. inl i,
  λ i. elim i [
    | inl there ↦ there
    | inr e ↦ subst (λ x. In x references) (sym e) (any_same s references h)
  ],
)
added_reference references s r false h =
    let parts = In-append references (s ∷ []) r in
    (
      λ i. elim (parts.0 i) [
        | inl there ↦ inl there
        | inr (inl e) ↦ inr e
        | inr (inr never) ↦ absurd never
      ],
      λ i. elim i [ inl there ↦ parts.1 (inl there) | inr e ↦ parts.1 (inr (inl e)) ],
    )

In-add_sources :
    (references rs : List SourceReference) (r : SourceReference)
    → In r (add_sources references rs) ↔ (In r references ⊎ In r rs)
unfolding add_sources
In-add_sources references [] r =
    (λ i. inl i, λ i. elim i [ inl there ↦ there | inr never ↦ absurd never ])
In-add_sources references (s ∷ rs) r =
    let b = any (same_reference s) references in
    let step = added_reference references s r b refl in
    let ih = In-add_sources (if b then references else references ++ (s ∷ [])) rs r in
    (
      λ i. elim (ih.0 i) [
        | inl old ↦ elim (step.0 old) [ inl there ↦ inl there | inr e ↦ inr (inl e) ]
        | inr later ↦ inr (inr later)
      ],
      λ i. elim i [
        | inl there ↦ ih.1 (inl (step.1 (inl there)))
        | inr (inl e) ↦ ih.1 (inl (step.1 (inr e)))
        | inr (inr later) ↦ ih.1 (inr later)
      ],
    )

-- A rule of the list cites the reference.
abbrev pub Cites : List PolicyRule → SourceReference → Type 0
Cites rules r = (rule : PolicyRule) × In rule rules × In r rule.source_references

In-source_references_of :
    (references : List SourceReference) (rules : List PolicyRule) (r : SourceReference)
    → In r (source_references_of references rules) ↔ (In r references ⊎ Cites rules r)
unfolding source_references_of
In-source_references_of references [] r =
    (λ i. inl i, λ i. elim i [ inl there ↦ there | inr n ↦ absurd n.1 ])
In-source_references_of references (rule ∷ rules) r =
    let step = In-add_sources references rule.source_references r in
    let ih = In-source_references_of (add_sources references rule.source_references) rules r in
    (
      λ i. elim (ih.0 i) [
        | inl old ↦ elim (step.0 old) [
          | inl there ↦ inl there
          | inr new ↦ inr (rule, inl refl, new)
        ]
        | inr (cited, listed, within) ↦ inr (cited, inr listed, within)
      ],
      λ i. elim i [
        | inl there ↦ ih.1 (inl (step.1 (inl there)))
        | inr (cited, listed, within) ↦ elim listed [
          | inl e ↦ ih.1 (inl (step.1 (inr (subst (λ x. In r x.source_references) e within))))
          | inr later ↦ ih.1 (inr (cited, later, within))
        ]
      ],
    )

contains→cited :
    (references : List SourceReference) (s : String)
    → contains (map evidence_reference references) s ≡ true
    → (r : SourceReference) × In r references × (evidence_reference r ≡ s)
contains→cited [] s h = absurd (cc)
contains→cited (r ∷ references) s h = elim (Bool-cases (evidence_reference r == s)) [
  | inl same ↦ (r, inl refl, (eq_iff (evidence_reference r) s).0 same)
  | inr differ ↦
      let (found, listed, e) = contains→cited references s (ground arith) in (found, inr listed, e)
]

cited→contains :
    (references : List SourceReference) (s : String) (r : SourceReference)
    → In r references
    → evidence_reference r ≡ s
    → contains (map evidence_reference references) s ≡ true
cited→contains [] s r never e = absurd never
cited→contains (q ∷ references) s r (inl same) e =
    let head : ((evidence_reference q == s) ≡ true) =
      (eq_iff (evidence_reference q) s).1 (ap evidence_reference (sym same) ∙ e) in
    ground arith
cited→contains (q ∷ references) s r (inr there) e =
    let rest = cited→contains references s r there e in ground arith

allows_by :
    (blank cited resource : Bool)
    → ((if blank then false else cited || resource) ≡ true)
      ↔ ((blank ≡ false) × ((cited ≡ true) ⊎ (resource ≡ true)))
allows_by blank cited resource = ground arith

-- A reference is allowed exactly if it is not blank and some rule of the context cites it or it names the
-- state of a resource.
pub allows_evidence_iff :
    (context : PolicyContext) (reference : String)
    → (allows_evidence context reference ≡ true) ↔ (
        (is_blank reference ≡ false)
        × (((r : SourceReference) × Cites context.rules r × (evidence_reference r ≡ reference))
            ⊎ (is_resource_evidence reference ≡ true)))
unfolding allows_evidence policy_evidence_references
allows_evidence_iff context reference =
    let sources = source_references_of [] context.rules in
    let by =
      allows_by (is_blank reference) (contains (map evidence_reference sources) reference)
        (is_resource_evidence reference) in
    (
      λ h.
          let (full, how) = by.0 h in
          (
            full,
            elim how [
              | inl held ↦
                  let (r, listed, e) = contains→cited sources reference held in
                  inl (r, of_start r ((In-source_references_of [] context.rules r).0 listed), e)
              | inr resource ↦ inr resource
            ],
          ),
      λ h. by.1 (
        h.0,
        elim h.1 [
          | inl found ↦
              let (r, cites, e) = found in
              inl (
                cited→contains sources reference r
                  ((In-source_references_of [] context.rules r).1 (inr cites)) e)
          | inr resource ↦ inr resource
        ],
      ),
    )
  where
    of_start : (r : SourceReference) → ⊥ ⊎ Cites context.rules r → Cites context.rules r
    of_start r (inl never) = absurd never
    of_start r (inr cites) = cites
