-- ===== src/Evidence/Verdict/Reported.antt =====
-- The verdict that a list of observations calls for, with the paths that its rationale names.
use kosa_aws.Base.{
  Ascending, Bool, In, In-filter, In-map, List, String, [], all, arith, false, filter, is_empty,
  length, map, not, refl, sorted_set-Ascending, sorted_set-In, sym, true, ◌+◌, ◌↔◌, ◌∷◌, ◌≡◌, ◌≤◌,
}
use kosa_aws.Evidence.Verdict.{
  DeterministicVerdict, EvaluationStatus, Observation, Rationale, every_satisfies, fail,
  fail_verdict, pass, pass_verdict, paths_of, some_fail,
}

abbrev pub sat : Observation → Bool
sat o = o.satisfied

abbrev pub unsat : Observation → Bool
unsat o = not o.satisfied

-- What the count of the satisfied observations has to do with the unsatisfied ones.
partition_length :
    (os : List Observation) → length (filter sat os) + length (filter unsat os) ≡ length os
partition_length [] = refl
partition_length (o ∷ os) = ground (arith, partition_length os)

none-unsat : (os : List Observation) → (is_empty (filter unsat os) ≡ true) ↔ (all sat os ≡ true)
none-unsat [] = ground arith
none-unsat (o ∷ os) = ground (arith, none-unsat os)

empty_length : {A : Type 0} (xs : List A) → (is_empty xs ≡ true) ↔ (length xs ≡ 0)
empty_length [] = ground arith
empty_length (x ∷ xs) = ground arith

-- The paths that a rationale names.
abbrev pub cited : Rationale → List String
cited (every_satisfies paths) = paths
cited (some_fail satisfied total paths) = paths

-- The rationale is the sentence of the status, with the counts of the verdict.
abbrev pub Phrases : DeterministicVerdict → Rationale → Type 0
Phrases v (every_satisfies paths) = v.status ≡ pass
Phrases v (some_fail satisfied total paths) =
    (v.status ≡ fail) × (satisfied ≡ v.observed_satisfied) × (total ≡ v.observed_total)

-- The path of an observation, of one that is not satisfied where the verdict fails.
abbrev pub Observed : List Observation → EvaluationStatus → String → Type 0
Observed os status path =
    (o : Observation) × In o os × (o.path ≡ path) × (status ≡ fail → o.satisfied ≡ false)

-- The verdict that the observations call for.
pub record Reports (os : List Observation) (v : DeterministicVerdict) : Type 0 where
  pub passes : (v.status ≡ pass) ↔ (all sat os ≡ true)
  pub fails : (v.status ≡ fail) ↔ (all sat os ≡ false)
  pub counts : (v.status ≡ pass) ↔ (v.observed_satisfied ≡ v.observed_total)
  pub bound : v.observed_satisfied ≤ v.observed_total
  pub total : v.observed_total ≡ length os
  pub phrased : Phrases v v.rationale
  pub ordered : Ascending (cited v.rationale)
  pub names : (path : String) → In path (cited v.rationale) ↔ Observed os v.status path

paths_of-In :
    (os : List Observation) (path : String)
    → In path (paths_of os) ↔ ((o : Observation) × In o os × (o.path ≡ path))
unfolding paths_of
paths_of-In os path =
    let listed = sorted_set-In (map (λ o. o.path) os) path in
    let mapped = In-map (λ (o : Observation). o.path) os path in
    (
      λ i. let (o, there, e) = mapped.0 (listed.0 i) in (o, there, sym e),
      λ h. listed.1 (mapped.1 (h.0, h.1, sym h.2)),
    )

paths_of-Ascending : (os : List Observation) → Ascending (paths_of os)
unfolding paths_of
paths_of-Ascending os = sorted_set-Ascending (map (λ o. o.path) os)

pub pass_verdict-Reports :
    (os : List Observation)
    → is_empty (filter unsat os) ≡ true
    → Reports os (pass_verdict os (filter sat os))
unfolding pass_verdict
pass_verdict-Reports os none_broken =
    let held = (none-unsat os).0 none_broken in
    let same = (empty_length (filter unsat os)).0 none_broken in
    record {
      passes = (λ _. held, λ _. refl);
      fails = (λ e. absurd (cc e), λ e. absurd (cc (e, held)));
      counts = (λ _. omega (arith, partition_length os, same), λ _. refl);
      bound = omega (arith, partition_length os);
      total = refl;
      phrased = refl;
      ordered = paths_of-Ascending os;
      names = λ path. (
        λ i.
            let (o, there, e) = (paths_of-In os path).0 i in
            (o, there, e, λ wrong. absurd (cc wrong)),
        λ h. (paths_of-In os path).1 (h.0, h.1, h.2),
      );
    }

pub fail_verdict-Reports :
    (os : List Observation)
    → is_empty (filter unsat os) ≡ false
    → Reports os (fail_verdict os (filter sat os) (filter unsat os))
unfolding fail_verdict
fail_verdict-Reports os broken =
    let all_iff = none-unsat os in
    let some_broken : all sat os ≡ false = ground (arith, all_iff, broken) in
    let partition = partition_length os in
    let empty_iff = empty_length (filter unsat os) in
    record {
      passes = (λ e. absurd (cc e), λ held. absurd (cc (held, some_broken)));
      fails = (λ _. some_broken, λ _. refl);
      counts = (
        λ e. absurd (cc e),
        λ same.
            absurd
              (let nothing = empty_iff.1 (omega (arith, same, partition)) in cc (nothing, broken)),
      );
      bound = omega (arith, partition);
      total = refl;
      phrased = (refl, refl, refl);
      ordered = paths_of-Ascending (filter unsat os);
      names = λ path. (
        λ i.
            let (o, kept, e) = (paths_of-In (filter unsat os) path).0 i in
            let (there, fails) = (In-filter unsat os o).0 kept in
            (o, there, e, λ _. ground (arith, fails)),
        λ h.
            let fails = h.3 refl in
            let kept = (In-filter unsat os h.0).1 (h.1, ground (arith, fails)) in
            (paths_of-In (filter unsat os) path).1 (h.0, kept, h.2),
      );
    }
