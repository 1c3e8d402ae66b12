-- ===== src/Evidence/Lookup/Present.antt =====
-- A path that is present names values, and none of them is `None`.
use kosa_aws.Base.{
  Bool, List, Option, [], all, arith, false, if◌then◌else◌, is_empty, none, not, refl, some, true,
  ◌&&◌, ◌++◌, ◌∷◌, ◌≡◌,
}
use kosa_aws.Evidence.Json.{Elements, Json, element, is_null, last_element}
use kosa_aws.Evidence.Lookup.{
  all_present, child_at, each_value, elements_of, has_elements, present_at, values,
}
use kosa_aws.Evidence.Path.{Segment}

abbrev pub given : Json → Bool
given value = not (is_null value)

all-append :
    {A : Type 0} (p : A → Bool) (xs ys : List A)
    → all p xs ≡ true
    → all p ys ≡ true
    → all p (xs ++ ys) ≡ true
all-append p [] ys h k = k
all-append p (x ∷ xs) ys h k = ground (arith, all-append p xs ys, h, k)

is_empty-append : {A : Type 0} (xs ys : List A) → is_empty xs ≡ false → is_empty (xs ++ ys) ≡ false
is_empty-append [] ys h = cc
is_empty-append (x ∷ xs) ys h = refl

-- One or more values, each one given.
abbrev pub Given : List Json → Type 0
Given values = (is_empty values ≡ false) × (all given values ≡ true)

and-left : (a b : Bool) → (a && b) ≡ true → a ≡ true
and-left a b h = ground arith

and-right : (a b : Bool) → (a && b) ≡ true → b ≡ true
and-right a b h = ground arith

module _ (segments : List Segment)
    (h : (v : Json) → present_at segments v ≡ true → Given (values segments v)) where
  given-each :
      (xs : Elements)
      → all_present (present_at segments) xs ≡ true
      → all given (each_value (values segments) xs) ≡ true
  unfolding all_present each_value
  given-each last_element p = refl
  given-each (element x xs) p =
      all-append given (values segments x) _ (h x (and-left _ _ p)).1
        (given-each xs (and-right _ _ p))

  some-each :
      (xs : Elements)
      → (has_elements xs && all_present (present_at segments) xs) ≡ true
      → Given (each_value (values segments) xs)
  unfolding all_present each_value
  some-each last_element p = cc
  some-each (element x xs) p =
      (is_empty-append (values segments x) _ (h x (and-left _ _ p)).0, given-each (element x xs) p)

  expanded :
      (o : Option Elements)
      → elim o [ none ↦ false | some xs ↦ has_elements xs && all_present (present_at segments) xs ]
        ≡ true
      → Given (elim o [ none ↦ [] | some xs ↦ each_value (values segments) xs ])
  expanded none p = cc
  expanded (some xs) p = some-each xs p

  below :
      (expands : Bool) (o : Option Json)
      → elim o [
        | none ↦ false
        | some child ↦
            if expands
            then elim (elements_of child) [
              | none ↦ false
              | some xs ↦ has_elements xs && all_present (present_at segments) xs
            ]
            else present_at segments child
      ]
        ≡ true
      → Given (elim o [
        | none ↦ []
        | some child ↦
            if expands
            then elim (elements_of child) [ none ↦ [] | some xs ↦ each_value (values segments) xs ]
            else values segments child
      ])
  below e none p = cc
  below true (some child) p = expanded (elements_of child) p
  below false (some child) p = h child p

-- Where the parsed path is present in a document, it names at least one value there, and none of the
-- values that it names is `None`: what the check before an evaluation promises, the evaluation finds.
pub present_at-values :
    (segments : List Segment) (v : Json) → present_at segments v ≡ true → Given (values segments v)
unfolding present_at values
present_at-values [] v p = (refl, ground (arith, p))
present_at-values (segment ∷ segments) v p =
    below segments (present_at-values segments) segment.expands_list (child_at segment.key v) p
