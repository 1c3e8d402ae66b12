-- ===== src/Base/Lists.antt =====
-- Lists measured by native numbers, and `all`, `any` and `filter` by a Boolean test.
use Prim.Native.Nat.{ℕ, suc, ◌+◌}
use mathlib.Core.Path.{◌≡◌, refl, sym, subst, ap, ◌∙◌}
use mathlib.Core.Logic.{◌⊎◌, inl, inr, ◌↔◌}
use mathlib.Core.Bool.{Bool, true, false, ◌&&◌, ◌||◌}
use mathlib.Core.List.{List, [], ◌∷◌, ◌++◌, map}
use native.Mathlib.Omega.{arith}
use kosa_aws.Base.Tests.{Bool-cases, if◌then◌else◌}

module _ {ℓ} {A : Type ℓ} where
  abbrev pub length : List A → ℕ
  length [] = 0
  length (x ∷ xs) = suc (length xs)

  abbrev pub all : (A → Bool) → List A → Bool
  all p [] = true
  all p (x ∷ xs) = p x && all p xs

  abbrev pub any : (A → Bool) → List A → Bool
  any p [] = false
  any p (x ∷ xs) = p x || any p xs

  -- `[x for x in xs if p(x)]`
  abbrev pub filter : (A → Bool) → List A → List A
  filter p [] = []
  filter p (x ∷ xs) = let rest = filter p xs in if p x then x ∷ rest else rest

  abbrev pub is_empty : List A → Bool
  is_empty [] = true
  is_empty (x ∷ xs) = false

  -- A predicate of every element, read and built as nested pairs.
  abbrev pub All {κ} : (A → Type κ) → List A → Type κ
  All P [] = Unit
  All P (x ∷ xs) = P x × All P xs

  pub length-append : (xs ys : List A) → length (xs ++ ys) ≡ length xs + length ys
  length-append [] ys = omega arith
  length-append (x ∷ xs) ys = omega (arith, length-append xs ys)

module _ {A : Type 0} where
  -- Where an element stands in a list.
  abbrev pub In : A → List A → Type 0
  In x [] = ⊥
  In x (y ∷ ys) = (x ≡ y) ⊎ In x ys

  -- Membership where an element is kept exactly if it has a property.
  pub In-kept :
      (E : A → Type 0) (e x : A) (rest es : List A) (b : Bool)
      → (b ≡ true) ↔ E e
      → In x rest ↔ (In x es × E x)
      → In x (if b then e ∷ rest else rest) ↔ (In x (e ∷ es) × E x)
  In-kept E e x rest es true keeps ih = (
    λ i. elim i [
      | inl same ↦ (inl same, subst E (sym same) (keeps.0 refl))
      | inr there ↦ let (found, has) = ih.0 there in (inr found, has)
    ],
    λ h. elim h.0 [ inl same ↦ inl same | inr there ↦ inr (ih.1 (there, h.1)) ],
  )
  In-kept E e x rest es false keeps ih = (
    λ i. let (found, has) = ih.0 i in (inr found, has),
    λ h. elim h.0 [
      | inl same ↦ absurd (let wrong = keeps.1 (subst E same h.1) in cc wrong)
      | inr there ↦ ih.1 (there, h.1)
    ],
  )

  pub All-In : (P : A → Type 0) (xs : List A) {x : A} → All P xs → In x xs → P x
  All-In P [] holds never = absurd never
  All-In P (y ∷ ys) holds (inl same) = subst P (sym same) holds.0
  All-In P (y ∷ ys) holds (inr there) = All-In P ys holds.1 there

  pub In-filter :
      (p : A → Bool) (xs : List A) (x : A) → In x (filter p xs) ↔ (In x xs × (p x ≡ true))
  In-filter p [] x = (λ never. absurd never, λ h. absurd h.0)
  In-filter p (y ∷ ys) x =
      In-kept (λ z. p z ≡ true) y x (filter p ys) ys (p y) (λ h. h, λ h. h) (In-filter p ys x)

  pub All-filter :
      (P : A → Type 0) (p : A → Bool) (xs : List A)
      → ((x : A) → In x xs → p x ≡ true → P x)
      → All P (filter p xs)
  All-filter P p [] holds = tt
  All-filter P p (x ∷ xs) holds = kept (p x) refl (All-filter P p xs (λ y i. holds y (inr i)))
    where
      kept :
          (b : Bool)
          → p x ≡ b
          → All P (filter p xs)
          → All P (if b then x ∷ filter p xs else filter p xs)
      kept true e rest = (holds x (inl refl) e, rest)
      kept false e rest = rest

  pub In-append : (xs ys : List A) (x : A) → In x (xs ++ ys) ↔ (In x xs ⊎ In x ys)
  In-append [] ys x = (λ i. inr i, λ h. elim h [ inl never ↦ absurd never | inr i ↦ i ])
  In-append (y ∷ xs) ys x = (
    λ i. elim i [
      | inl e ↦ inl (inl e)
      | inr there ↦ elim ((In-append xs ys x).0 there) [
        | inl left ↦ inl (inr left)
        | inr right ↦ inr right
      ]
    ],
    λ h. elim h [
      | inl (inl e) ↦ inl e
      | inl (inr left) ↦ inr ((In-append xs ys x).1 (inl left))
      | inr right ↦ inr ((In-append xs ys x).1 (inr right))
    ],
  )

module _ {A B : Type 0} where
  pub In-map : (f : A → B) (xs : List A) (y : B) → In y (map f xs) ↔ ((x : A) × In x xs × (y ≡ f x))
  In-map f [] y = (λ never. absurd never, λ h. absurd h.1)
  In-map f (x ∷ xs) y = (
    λ i. elim i [
      | inl e ↦ (x, inl refl, e)
      | inr there ↦ let (z, listed, e) = (In-map f xs y).0 there in (z, inr listed, e)
    ],
    λ h. elim h.1 [
      | inl e ↦ inl (h.2 ∙ ap f e)
      | inr listed ↦ inr ((In-map f xs y).1 (h.0, listed, h.2))
    ],
  )

module _ {A : Type 0} where
  pub any-In : (p : A → Bool) (xs : List A) → (any p xs ≡ true) ↔ ((x : A) × In x xs × (p x ≡ true))
  any-In p [] = (λ h. cc h, λ h. absurd h.1)
  any-In p (x ∷ xs) =
      let rest = any-In p xs in
      (
        λ h. elim (Bool-cases (p x)) [
          | inl holds ↦ (x, inl refl, holds)
          | inr fails ↦
              let (y, listed, holds) = rest.0 (ground (arith, h, fails)) in (y, inr listed, holds)
        ],
        λ h. elim h.1 [
          | inl e ↦ let holds = subst (λ z. p z ≡ true) e h.2 in ground (arith, holds)
          | inr listed ↦ let holds = rest.1 (h.0, listed, h.2) in ground (arith, holds)
        ],
      )
