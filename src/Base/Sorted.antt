-- ===== src/Base/Sorted.antt =====
-- `sorted({...})` of texts: an ascending list without repetitions.
use Prim.Native.String.{String}
use mathlib.Core.Path.{◌≡◌, subst}
use mathlib.Core.Logic.{◌⊎◌, inl, inr, ◌↔◌}
use mathlib.Core.Bool.{true, false}
use mathlib.Core.List.{List, [], ◌∷◌}
use text.Mathlib.Text.{◌==◌}
use text.Mathlib.TextEquality.{eq_iff}
use kosa_aws.Base.Tests.{Bool-cases, if◌then◌else◌}
use kosa_aws.Base.Lists.{All, In}
use kosa_aws.Base.Order.{text_lt, text_lt_trans, text_lt-connected}

unfoldable pub insert_text : String → List String → List String
unfolding text_lt
insert_text s [] = s ∷ []
insert_text s (t ∷ ts) =
    let rest = insert_text s ts in
    if text_lt s t then s ∷ t ∷ ts else if s == t then t ∷ ts else t ∷ rest

unfoldable pub sorted_set : List String → List String
unfolding insert_text
sorted_set [] = []
sorted_set (s ∷ ss) = insert_text s (sorted_set ss)

-- Each text comes strictly before all that follow it, so none stands twice.
abbrev pub Ascending : List String → Type 0
Ascending [] = Unit {0}
Ascending (s ∷ ss) = All (λ t. text_lt s t ≡ true) ss × Ascending ss

All-mono :
    {P Q : String → Type 0} (ss : List String) → ((s : String) → P s → Q s) → All P ss → All Q ss
All-mono [] weaken h = tt
All-mono (s ∷ ss) weaken (h, hs) = (weaken s h, All-mono ss weaken hs)

-- The three ways in which a text meets the first of a list.
places :
    (s t : String)
    → (text_lt s t ≡ true)
      ⊎ ((text_lt s t ≡ false) × (((s == t) ≡ true) ⊎ (((s == t) ≡ false) × (text_lt t s ≡ true))))
places s t = elim (Bool-cases (text_lt s t)) [
  | inl before ↦ inl before
  | inr behind ↦ elim (Bool-cases (s == t)) [
    | inl same ↦ inr (behind, inl same)
    | inr differ ↦ elim (Bool-cases (text_lt t s)) [
      | inl after ↦ inr (behind, inr (differ, after))
      | inr neither ↦
          absurd
            (let same = (eq_iff s t).1 (text_lt-connected s t behind neither) in cc (same, differ))
    ]
  ]
]

insert_text-All :
    (P : String → Type 0) (s : String) (ts : List String)
    → P s
    → All P ts
    → All P (insert_text s ts)
unfolding insert_text
insert_text-All P s [] p hs = (p, tt)
insert_text-All P s (t ∷ ts) p (h, hs) = elim (places s t) [
  | inl before ↦ rw before (p, (h, hs))
  | inr (behind, inl same) ↦ rw (behind, same) (h, hs)
  | inr (behind, inr (differ, after)) ↦ rw (behind, differ) (h, insert_text-All P s ts p hs)
]

insert_text-Ascending :
    (s : String) (ts : List String) → Ascending ts → Ascending (insert_text s ts)
unfolding insert_text
insert_text-Ascending s [] asc = (tt, tt)
insert_text-Ascending s (t ∷ ts) (above, asc) = elim (places s t) [
  | inl before ↦
      rw before ((before, All-mono ts (λ u h. text_lt_trans s t u before h) above), (above, asc))
  | inr (behind, inl same) ↦ rw (behind, same) (above, asc)
  | inr (behind, inr (differ, after)) ↦
      rw (behind, differ) (insert_text-All _ s ts after above, insert_text-Ascending s ts asc)
]

insert_text-In :
    (s : String) (ts : List String) (x : String) → In x (insert_text s ts) ↔ In x (s ∷ ts)
unfolding insert_text
insert_text-In s [] x = (λ i. i, λ i. i)
insert_text-In s (t ∷ ts) x = elim (places s t) [
  | inl before ↦ rw before (λ i. i, λ i. i)
  | inr (behind, inl same) ↦
      rw (behind, same)
        (
          λ i. inr i,
          λ i. elim i [
            | inl e ↦ inl (subst (λ y. x ≡ y) ((eq_iff s t).0 same) e)
            | inr there ↦ there
          ],
        )
  | inr (behind, inr (differ, after)) ↦
      let rest = insert_text-In s ts x in
      rw (behind, differ)
        (
          λ i. elim i [
            | inl e ↦ inr (inl e)
            | inr there ↦ elim (rest.0 there) [ inl e ↦ inl e | inr j ↦ inr (inr j) ]
          ],
          λ i. elim i [
            | inl e ↦ inr (rest.1 (inl e))
            | inr (inl e) ↦ inl e
            | inr (inr j) ↦ inr (rest.1 (inr j))
          ],
        )
]

pub sorted_set-Ascending : (ss : List String) → Ascending (sorted_set ss)
unfolding sorted_set
sorted_set-Ascending [] = tt
sorted_set-Ascending (s ∷ ss) = insert_text-Ascending s (sorted_set ss) (sorted_set-Ascending ss)

pub sorted_set-In : (ss : List String) (x : String) → In x (sorted_set ss) ↔ In x ss
unfolding sorted_set
sorted_set-In [] x = (λ i. i, λ i. i)
sorted_set-In (s ∷ ss) x =
    let inserted = insert_text-In s (sorted_set ss) x in
    let rest = sorted_set-In ss x in
    (
      λ i. elim (inserted.0 i) [ inl e ↦ inl e | inr there ↦ inr (rest.0 there) ],
      λ i. inserted.1 (elim i [ inl e ↦ inl e | inr there ↦ inr (rest.1 there) ]),
    )
