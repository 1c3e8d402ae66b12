-- ===== src/Evidence/TerraformPlan/Destructive.antt =====
-- A plan that is found harmless is one whose raw entries are all harmless.
use kosa_aws.Base.{
  Bool, Bool-cases, List, Option, [], any, ap, arith, false, inl, inr, map, none, refl, some, sym,
  ◌||◌, ◌∙◌, ◌∷◌, ◌≡◌,
}
use kosa_aws.Errors.{Result, bind_ok, err, ok, ok_inj, plan_projection_error}
use kosa_aws.Evidence.Json.{
  Elements, Json, Members, element, last_element, member_at, object_of, sequence,
}
use kosa_aws.Evidence.TerraformPlan.{
  Keyed, ProjectedChange, actions_of, address_key, at_most, change_of, field_of, has_delete,
  has_destructive_changes, has_paths, insert_change, is_destructive, project_entries, project_entry,
  project_plan_changes, sort_changes,
}

abbrev pub actions_delete : Json → Bool
actions_delete (sequence actions) = has_delete actions
actions_delete _ = false

-- A `change` that deletes or replaces.
abbrev pub change_destroys : Option Json → Bool
change_destroys (some (object_of change)) =
    actions_delete (field_of "actions" change) || has_paths (field_of "replace_paths" change)
change_destroys _ = false

-- An entry of the raw document that deletes or replaces.
unfoldable pub entry_destroys : Json → Bool
unfolding member_at field_of has_delete has_paths
entry_destroys (object_of entry) = change_destroys (member_at "change" entry)
entry_destroys _ = false

unfoldable pub any_destroys : Elements → Bool
unfolding entry_destroys
any_destroys last_element = false
any_destroys (element entry rest) = entry_destroys entry || any_destroys rest

change_of-some :
    (entry : Members) (o : Option Json) {change : Members}
    → elim o [ some (object_of c) ↦ ok c | _ ↦ err plan_projection_error ] ≡ ok change
    → o ≡ some (object_of change)
change_of-some entry none h = cc
change_of-some entry (some (object_of c)) h = ap (λ x. some (object_of x)) (ok_inj h)
change_of-some entry (some _) h = cc

actions_of-delete :
    (a : Json) {actions : Elements}
    → elim a [ sequence x ↦ ok x | _ ↦ err plan_projection_error ] ≡ ok actions
    → has_delete actions ≡ actions_delete a
actions_of-delete (sequence x) h = ap has_delete (sym (ok_inj h))
actions_of-delete _ h = cc

project_entry-destroys :
    (e : Json) {c : ProjectedChange} → project_entry e ≡ ok c → is_destructive c ≡ entry_destroys e
unfolding project_entry entry_destroys is_destructive
project_entry-destroys (object_of entry) {c} h =
    let (change, hc, h1) = bind_ok (change_of entry) _ h in
    let (actions, ha, h2) = bind_ok (actions_of change) _ h1 in
    let deletes = actions_of-delete (field_of "actions" change) ha in
    let raw = ap change_destroys (change_of-some entry (member_at "change" entry) hc) in
    ap is_destructive (sym (ok_inj h2))
    ∙ (ap (λ b. b || has_paths (field_of "replace_paths" change)) deletes ∙ sym raw)
project_entry-destroys _ h = cc

project_entries-destroy :
    (es : Elements) {cs : List ProjectedChange}
    → project_entries es ≡ ok cs
    → any is_destructive cs ≡ any_destroys es
unfolding project_entries any_destroys
project_entries-destroy last_element h = ap (any is_destructive) (sym (ok_inj h))
project_entries-destroy (element e es) h =
    let (c, hc, h1) = bind_ok (project_entry e) _ h in
    let (cs, hcs, h2) = bind_ok (project_entries es) _ h1 in
    ap (any is_destructive) (sym (ok_inj h2))
    ∙ ground (arith, project_entry-destroys e hc, project_entries-destroy es hcs)

insert_change-any :
    (x : Keyed) (xs : List Keyed)
    → any is_destructive (map (λ y. y.1) (insert_change x xs))
      ≡ (is_destructive x.1 || any is_destructive (map (λ y. y.1) xs))
unfolding insert_change
insert_change-any x [] = refl
insert_change-any x (y ∷ ys) = elim (Bool-cases (at_most x.0 y.0)) [
  | inl early ↦ rw early refl
  | inr late ↦ rw late (ground (arith, insert_change-any x ys))
]

sort_changes-any :
    (cs : List ProjectedChange) {ks : List Keyed}
    → sort_changes cs ≡ ok ks
    → any is_destructive (map (λ y. y.1) ks) ≡ any is_destructive cs
unfolding sort_changes
sort_changes-any [] h =
    ap (λ (ks : List Keyed). any is_destructive (map (λ y. y.1) ks)) (sym (ok_inj h))
sort_changes-any (c ∷ cs) h =
    let (key, hk, h1) = bind_ok (address_key c) _ h in
    let (ks, hks, h2) = bind_ok (sort_changes cs) _ h1 in
    ap (λ (ks : List Keyed). any is_destructive (map (λ y. y.1) ks)) (sym (ok_inj h2))
    ∙ (insert_change-any (key, c) ks ∙ ap (λ b. is_destructive c || b) (sort_changes-any cs hks))

-- What a document has to be.
abbrev pub HasEntries : Json → Elements → Type 0
HasEntries (object_of members) entries =
    member_at "resource_changes" members ≡ some (sequence entries)
HasEntries _ entries = ⊥

entries_of-some :
    (o : Option Json) (f : Elements → Result (List ProjectedChange)) {cs : List ProjectedChange}
    → elim o [ some (sequence es) ↦ f es | _ ↦ err plan_projection_error ] ≡ ok cs
    → (es : Elements) × (o ≡ some (sequence es)) × (f es ≡ ok cs)
entries_of-some none f h = cc
entries_of-some (some (sequence es)) f h = (es, refl, h)
entries_of-some (some _) f h = cc

projected-destroys :
    (d : Json) {cs : List ProjectedChange}
    → project_plan_changes d ≡ ok cs
    → (es : Elements) × HasEntries d es × (any is_destructive cs ≡ any_destroys es)
unfolding project_plan_changes
projected-destroys (object_of members) h =
    let (es, he, h1) = entries_of-some (member_at "resource_changes" members) _ h in
    let (cs, hc, h2) = bind_ok (project_entries es) _ h1 in
    let (ks, hk, h3) = bind_ok (sort_changes cs) _ h2 in
    (
      es,
      he,
      ap (any is_destructive) (sym (ok_inj h3))
          ∙ (sort_changes-any cs hk ∙ project_entries-destroy es hc),
    )
projected-destroys _ h = cc

-- Where the check of a plan for destructive changes returns, the document carries a list of resource
-- changes, and the answer is whether an entry of that raw list deletes or replaces: neither the
-- projection nor the sort loses a destructive change.
pub has_destructive_changes-destroys :
    (d : Json) {b : Bool}
    → has_destructive_changes d ≡ ok b
    → (es : Elements) × HasEntries d es × (b ≡ any_destroys es)
unfolding has_destructive_changes
has_destructive_changes-destroys d h =
    let (cs, hc, h1) = bind_ok (project_plan_changes d) _ h in
    let (es, he, same) = projected-destroys d hc in (es, he, sym (ok_inj h1) ∙ same)
