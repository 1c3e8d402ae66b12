-- ===== src/Evidence/TerraformPlan.antt =====
-- packages/contracts/terraform_plan.py: the projection of a plan document and its destructive changes.
pub mod Destructive
use kosa_aws.Base.{
  Bool, List, String, [], any, codes, false, if◌then◌else◌, ltb, map, nat_eq, none, some, true, ℕ,
  ◌&&◌, ◌==◌, ◌||◌, ◌∷◌,
}
use kosa_aws.Errors.{Result, err, ok, plan_projection_error, ◌>>=◌, ◌>>◌}
use kosa_aws.Evidence.Json.{
  Elements, Json, Members, element, last_element, member_at, null, object_of, sequence, string,
}

-- `entry.get(field)`
unfoldable pub field_of : String → Members → Json
unfolding member_at
field_of key members = elim (member_at key members) [ none ↦ null | some value ↦ value ]

-- One projected change: the six fields of the entry and the five of its `change`.
pub record ProjectedChange : Type 0 where
  pub address : Json
  pub mode : Json
  pub resource_type : Json
  pub resource_name : Json
  pub index : Json
  pub provider_name : Json
  pub actions : Elements
  pub state_before : Json
  pub state_after : Json
  pub after_unknown : Json
  pub replace_paths : Json

-- `entry["change"]` and `change.actions`, which must be there
abbrev pub change_of : Members → Result Members
change_of entry = elim (member_at "change" entry) [
  | some (object_of change) ↦ ok change
  | _ ↦ err plan_projection_error
]

abbrev pub actions_of : Members → Result Elements
actions_of change = elim (field_of "actions" change) [
  | sequence actions ↦ ok actions
  | _ ↦ err plan_projection_error
]

-- The body of the loop of `project_plan_changes`.
unfoldable pub project_entry : Json → Result ProjectedChange
unfolding member_at field_of
project_entry (object_of entry) = do
  change ← change_of entry
  actions ← actions_of change
  ok (record {
    address = field_of "address" entry;
    mode = field_of "mode" entry;
    resource_type = field_of "type" entry;
    resource_name = field_of "name" entry;
    index = field_of "index" entry;
    provider_name = field_of "provider_name" entry;
    actions = actions;
    state_before = field_of "before" change;
    state_after = field_of "after" change;
    after_unknown = field_of "after_unknown" change;
    replace_paths = field_of "replace_paths" change;
  })
project_entry _ = err plan_projection_error

unfoldable pub project_entries : Elements → Result (List ProjectedChange)
unfolding project_entry
project_entries last_element = ok []
project_entries (element entry rest) = do
  first ← project_entry entry
  others ← project_entries rest
  ok (first ∷ others)

-- `_address_sort_key`, as the codes of its characters
unfoldable pub address_key : ProjectedChange → Result (List ℕ)
address_key change = elim change.address [
  | string (String.◌∷◌ c s) ↦ ok (codes (String.◌∷◌ c s))
  | _ ↦ err plan_projection_error
]

-- The order of texts: by code points, a prefix first.
unfoldable pub at_most : List ℕ → List ℕ → Bool
at_most [] ds = true
at_most (c ∷ cs) [] = false
at_most (c ∷ cs) (d ∷ ds) = let rest = at_most cs ds in ltb c d || nat_eq c d && rest

abbrev pub Keyed : Type 0
Keyed = List ℕ × ProjectedChange

unfoldable pub insert_change : Keyed → List Keyed → List Keyed
unfolding at_most
insert_change x [] = x ∷ []
insert_change x (y ∷ ys) =
    let rest = insert_change x ys in if at_most x.0 y.0 then x ∷ y ∷ ys else y ∷ rest

-- `projected.sort(key=_address_sort_key)`, a stable sort
unfoldable pub sort_changes : List ProjectedChange → Result (List Keyed)
unfolding insert_change address_key
sort_changes [] = ok []
sort_changes (change ∷ changes) = do
  key ← address_key change
  sorted ← sort_changes changes
  ok (insert_change (key, change) sorted)

unfoldable pub project_plan_changes : Json → Result (List ProjectedChange)
unfolding member_at project_entries sort_changes
project_plan_changes (object_of show_json) = elim (member_at "resource_changes" show_json) [
  | some (sequence entries) ↦ do
    projected ← project_entries entries
    sorted ← sort_changes projected
    ok (map (λ x. x.1) sorted)
  | _ ↦ err plan_projection_error
]
project_plan_changes _ = err plan_projection_error

-- `"delete" in actions`
unfoldable pub has_delete : Elements → Bool
has_delete last_element = false
has_delete (element (string action) rest) = action == "delete" || has_delete rest
has_delete (element _ rest) = has_delete rest

-- A sequence that is not empty
unfoldable pub has_paths : Json → Bool
has_paths (sequence (element _ _)) = true
has_paths _ = false

unfoldable pub is_destructive : ProjectedChange → Bool
unfolding has_delete has_paths
is_destructive change = has_delete change.actions || has_paths change.replace_paths

unfoldable pub has_destructive_changes : Json → Result Bool
unfolding project_plan_changes is_destructive
has_destructive_changes show_json = do
  changes ← project_plan_changes show_json
  ok (any is_destructive changes)
