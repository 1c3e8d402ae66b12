-- ===== src/Evidence/Lookup.antt =====
-- apps/backend/policy/evidence_paths.py: presence and values at a declared path, and how they agree.
pub mod Present
use kosa_aws.Base.{
  Bool, List, Option, String, [], false, if◌then◌else◌, none, not, some, true, ◌&&◌, ◌++◌, ◌∷◌,
}
use kosa_aws.Errors.{Result, ok, ◌>>=◌}
use kosa_aws.Evidence.Json.{
  Elements, Json, element, is_null, last_element, member_at, object_of, sequence,
}
use kosa_aws.Evidence.Path.{Segment, parse_document_path}

-- `child` of a mapping, where `None` counts as absent
unfoldable pub child_at : String → Json → Option Json
unfolding member_at is_null
child_at key (object_of members) = elim (member_at key members) [
  | none ↦ none
  | some child ↦ if is_null child then none else some child
]
child_at key _ = none

-- The elements of a sequence that is no text.
unfoldable pub elements_of : Json → Option Elements
elements_of (sequence elements) = some elements
elements_of _ = none

module _ (value : Json → List Json) where
  unfoldable pub each_value : Elements → List Json
  each_value last_element = []
  each_value (element entry rest) = value entry ++ each_value rest

module _ (present : Json → Bool) where
  unfoldable pub all_present : Elements → Bool
  all_present last_element = true
  all_present (element entry rest) = present entry && all_present rest

abbrev pub has_elements : Elements → Bool
has_elements last_element = false
has_elements (element _ _) = true

-- `_values`
unfoldable pub values : List Segment → Json → List Json
unfolding each_value
values [] value = value ∷ []
values (segment ∷ segments) value = elim (child_at segment.key value) [
  | none ↦ []
  | some child ↦
      if segment.expands_list
      then elim (elements_of child) [
        | none ↦ []
        | some elements ↦ each_value (values segments) elements
      ]
      else values segments child
]

-- `_present`
unfoldable pub present_at : List Segment → Json → Bool
unfolding all_present
present_at [] value = not (is_null value)
present_at (segment ∷ segments) value = elim (child_at segment.key value) [
  | none ↦ false
  | some child ↦
      if segment.expands_list
      then elim (elements_of child) [
        | none ↦ false
        | some elements ↦ has_elements elements && all_present (present_at segments) elements
      ]
      else present_at segments child
]

unfoldable pub document_path_present : Json → String → Result Bool
document_path_present document path = do
  segments ← parse_document_path path
  ok (present_at segments document)

unfoldable pub document_path_values : Json → String → Result (List Json)
document_path_values document path = do
  segments ← parse_document_path path
  ok (values segments document)

-- `missing_document_paths`
unfoldable pub missing_document_paths : Json → List String → Result (List String)
missing_document_paths document [] = ok []
missing_document_paths document (path ∷ paths) = do
  is_there ← document_path_present document path
  missing ← missing_document_paths document paths
  ok (if is_there then missing else path ∷ missing)
