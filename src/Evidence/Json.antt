-- ===== src/Evidence/Json.antt =====
-- Documents as `json.loads` returns them. A number is kept as its literal, which no predicate reads.
-- A mapping lists its members, whose keys are distinct.
use kosa_aws.Base.{Bool, Option, String, false, if◌then◌else◌, none, some, true, ◌==◌}

mutual
  pub data Json : Type 0 where
    null : Json
    boolean : Bool → Json
    number_literal : String → Json
    string : String → Json
    sequence : Elements → Json
    object_of : Members → Json

  pub data Elements : Type 0 where
    last_element : Elements
    element : Json → Elements → Elements

  pub data Members : Type 0 where
    last_member : Members
    member : String → Json → Members → Members

-- `mapping.get(key)`, where a key that is absent is `none`
unfoldable pub member_at : String → Members → Option Json
member_at key last_member = none
member_at key (member name value rest) = if name == key then some value else member_at key rest

unfoldable pub is_null : Json → Bool
is_null null = true
is_null _ = false
