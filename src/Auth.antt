-- ===== src/Auth.antt =====
-- apps/backend/auth: principals from verified claims, and action-level authorization.
pub mod Access
mod Tests
use kosa_aws.Base.{
  Bool, List, Option, String, [], any, false, if◌then◌else◌, is_blank, none, some, true, ◌==◌, ◌||◌,
  ◌∷◌,
}
use kosa_aws.Errors.{
  Result, authorization_denied, err, invalid_identity_claims, ok, require, ◌>>=◌, ◌>>◌,
}
use kosa_aws.Jobs.Item.{lookup}

pub data Role : Type 0 where
  admin user : Role

pub data Action : Type 0 where
  start_assessment read_job start_remediation start_deployment : Action
  approve_deployment reject_deployment manage_remediation_exceptions : Action
  manage_policy_sources publish_policy_profile read_observability read_audit_events : Action
  manage_users orchestrate : Action

-- `roles` is the set as a list.
pub record Principal : Type 0 where
  pub subject : String
  pub client_id : String
  pub customer_id : String
  pub roles : List Role

-- `_USER_ACTIONS`
unfoldable pub user_action : Action → Bool
user_action start_assessment = true
user_action start_remediation = true
user_action start_deployment = true
user_action read_job = true
user_action orchestrate = true
user_action _ = false

-- The actions that `_ROLE_ACTIONS` adds for `Role.ADMIN`.
unfoldable pub admin_action : Action → Bool
admin_action approve_deployment = true
admin_action reject_deployment = true
admin_action manage_remediation_exceptions = true
admin_action manage_policy_sources = true
admin_action publish_policy_profile = true
admin_action read_observability = true
admin_action read_audit_events = true
admin_action manage_users = true
admin_action _ = false

-- `action in _ROLE_ACTIONS[role]`
unfoldable pub role_action : Role → Action → Bool
role_action user action = user_action action
role_action admin action = user_action action || admin_action action

unfoldable pub authorize : Principal → Action → Result (Unit {0})
authorize principal action =
    require (any (λ role. role_action role action) principal.roles) authorization_denied

-- The values that the claims of a token have here: texts and arrays; an element that is no text is
-- `other`.
pub data Group : Type 0 where
  group : String → Group
  other : Group

pub data Claim : Type 0 where
  text : String → Claim
  array : List Group → Claim
  object : Claim

abbrev pub Claims : Type 0
Claims = List (String × Claim)

unfoldable pub required_claim : Claims → String → Result Claim
unfolding lookup
required_claim claims name = elim (lookup name claims) [
  | none ↦ err invalid_identity_claims
  | some claim ↦ ok claim
]

abbrev pub non_empty_text : Claim → Result String
non_empty_text (text value) = if is_blank value then err invalid_identity_claims else ok value
non_empty_text _ = err invalid_identity_claims

unfoldable pub required_non_empty_claim : Claims → String → Result String
unfolding required_claim
required_non_empty_claim claims name = do claim ← required_claim claims name; non_empty_text claim

-- `_GROUP_ROLES.get(group)`
unfoldable pub group_role : String → Option Role
group_role name = if name == "Admin" then some admin else if name == "User" then some user else none

-- `roles.add(role)`; a set that is only searched is kept with repetitions.
abbrev pub add_role : Option Role → List Role → List Role
add_role none roles = roles
add_role (some role) roles = role ∷ roles

abbrev pub named_role : Group → Result (Option Role)
named_role other = err invalid_identity_claims
named_role (group name) =
    if is_blank name then err invalid_identity_claims else ok (group_role name)

unfoldable pub collect_roles : List Group → List Role → Result (List Role)
unfolding group_role
collect_roles [] roles = ok roles
collect_roles (g ∷ groups) roles =
    named_role g >>= λ role. collect_roles groups (add_role role roles)

abbrev pub some_role : List Role → Result (List Role)
some_role [] = err invalid_identity_claims
some_role (role ∷ roles) = ok (role ∷ roles)

unfoldable pub roles_from_groups : Claim → Result (List Role)
unfolding collect_roles
roles_from_groups (array groups) = collect_roles groups [] >>= some_role
roles_from_groups _ = err invalid_identity_claims

abbrev pub is_access : Claim → Bool
is_access (text value) = value == "access"
is_access _ = false

unfoldable pub from_verified_claims : Claims → Result Principal
unfolding required_claim required_non_empty_claim roles_from_groups
from_verified_claims claims = do
  token_use ← required_claim claims "token_use"
  require (is_access token_use) invalid_identity_claims
  subject ← required_non_empty_claim claims "sub"
  client_id ← required_non_empty_claim claims "client_id"
  customer_id ← required_non_empty_claim claims "custom:customer_id"
  groups ← required_claim claims "cognito:groups"
  roles ← roles_from_groups groups
  ok (record { subject = subject; client_id = client_id; customer_id = customer_id; roles = roles })
