-- ===== src/Auth/Tests.antt =====
-- A token of an administrator, and its principal.
use kosa_aws.Auth.{
  Claims, Group, Principal, admin, admin_action, approve_deployment, array, authorize,
  from_verified_claims, group, required_claim, text, user, user_action,
}
use kosa_aws.Auth.Access.{HasGroup, authorize-from_verified_claims, authorize_iff, is_admin}
use kosa_aws.Base.{List, [], any, is_empty, not, refl, true, ◌&&◌, ◌||◌, ◌↔◌, ◌∷◌, ◌≡◌}
use kosa_aws.Errors.{ok}

abbrev token : Claims
token =
    ("token_use", text "access")
    ∷ ("sub", text "alice")
    ∷ ("client_id", text "web")
    ∷ ("custom:customer_id", text "acme")
    ∷ ("cognito:groups", array (group "User" ∷ group "Admin" ∷ []))
    ∷ []

abbrev alice : Principal
alice = record {
  subject = "alice";
  client_id = "web";
  customer_id = "acme";
  roles = admin ∷ user ∷ [];
}

test_principal : from_verified_claims token ≡ ok alice
unfolding from_verified_claims kosa_aws.Base.is_blank
test_principal = refl

test_admin : admin_action approve_deployment ≡ true
unfolding admin_action
test_admin = refl

test_authorized : authorize alice approve_deployment ≡ ok tt
unfolding authorize kosa_aws.Auth.role_action user_action admin_action
test_authorized = refl

authorize_iff_example : (authorize alice approve_deployment ≡ ok tt) ↔ (
    ((user_action approve_deployment && not (is_empty alice.roles))
      || (admin_action approve_deployment && any is_admin alice.roles))
    ≡ true)
authorize_iff_example = authorize_iff alice approve_deployment

authorize-from_verified_claims_example :
    (groups : List Group) × (required_claim token "cognito:groups" ≡ ok (array groups))
    × HasGroup "Admin" groups
authorize-from_verified_claims_example =
    authorize-from_verified_claims token alice approve_deployment test_principal test_admin
      test_authorized
