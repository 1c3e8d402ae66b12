-- ===== src/Auth/Access.antt =====
-- Who may do what, and which claims make which principal.
use kosa_aws.Auth.{
  Action, Claim, Claims, Group, Principal, Role, add_role, admin, admin_action, array, authorize,
  collect_roles, from_verified_claims, group, group_role, named_role, object, other, required_claim,
  required_non_empty_claim, role_action, roles_from_groups, some_role, text, user, user_action,
}
use kosa_aws.Base.{
  Bool, Bool-cases, List, Option, String, [], any, ap, arith, eq_iff, false, inl, inr, is_empty,
  not, sym, true, ◌&&◌, ◌==◌, ◌||◌, ◌↔◌, ◌∙◌, ◌∷◌, ◌≡◌, ◌⊎◌,
}
use kosa_aws.Errors.{
  authorization_denied, bind_ok, err, invalid_identity_claims, ok, ok_inj, require_iff, require_ok,
}

-- The groups of the claims have a product role's exact name among them.
abbrev pub HasGroup : String → List Group → Type 0
HasGroup name [] = ⊥
HasGroup name (other ∷ groups) = HasGroup name groups
HasGroup name (group g ∷ groups) = (g ≡ name) ⊎ HasGroup name groups

abbrev pub is_admin : Role → Bool
is_admin admin = true
is_admin user = false

authorize_roles :
    (roles : List Role) (action : Action)
    → any (λ role. role_action role action) roles ≡ (
        (user_action action && not (is_empty roles)) || (admin_action action && any is_admin roles))
unfolding role_action
authorize_roles [] action = ground arith
authorize_roles (admin ∷ roles) action = ground (arith, authorize_roles roles action)
authorize_roles (user ∷ roles) action = ground (arith, authorize_roles roles action)

-- What one group adds to the roles.
group_step :
    (g : String) (role : Option Role) (roles : List Role)
    → named_role (group g) ≡ ok role
    → any is_admin (add_role role roles) ≡ true
    → (g ≡ "Admin") ⊎ (any is_admin roles ≡ true)
unfolding group_role
group_step g role roles e h = elim (Bool-cases (g == "Admin")) [
  | inl same ↦ inl ((eq_iff g "Admin").0 same)
  | inr differ ↦ inr (ground arith)
]

collect_roles-admin :
    (groups : List Group) (roles : List Role) {found : List Role}
    → collect_roles groups roles ≡ ok found
    → any is_admin found ≡ true
    → (any is_admin roles ≡ true) ⊎ HasGroup "Admin" groups
unfolding collect_roles
collect_roles-admin [] roles e h = ground arith
collect_roles-admin (other ∷ groups) roles {found} e h =
    absurd (let wrong : (err invalid_identity_claims ≡ ok found) = e in cc wrong)
collect_roles-admin (group g ∷ groups) roles e h =
    let (role, named, rest) =
      bind_ok (named_role (group g)) (λ role. collect_roles groups (add_role role roles)) e in
    elim (collect_roles-admin groups (add_role role roles) rest h) [
      | inr rest_has ↦ inr (inr rest_has)
      | inl added ↦ elim (group_step g role roles named added) [
        | inl same ↦ inr (inl same)
        | inr old ↦ inl old
      ]
    ]

-- A principal may do an action exactly if the action is one of every user and the principal has a role,
-- or the action is one of administrators and the principal has the role ADMIN.
pub authorize_iff :
    (p : Principal) (a : Action)
    → (authorize p a ≡ ok tt) ↔ (
        ((user_action a && not (is_empty p.roles)) || (admin_action a && any is_admin p.roles))
        ≡ true)
unfolding authorize
authorize_iff p a = rw (authorize_roles p.roles a) (require_iff _ authorization_denied)

admin_action-only : (a : Action) → admin_action a ≡ true → user_action a ≡ false
unfolding admin_action user_action
admin_action-only a h = ground arith

some_role-eq : (roles : List Role) {found : List Role} → some_role roles ≡ ok found → found ≡ roles
some_role-eq [] e = absurd (cc)
some_role-eq (role ∷ roles) e = cc

-- What the claims of a principal hold.
pub record Claimed (claims : Claims) (p : Principal) : Type 0 where
  pub groups : List Group
  pub is_array : required_claim claims "cognito:groups" ≡ ok (array groups)
  pub collected : collect_roles groups [] ≡ ok p.roles

roles-Claimed :
    (claims : Claims) (p : Principal) (claim : Claim)
    → required_claim claims "cognito:groups" ≡ ok claim
    → roles_from_groups claim ≡ ok p.roles
    → Claimed claims p
unfolding roles_from_groups
roles-Claimed claims p (array groups) e h =
    let (roles, collected, same) = bind_ok (collect_roles groups []) some_role h in
    record {
      groups = groups;
      is_array = e;
      collected = collected ∙ ap ok (sym (some_role-eq roles same));
    }
roles-Claimed claims p (text value) e h =
    absurd (let wrong : (err invalid_identity_claims ≡ ok p.roles) = h in cc wrong)
roles-Claimed claims p object e h =
    absurd (let wrong : (err invalid_identity_claims ≡ ok p.roles) = h in cc wrong)

from_verified_claims-Claimed :
    (claims : Claims) (p : Principal) → from_verified_claims claims ≡ ok p → Claimed claims p
unfolding from_verified_claims
from_verified_claims-Claimed claims p h =
    let (_, _, h1) = bind_ok (required_claim claims "token_use") _ h in
    let (_, h2) = require_ok _ _ _ h1 in
    let (_, _, h3) = bind_ok (required_non_empty_claim claims "sub") _ h2 in
    let (_, _, h4) = bind_ok (required_non_empty_claim claims "client_id") _ h3 in
    let (_, _, h5) = bind_ok (required_non_empty_claim claims "custom:customer_id") _ h4 in
    let (claim, e, h6) = bind_ok (required_claim claims "cognito:groups") _ h5 in
    let (roles, r, same) = bind_ok (roles_from_groups claim) _ h6 in
    roles-Claimed claims p claim e (r ∙ ap ok (ap (λ (q : Principal). q.roles) (ok_inj same)))

-- A token whose principal may do an action of administrators, such as approving a deployment, has
-- the exact group name Admin among its groups.
pub authorize-from_verified_claims :
    (claims : Claims) (p : Principal) (a : Action)
    → from_verified_claims claims ≡ ok p
    → admin_action a ≡ true
    → authorize p a ≡ ok tt
    → (groups : List Group) × (required_claim claims "cognito:groups" ≡ ok (array groups))
      × HasGroup "Admin" groups
authorize-from_verified_claims claims p a made only h =
    let claimed = from_verified_claims-Claimed claims p made in
    let allowed = (authorize_iff p a).0 h in
    let is_admin_role : any is_admin p.roles ≡ true = ground (arith, admin_action-only a) in
    elim (collect_roles-admin claimed.groups [] claimed.collected is_admin_role) [
      | inl none_yet ↦ absurd (let wrong : (false ≡ true) = none_yet in cc wrong)
      | inr has ↦ (claimed.groups, claimed.is_array, has)
    ]
