-- ===== src/Rbac.antt =====
-- Role-based access control: autoschematic-core/src/config_rbac.rs.
-- The map of roles and the map of prefixes of a role are association lists. The loops that return
-- `true` at the first hit are `any`.
pub mod Access
pub mod Approval
use autoschematic.Prelude.{
  ℕ, ◌≡◌, refl, Text, Bool, true, false, ◌&&◌, Option, none, some, List, [], ◌∷◌, ◌++◌, leb, any,
  all, length, Eq, ◌==◌, nat_equality, option_equality, list_equality, if◌then◌else◌,
}
use autoschematic.Prelude.Dict
use autoschematic.Prelude.Dict.{Dict}

pub data User : Type 0 where
  github_user : Text → User

abbrev pub username : User → Text
username (github_user name) = name

abbrev pub user_eq : User → User → Bool
user_eq (github_user a) (github_user b) = a == b

pub data Grant : Type 0 where
  no_grant read_only : Grant
  apply_if_approved_by : Text → Grant
  apply : Grant

-- The derived order compares the variants first; the code only compares with `read_only`.
abbrev pub rank : Grant → ℕ
rank no_grant = 0
rank read_only = 1
rank (apply_if_approved_by _) = 2
rank apply = 3

abbrev pub at_least_read_only : Grant → Bool
at_least_read_only g = leb (rank read_only) (rank g)

abbrev pub is_apply : Grant → Bool
is_apply apply = true
is_apply _ = false

abbrev pub is_approval_grant : Grant → Bool
is_approval_grant (apply_if_approved_by _) = true
is_approval_grant _ = false

abbrev pub grant_eq : Grant → Grant → Bool
grant_eq (apply_if_approved_by r) (apply_if_approved_by s) = r == s
grant_eq (apply_if_approved_by _) _ = false
grant_eq _ (apply_if_approved_by _) = false
grant_eq g h = rank g == rank h

pub record PrefixGrant : Type 0 where
  pub grant : Grant
  pub connectors : Option (List Text)

abbrev pub prefix_grant_eq : PrefixGrant → PrefixGrant → Bool
prefix_grant_eq a b = grant_eq a.grant b.grant && a.connectors == b.connectors

pub record Role : Type 0 where
  pub users : List User
  pub prefixes : Dict Text PrefixGrant

abbrev users_eq : List User → List User → Bool
users_eq [] [] = true
users_eq (a ∷ as') (b ∷ bs) = user_eq a b && users_eq as' bs
users_eq _ _ = false

abbrev grant_at : Dict Text PrefixGrant → Text × PrefixGrant → Bool
grant_at m entry = elim (Dict.get entry.0 m) [ none ↦ false | some g ↦ prefix_grant_eq entry.1 g ]

-- The derived equality of roles: the users in order, the prefixes as maps.
unfoldable pub role_eq : Role → Role → Bool
role_eq a b =
    users_eq a.users b.users
    && (length a.prefixes == length b.prefixes)
    && all (grant_at b.prefixes) a.prefixes

pub record RbacConfig : Type 0 where
  pub roles : Dict Text Role

-- The inner loop of `roles_for_user`: a role is pushed once for each time the user is listed.
push_role : User → Role → List User → List Role
push_role user role [] = []
push_role user role (u ∷ us) =
    let rest = push_role user role us in if user_eq u user then role ∷ rest else rest

roles_of : User → Dict Text Role → List Role
roles_of user [] = []
roles_of user ((name, role) ∷ rs) = push_role user role role.users ++ roles_of user rs

unfoldable pub roles_for_user : RbacConfig → User → List Role
unfolding push_role roles_of
roles_for_user cfg user = roles_of user cfg.roles

grants_in : Text → List Role → List PrefixGrant
grants_in prefix [] = []
grants_in prefix (role ∷ rs) =
    let rest = grants_in prefix rs in
    elim (Dict.get prefix role.prefixes) [ none ↦ rest | some g ↦ g ∷ rest ]

unfoldable pub grants_for_prefix : RbacConfig → User → Text → List PrefixGrant
unfolding grants_in roles_for_user
grants_for_prefix cfg user prefix = grants_in prefix (roles_for_user cfg user)

abbrev pub contains : List Text → Text → Bool
contains cs c = any (λ x. x == c) cs

-- `if let Some(ref connectors) = grant.connectors && connectors.contains(..)`
abbrev pub names_connector : PrefixGrant → Text → Bool
names_connector g connector = elim g.connectors [ none ↦ false | some cs ↦ contains cs connector ]

unfoldable pub allows_read : RbacConfig → User → Text → Text → Bool
allows_read cfg user prefix connector =
    any (λ g. at_least_read_only g.grant && names_connector g connector)
      (grants_for_prefix cfg user prefix)

unfoldable pub allows_apply_without_approval : RbacConfig → User → Text → Text → Bool
allows_apply_without_approval cfg user prefix connector =
    any (λ g. is_apply g.grant && names_connector g connector) (grants_for_prefix cfg user prefix)

unfoldable pub allows_apply_with_approval : RbacConfig → User → Text → Text → Bool
allows_apply_with_approval cfg user prefix connector =
    any (λ g. is_approval_grant g.grant && names_connector g connector)
      (grants_for_prefix cfg user prefix)

-- `self.roles.get(role) == Some(approving_user_role)`
abbrev pub is_role : RbacConfig → Text → Role → Bool
is_role cfg role held = elim (Dict.get role cfg.roles) [ none ↦ false | some r ↦ role_eq r held ]

-- Without a list of connectors the grant covers all of them here.
abbrev pub matches_connectors : PrefixGrant → Text → Bool
matches_connectors g connector = elim g.connectors [ none ↦ true | some cs ↦ contains cs connector ]

abbrev pub approver_has_role : RbacConfig → Text → User → Bool
approver_has_role cfg role approver = any (is_role cfg role) (roles_for_user cfg approver)

-- One round of the outer loop. The test of the connectors does not depend on the approver.
abbrev pub approved_grant : RbacConfig → Text → List User → PrefixGrant → Bool
approved_grant cfg connector approvers g = elim g.grant [
  | apply_if_approved_by role ↦
      any (λ a. approver_has_role cfg role a && matches_connectors g connector) approvers
  | _ ↦ false
]

unfoldable pub allows_apply_if_approved_by : RbacConfig → User → Text → Text → List User → Bool
allows_apply_if_approved_by cfg user prefix connector approvers =
    any (approved_grant cfg connector approvers) (grants_for_prefix cfg user prefix)
